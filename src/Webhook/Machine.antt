-- ===== src/Webhook/Machine.antt =====
-- The webhooks of VSphereMachines and VSphereVMs (internal/webhooks/vspheremachine.go,
-- internal/webhooks/vspherevm.go).
use cluster_api_provider_vsp.Prelude.{
  ℕ, String, Bool, true, false, not, ◌&&◌, ◌||◌, Option, none, some, List, [], ◌∷◌, ◌++◌, is_empty,
  str_eq, ltb, ◌==◌, if◌then◌else◌,
}
use cluster_api_provider_vsp.Errors.{Outcome, ok, err, nil_pointer}
use cluster_api_provider_vsp.Api.{PowerOpMode, try_soft, PciDeviceSpec}
use cluster_api_provider_vsp.VimMachine.Names.{text_length}
use cluster_api_provider_vsp.Webhook.Maps.{Fields, delete_keys, same_fields}

-- what the webhooks read of an object; `network` is the map under that key of the spec, and
-- `fields` has the other keys
pub record AdmittedObject : Type 0 where
  pub name : String
  pub os : String
  pub datacenter : String
  pub bios_uuid : String
  pub power_off_mode : PowerOpMode
  pub guest_soft_power_off_timeout_seconds : ℕ
  pub pci_devices : List PciDeviceSpec
  -- the addresses of each device
  pub ip_addrs : List (List String)
  pub fields : Fields
  pub network : Option Fields

-- `net.ParseCIDR` answers without an error
pub record CidrParser : Type 0 where
  pub parses : String → Bool

abbrev pub is_try_soft : PowerOpMode → Bool
is_try_soft try_soft = true
is_try_soft _ = false

unfoldable pub timeout_errors : AdmittedObject → List String
timeout_errors o =
    if o.guest_soft_power_off_timeout_seconds == 0 || is_try_soft o.power_off_mode
    then []
    else "should not be set in templates unless the powerOffMode is trySoft" ∷ []

abbrev pub is_given {ℓ} : {A : Type ℓ} → Option A → Bool
is_given none = false
is_given (some a) = true

-- either a profile, or both IDs
unfoldable pub is_valid_pci_device : PciDeviceSpec → Bool
is_valid_pci_device d =
    (not (is_empty d.vgpu_profile) && not (is_given d.device_id) && not (is_given d.vendor_id))
    || (is_empty d.vgpu_profile && is_given d.device_id && is_given d.vendor_id)

unfoldable pub validate_pci_devices : List PciDeviceSpec → List String
unfolding is_valid_pci_device
validate_pci_devices [] = []
validate_pci_devices (d ∷ ds) =
    let rest = validate_pci_devices ds in
    if is_valid_pci_device d
    then rest
    else "should have either deviceId + vendorId or vGPUProfile set" ∷ rest

-- defaults
unfoldable pub default_machine : AdmittedObject → AdmittedObject
default_machine o = if is_empty o.datacenter then record o { datacenter = "*" } else o

unfoldable pub default_vm : AdmittedObject → AdmittedObject
default_vm o = if is_empty o.os then record o { os = "Linux" } else o

module _ (p : CidrParser) where
  unfoldable pub address_errors : List String → List String
  address_errors [] = []
  address_errors (a ∷ rest) =
      let later = address_errors rest in
      if p.parses a then later else "ip addresses should be in the CIDR format" ∷ later

  unfoldable pub device_errors : List (List String) → List String
  unfolding address_errors
  device_errors [] = []
  device_errors (d ∷ ds) = address_errors d ++ device_errors ds

  unfoldable pub validate_machine_create : AdmittedObject → List String
  unfolding device_errors timeout_errors validate_pci_devices
  validate_machine_create o =
      device_errors o.ip_addrs ++ (timeout_errors o ++ validate_pci_devices o.pci_devices)

  unfoldable pub windows_name_errors : AdmittedObject → List String
  windows_name_errors o =
      if str_eq o.os "Windows" && ltb 15 (text_length o.name)
      then "name has to be less than 16 characters for Windows VM" ∷ []
      else []

  unfoldable pub validate_vm_create : AdmittedObject → List String
  unfolding device_errors windows_name_errors timeout_errors
  validate_vm_create o = device_errors o.ip_addrs ++ (windows_name_errors o ++ timeout_errors o)

  -- The specs without the keys that may change, and the networks without their devices. A type
  -- assertion on a network that is not there panics.
  abbrev pub same_specs :
      List String → Fields → Fields → Option Fields → Option Fields → Outcome Bool
  same_specs keys old new (some old_network) (some new_network) = ok (
      same_fields (delete_keys keys old) (delete_keys keys new)
      && same_fields (delete_keys ("devices" ∷ []) old_network)
          (delete_keys ("devices" ∷ []) new_network))
  same_specs keys old new _ _ = err nil_pointer

  abbrev pub or_forbidden : List String → Outcome Bool → Outcome (List String)
  or_forbidden errors (ok true) = ok errors
  or_forbidden errors (ok false) = ok (errors ++ ("spec: cannot be modified" ∷ []))
  or_forbidden errors (err e) = err e

  abbrev pub machine_keys : List String
  machine_keys = "providerID" ∷ "powerOffMode" ∷ "guestSoftPowerOffTimeoutSeconds" ∷ []

  unfoldable pub validate_machine_update :
      (old : AdmittedObject) → (new : AdmittedObject) → Outcome (List String)
  unfolding timeout_errors device_errors same_fields delete_keys
  validate_machine_update old new =
      or_forbidden (timeout_errors new ++ device_errors new.ip_addrs)
        (same_specs machine_keys old.fields new.fields old.network new.network)

  -- the keys that may change: os and biosUUID only while they are not set
  unfoldable pub vm_keys : AdmittedObject → List String
  vm_keys old =
      ("bootstrapRef" ∷ "thumbprint" ∷ "powerOffMode" ∷ "guestSoftPowerOffTimeoutSeconds" ∷ [])
      ++ ((if is_empty old.os then "os" ∷ [] else [])
          ++ (if is_empty old.bios_uuid then "biosUUID" ∷ [] else []))

  unfoldable pub validate_vm_update :
      (old : AdmittedObject) → (new : AdmittedObject) → Outcome (List String)
  unfolding timeout_errors same_fields delete_keys vm_keys
  validate_vm_update old new =
      or_forbidden (timeout_errors new)
        (same_specs (vm_keys old) old.fields new.fields old.network new.network)
