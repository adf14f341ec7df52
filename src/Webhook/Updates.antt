-- ===== src/Webhook/Updates.antt =====
-- Which updates of a VSphereVM are admitted (internal/webhooks/vspherevm.go: ValidateUpdate).
use cluster_api_provider_vsp.Prelude.{
  String, Bool, true, false, ◌&&◌, ◌≡◌, refl, ◌∙◌, sym, ◌↔◌, ◌⊎◌, ◌||◌, is_empty, str_eq, Option,
  none, some, List, [], ◌∷◌, arith, is_nil, if◌then◌else◌, lookup,
}
use cluster_api_provider_vsp.Errors.{ok}
use cluster_api_provider_vsp.Group.Names.{has}
use cluster_api_provider_vsp.Webhook.Maps.{
  Fields, delete_keys, same_fields, same_fields-lookup, lookup-delete_keys,
}
use cluster_api_provider_vsp.Api.{try_soft}
use cluster_api_provider_vsp.Webhook.Machine.{
  AdmittedObject, CidrParser, timeout_errors, or_forbidden, vm_keys, validate_vm_update,
}

-- The timeout is left at 0, or the power off mode is trySoft.
abbrev pub IsTimeoutMeant : AdmittedObject → Type 0
IsTimeoutMeant o = (o.guest_soft_power_off_timeout_seconds ≡ 0) ⊎ (o.power_off_mode ≡ try_soft)

-- whether a key of the spec of a VSphereVM may change, given the object before
unfoldable pub may_change : AdmittedObject → String → Bool
may_change old key =
    str_eq "bootstrapRef" key
    || str_eq "thumbprint" key
    || str_eq "powerOffMode" key
    || str_eq "guestSoftPowerOffTimeoutSeconds" key
    || (str_eq "os" key && is_empty old.os)
    || (str_eq "biosUUID" key && is_empty old.bios_uuid)

-- each key that may not change has one value
abbrev pub IsKept : AdmittedObject → AdmittedObject → Type 0
IsKept old new =
    (key : String) → may_change old key ≡ false → lookup key old.fields ≡ lookup key new.fields

timeout_errors-IsTimeoutMeant :
    (o : AdmittedObject) → (is_nil (timeout_errors o) ≡ true) ↔ IsTimeoutMeant o
unfolding timeout_errors
timeout_errors-IsTimeoutMeant o = ground arith

-- all keys but those have the same values
abbrev pub AgreeBut : List String → Fields → Fields → Type 0
AgreeBut keys a b = (key : String) → has key keys ≡ false → lookup key a ≡ lookup key b

if-same :
    (b : Bool) (x y : Option String)
    → (b ≡ false → x ≡ y)
    → (if b then none else x) ≡ (if b then none else y)
if-same true x y h = refl
if-same false x y h = h refl

same-AgreeBut :
    (keys : List String) (a b : Fields)
    → (same_fields (delete_keys keys a) (delete_keys keys b) ≡ true) ↔ AgreeBut keys a b
same-AgreeBut keys a b = (
  λ h. λ key. λ g. ground (
    arith,
    g,
    (same_fields-lookup (delete_keys keys a) (delete_keys keys b)).0 h key,
    lookup-delete_keys keys a key,
    lookup-delete_keys keys b key,
  ),
  λ h. (same_fields-lookup (delete_keys keys a) (delete_keys keys b)).1 λ key.
      lookup-delete_keys keys a key
      ∙ if-same (has key keys) (lookup key a) (lookup key b) (h key)
      ∙ sym (lookup-delete_keys keys b key),
)

module _ (p : CidrParser) where
  vm_keys-may_change :
      (old : AdmittedObject) (key : String) → has key (vm_keys p old) ≡ may_change old key
  unfolding vm_keys may_change has
  vm_keys-may_change old key = ground arith

  vm_keys-IsKept :
      (old new : AdmittedObject) → AgreeBut (vm_keys p old) old.fields new.fields ↔ IsKept old new
  vm_keys-IsKept old new = (
    λ h. λ key. λ k. h key (vm_keys-may_change old key ∙ k),
    λ h. λ key. λ k. h key (sym (vm_keys-may_change old key) ∙ k),
  )

  or_forbidden-admits :
      (errors : List String) (same_spec same_network : Bool)
      → (or_forbidden p errors (ok (same_spec && same_network)) ≡ ok [])
        ↔ ((is_nil errors ≡ true) × (same_spec ≡ true) × (same_network ≡ true))
  or_forbidden-admits [] true true = ground arith
  or_forbidden-admits [] true false = ground arith
  or_forbidden-admits [] false same_network = ground arith
  or_forbidden-admits (e ∷ es) true true = ground arith
  or_forbidden-admits (e ∷ es) true false = ground arith
  or_forbidden-admits (e ∷ es) false same_network = ground arith

  -- For objects whose specs have a network, an update of a VSphereVM is admitted exactly where the
  -- timeout is 0 or the power off mode is trySoft, the specs agree on all keys but bootstrapRef,
  -- thumbprint, powerOffMode and guestSoftPowerOffTimeoutSeconds, and but os and biosUUID where
  -- these are not set before, and the networks agree on all keys but devices.
  pub update-admits :
      (old new : AdmittedObject) (old_network new_network : Fields)
      → old.network ≡ some old_network
      → new.network ≡ some new_network
      → (validate_vm_update p old new ≡ ok [])
        ↔ (IsTimeoutMeant new × IsKept old new × AgreeBut ("devices" ∷ []) old_network new_network)
  unfolding validate_vm_update
  update-admits old new old_network new_network h k = ground (
    arith,
    h,
    k,
    timeout_errors-IsTimeoutMeant new,
    vm_keys-IsKept old new,
    same-AgreeBut (vm_keys p old) old.fields new.fields,
    same-AgreeBut ("devices" ∷ []) old_network new_network,
    or_forbidden-admits (timeout_errors new)
        (same_fields (delete_keys (vm_keys p old) old.fields)
          (delete_keys (vm_keys p old) new.fields))
        (same_fields (delete_keys ("devices" ∷ []) old_network)
          (delete_keys ("devices" ∷ []) new_network)),
  )
