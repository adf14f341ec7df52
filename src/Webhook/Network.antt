-- ===== src/Webhook/Network.antt =====
-- The networks of a VSphereMachine of the supervisor (internal/webhooks/vmware/vspheremachine.go).
use cluster_api_provider_vsp.Prelude.{
  String, Bool, true, false, ◌&&◌, ◌||◌, Option, none, some, List, [], ◌∷◌, ◌++◌, str_eq, is_nil,
  if◌then◌else◌,
}
use cluster_api_provider_vsp.Errors.{Outcome, ok, err}
use cluster_api_provider_vsp.Group.Names.{has}
use cluster_api_provider_vsp.Webhook.{NetworkInterface, MachineNetwork, Gates}
use cluster_api_provider_vsp.Webhook.Vlans.{
  primary_interface_name, nsx_vpc_network_provider, is_defined, validate_vlans,
}

abbrev pub vds_network_provider : String
vds_network_provider = "VSphereDistributed"

-- the kinds of networks that the providers support
abbrev pub subnet_set_gvk : String
subnet_set_gvk = "crd.nsx.vmware.com/v1alpha1, Kind=SubnetSet"

abbrev pub subnet_gvk : String
subnet_gvk = "crd.nsx.vmware.com/v1alpha1, Kind=Subnet"

abbrev pub net_operator_gvk : String
net_operator_gvk = "netoperator.vmware.com/v1alpha1, Kind=Network"

abbrev pub primary_errors : Option NetworkInterface → List String
primary_errors none = []
primary_errors (some i) =
    if str_eq i.network_gvk subnet_set_gvk then [] else "only supports %s" ∷ []

unfoldable pub vpc_secondary_errors : List NetworkInterface → List String
vpc_secondary_errors [] = []
vpc_secondary_errors (i ∷ rest) =
    let later = vpc_secondary_errors rest in
    if str_eq i.network_gvk subnet_set_gvk || str_eq i.network_gvk subnet_gvk
    then later
    else "only supports %s or %s" ∷ later

abbrev pub vds_primary_errors : Option NetworkInterface → List String
vds_primary_errors none = []
vds_primary_errors (some i) = "primary interface can not be set when network provider is %s" ∷ []

unfoldable pub vds_secondary_errors : List NetworkInterface → List String
vds_secondary_errors [] = []
vds_secondary_errors (i ∷ rest) =
    let later = vds_secondary_errors rest in
    if str_eq i.network_gvk net_operator_gvk then later else "only supports %s" ∷ later

unfoldable pub type_errors : String → MachineNetwork → List String
unfolding vpc_secondary_errors vds_secondary_errors
type_errors provider network =
    if str_eq provider nsx_vpc_network_provider
    then primary_errors network.primary ++ vpc_secondary_errors network.secondary
    else (if str_eq provider vds_network_provider
        then vds_primary_errors network.primary ++ vds_secondary_errors network.secondary
        else "interfaces can not be set when network provider is %s" ∷ [])

-- the names that are in use, the primary interface's among them
unfoldable pub unique_errors : List String → List NetworkInterface → List String
unfolding has
unique_errors taken [] = []
unique_errors taken (i ∷ rest) =
    let refused = unique_errors taken rest in
    let accepted = unique_errors (i.name ∷ taken) rest in
    if has i.name taken then "interface name is already in use" ∷ refused else accepted

unfoldable pub interface_errors : Gates → String → MachineNetwork → List String
unfolding type_errors unique_errors
interface_errors gates provider network =
    if is_defined network.primary network.secondary
    then (if gates.multi_networks
        then type_errors provider network
          ++ unique_errors (primary_interface_name ∷ []) network.secondary
        else "interfaces can only be set when feature gate MultiNetworks is enabled" ∷ [])
    else []

unfoldable pub validate_network : Gates → String → MachineNetwork → List String
unfolding interface_errors validate_vlans
validate_network gates provider network =
    interface_errors gates provider network
    ++ (if is_nil network.vlans then [] else validate_vlans gates provider network)

unfoldable pub validate_policies : Gates → List String → List String
validate_policies gates policies =
    if is_nil policies
    then []
    else (if gates.infrastructure_policies
        then []
        else "policies can only be set when feature gate InfrastructurePolicies is enabled" ∷ [])

-- `VSphereMachineSpec` of the supervisor, with the fields that the webhook reads
pub record SupervisorSpec : Type 0 where
  pub image_name : String
  pub class_name : String
  pub storage_class : String
  pub min_hardware_version : String
  pub network : MachineNetwork
  pub policies : List String

abbrev pub unless : Bool → String → List String
unless true message = []
unless false message = message ∷ []

unfoldable pub same_interface : NetworkInterface → NetworkInterface → Bool
same_interface i j =
    str_eq i.name j.name
    && str_eq i.network_gvk j.network_gvk
    && str_eq i.other_fields j.other_fields

unfoldable pub same_interfaces : List NetworkInterface → List NetworkInterface → Bool
unfolding same_interface
same_interfaces [] [] = true
same_interfaces [] (j ∷ js) = false
same_interfaces (i ∷ is) [] = false
same_interfaces (i ∷ is) (j ∷ js) = same_interface i j && same_interfaces is js

abbrev pub same_primary : Option NetworkInterface → Option NetworkInterface → Bool
same_primary none none = true
same_primary (some i) (some j) = same_interface i j
same_primary _ _ = false

-- what may not be modified, as VM operator does not allow it
unfoldable pub immutable_errors : (new : SupervisorSpec) → (old : SupervisorSpec) → List String
unfolding same_interfaces
immutable_errors new old =
    unless (str_eq new.image_name old.image_name) "imageName: cannot be modified"
    ++ (unless (str_eq new.class_name old.class_name) "className: cannot be modified"
        ++ (unless (str_eq new.storage_class old.storage_class) "storageClass: cannot be modified"
            ++ (unless (str_eq new.min_hardware_version old.min_hardware_version)
                  "minHardwareVersion: cannot be modified"
                ++ unless
                    (same_primary new.network.primary old.network.primary
                      && same_interfaces new.network.secondary old.network.secondary)
                    "interfaces: cannot be modified")))

-- the errors of the object, or an error of the call
abbrev pub with_provider : Outcome String → (String → List String) → Outcome (List String)
with_provider (ok provider) f = ok (f provider)
with_provider (err e) f = err e

unfoldable pub validate_create : Gates → Outcome String → SupervisorSpec → Outcome (List String)
unfolding validate_network validate_policies
validate_create gates provider spec =
    with_provider provider
      λ name. validate_network gates name spec.network ++ validate_policies gates spec.policies

unfoldable pub validate_update :
    Gates → Outcome String → (old : SupervisorSpec) → (new : SupervisorSpec) → Outcome (List String)
unfolding immutable_errors validate_network validate_policies
validate_update gates provider old new = with_provider provider λ name.
    immutable_errors new old
    ++ (validate_network gates name new.network ++ validate_policies gates new.policies)
