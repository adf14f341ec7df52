-- ===== src/VimMachine/Ready.antt =====
-- When the reconcile of a VSphereMachine is done with its VSphereVM (pkg/services/vimmachine.go:
-- ReconcileNormal, reconcileProviderID, reconcileNetwork).
use Prim.Native.String.{◌++◌}
use cluster_api_provider_vsp.Prelude.{
  String, Bool, true, false, ◌≡◌, refl, ap, ◌↔◌, some, List, [], ◌∷◌, arith, is_empty, is_nil,
  eq_iff, deref, if◌then◌else◌,
}
use mathlib.Core.List
use cluster_api_provider_vsp.Errors.{ok}
use cluster_api_provider_vsp.Exec.{◌>>=◌}
use cluster_api_provider_vsp.Machine.ProviderId.{
  matches_uuid, convert_provider_id_to_uuid, convert_uuid_to_provider_id, provider_id_prefix,
}
use cluster_api_provider_vsp.Machine.RoundTrip.{
  convert_uuid-convert_provider_id, empty-matches, prefix-non_empty,
}
use cluster_api_provider_vsp.VimMachine.{MachineVm, MachineAddress, external_ip, internal_dns}
use cluster_api_provider_vsp.VimMachine.World.{MachineState, change, mark}
use cluster_api_provider_vsp.VimMachine.Service.{
  external_ips, machine_addresses, reconcile_network, reconcile_provider_id, mirror, finish_vm,
}

-- a VSphereVM that the machine is done with
abbrev pub IsDone : MachineVm → Type 0
IsDone vm = (deref vm.ready false ≡ true) × (matches_uuid vm.bios_uuid ≡ true)

choice :
    (is_empty_uuid matches : Bool) (id : String)
    → is_empty id ≡ false
    → (matches ≡ true → is_empty_uuid ≡ false)
    → (is_empty (if is_empty_uuid then "" else (if matches then id else "")) ≡ false)
      ↔ (matches ≡ true)
choice true true id h k = absurd (cc (k refl))
choice true false id h k = (λ e. absurd (cc e), λ e. absurd (cc e))
choice false true id h k = (λ e. refl, λ e. h)
choice false false id h k = (λ e. absurd (cc e), λ e. absurd (cc e))

converts-matches :
    (uuid : String)
    → (is_empty (convert_uuid_to_provider_id uuid) ≡ false) ↔ (matches_uuid uuid ≡ true)
unfolding convert_uuid_to_provider_id
converts-matches uuid =
    choice (is_empty uuid) (matches_uuid uuid) (provider_id_prefix ++ uuid) (prefix-non_empty uuid)
      (empty-matches uuid)

addresses-non_empty :
    (addresses : List String) (name : String)
    → is_nil (List.◌++◌ (external_ips addresses) (internal_dns name ∷ [])) ≡ false
unfolding external_ips
addresses-non_empty [] name = refl
addresses-non_empty (a ∷ rest) name = refl

-- the external addresses of the VSphereVM, in order, and then its name
abbrev pub addresses_of : MachineVm → List MachineAddress
addresses_of vm = List.◌++◌ (List.map external_ip vm.addresses) (internal_dns vm.name ∷ [])

external_ips-map :
    (addresses : List String) → external_ips addresses ≡ List.map external_ip addresses
unfolding external_ips
external_ips-map [] = refl
external_ips-map (a ∷ rest) = ap (λ l. external_ip a ∷ l) (external_ips-map rest)

machine_addresses-addresses_of : (vm : MachineVm) → machine_addresses vm ≡ addresses_of vm
unfolding machine_addresses
machine_addresses-addresses_of vm =
    ap (λ l. List.◌++◌ l (internal_dns vm.name ∷ [])) (external_ips-map vm.addresses)

-- The reconcile of a VSphereMachine's network is always done, without an error, also where the
-- VSphereVM has no address.
pub reconcile_network-never_waits :
    (vm : MachineVm) (s : MachineState) → (reconcile_network vm s).0 ≡ ok true
unfolding reconcile_network machine_addresses change ◌>>=◌
reconcile_network-never_waits vm s = ground (arith, addresses-non_empty vm.addresses vm.name)

-- The steps of ReconcileNormal after the VSphereVM is written ask for no requeue, and return no
-- error, exactly where the VSphereVM is ready and its BIOS UUID has the form of a UUID.
pub finish_vm-IsDone :
    (vm : MachineVm) (s : MachineState) → ((finish_vm vm s).0 ≡ ok false) ↔ IsDone vm
unfolding finish_vm reconcile_provider_id reconcile_network machine_addresses mirror mark change
    ◌>>=◌
finish_vm-IsDone vm s = ground (
  arith,
  addresses-non_empty vm.addresses vm.name,
  converts-matches vm.bios_uuid,
  empty-matches vm.bios_uuid,
)

-- If the VSphereVM is ready and its BIOS UUID has the form of a UUID, then after ReconcileNormal
-- the provider ID of the VSphereMachine converts back to that BIOS UUID, the VSphereMachine is
-- provisioned, and its addresses are those of the VSphereVM, in order, and then its name.
pub finish_vm-provider_id :
    (vm : MachineVm) (s : MachineState)
    → IsDone vm
    → (convert_provider_id_to_uuid (some (finish_vm vm s).1.machine.provider_id) ≡ vm.bios_uuid)
      × ((finish_vm vm s).1.machine.provisioned ≡ some true)
      × ((finish_vm vm s).1.machine.addresses ≡ addresses_of vm)
unfolding finish_vm reconcile_provider_id reconcile_network machine_addresses mirror mark change
    ◌>>=◌
finish_vm-provider_id vm s (r, m) = ground (
  arith,
  r,
  m,
  addresses-non_empty vm.addresses vm.name,
  machine_addresses-addresses_of vm,
  converts-matches vm.bios_uuid,
  empty-matches vm.bios_uuid,
  convert_uuid-convert_provider_id vm.bios_uuid m,
  eq_iff s.machine.provider_id (convert_uuid_to_provider_id vm.bios_uuid),
)
