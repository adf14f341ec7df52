-- ===== src/Vm/Find.antt =====
-- `findVM` (pkg/services/govmomi/util.go).
use cluster_api_provider_vsp.Prelude.{String, Option, none, some, is_empty, if◌then◌else◌}
use cluster_api_provider_vsp.Errors.{Outcome, ok, err, vm_not_found, is_virtual_machine_not_found}
use cluster_api_provider_vsp.Exec.{pure, fail, gets, attempt, ◌>>=◌}
use cluster_api_provider_vsp.World.{World, MoRef, Call}
use cluster_api_provider_vsp.InventoryPath.{path_join}
use cluster_api_provider_vsp.Vm.Context.{Action, try}

abbrev pub found_by_bios_uuid : String → Option MoRef → Action MoRef
found_by_bios_uuid uuid none = fail (vm_not_found uuid "")
found_by_bios_uuid uuid (some ref) = pure ref

abbrev pub found_by_path : String → Outcome MoRef → Action MoRef
found_by_path path (ok ref) = pure ref
found_by_path path (err e) =
    if is_virtual_machine_not_found e then fail (vm_not_found "" path) else fail e

module _ (w : World) where
  unfoldable pub find_by_path : Action MoRef
  find_by_path = do
    folder ← gets (λ s. s.vsphere_vm.spec.folder)
    folder_path ← try (Call.folder_or_default folder) (λ tr. w.folder_or_default tr folder)
    name ← gets (λ s. s.vsphere_vm.name)
    let path = path_join folder_path name
    attempt (try (Call.find_virtual_machine path) (λ tr. w.find_virtual_machine tr path))
        (found_by_path path)

  abbrev pub or_by_path : Option MoRef → Action MoRef
  or_by_path none = find_by_path
  or_by_path (some ref) = pure ref

  unfoldable pub find_by_uid : Action MoRef
  unfolding find_by_path
  find_by_uid = do
    uid ← gets (λ s. s.vsphere_vm.uid)
    found ← try (Call.find_by_instance_uuid uid) (λ tr. w.find_by_instance_uuid tr uid)
    or_by_path found

  unfoldable pub find_vm : Action MoRef
  unfolding find_by_uid
  find_vm = do
    uuid ← gets (λ s. s.vsphere_vm.spec.bios_uuid)
    if is_empty uuid then find_by_uid else do
      found ← try (Call.find_by_bios_uuid uuid) (λ tr. w.find_by_bios_uuid tr uuid)
      found_by_bios_uuid uuid found
