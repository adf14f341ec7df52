-- ===== src/Errors.antt =====
-- The errors of the Go code, and results that may be one (pkg/services/govmomi/errors.go).
-- An error text made by a format string is named by that format; its arguments are not kept.
use cluster_api_provider_vsp.Prelude.{String, Bool, true, false, not, ◌&&◌, is_empty}

-- What a called library's error is, as far as the code tells these apart.
pub data LibraryKind : Type 0 where
  -- `*find.NotFoundError` of the inventory finder
  find_not_found : LibraryKind
  -- `apierrors.IsNotFound`
  api_not_found : LibraryKind
  -- `rest.IsStatusError(err, http.StatusNotFound)`
  rest_not_found : LibraryKind
  -- `clustercache.ErrClusterNotConnected`
  cluster_not_connected : LibraryKind
  other_kind : LibraryKind

pub data Error : Type 0 where
  library : LibraryKind → String → Error
  -- `errNotFound{uuid, byInventoryPath}`
  vm_not_found : (uuid : String) → (by_inventory_path : String) → Error
  -- `ipam.ErrWaitingForIPAddr`
  waiting_for_ip_addr : Error
  -- `clustermodule.IncompatibleOwnerError`
  incompatible_owner : String → Error
  -- `pkgerrors.New`, `pkgerrors.Errorf`
  errorf : String → Error
  -- `pkgerrors.Wrap`, `pkgerrors.Wrapf`
  wrapped : String → Error → Error
  -- a nil pointer is read, which controller-runtime turns into an error of the reconcile
  nil_pointer : Error
  -- a slice of a text beyond its end, likewise
  out_of_range : Error
  -- `kerrors.NewAggregate`, one error after another
  aggregate : Error → Error
  aggregate_next : Error → Error → Error

pub data Outcome {ℓ} (A : Type ℓ) : Type ℓ where
  ok : A → Outcome A
  err : Error → Outcome A

-- A type switch, which does not look under a wrapping.
unfoldable pub is_not_found : Error → Bool
is_not_found (vm_not_found _ _) = true
is_not_found _ = false

unfoldable pub is_folder_not_found : Error → Bool
is_folder_not_found (library find_not_found _) = true
is_folder_not_found _ = false

unfoldable pub is_virtual_machine_not_found : Error → Bool
is_virtual_machine_not_found (library find_not_found _) = true
is_virtual_machine_not_found _ = false

unfoldable pub was_not_found_by_bios_uuid : Error → Bool
was_not_found_by_bios_uuid (vm_not_found uuid by_inventory_path) =
    not (is_empty uuid) && is_empty by_inventory_path
was_not_found_by_bios_uuid _ = false

-- `apierrors.IsNotFound` looks under wrappings.
unfoldable pub is_api_not_found : Error → Bool
is_api_not_found (library api_not_found _) = true
is_api_not_found (wrapped _ e) = is_api_not_found e
is_api_not_found _ = false

unfoldable pub is_rest_not_found : Error → Bool
is_rest_not_found (library rest_not_found _) = true
is_rest_not_found _ = false

-- `pkgerrors.Is(err, ipam.ErrWaitingForIPAddr)`
unfoldable pub is_waiting_for_ip_addr : Error → Bool
is_waiting_for_ip_addr waiting_for_ip_addr = true
is_waiting_for_ip_addr (wrapped _ e) = is_waiting_for_ip_addr e
is_waiting_for_ip_addr _ = false

-- `pkgerrors.Is(err, clustercache.ErrClusterNotConnected)`
unfoldable pub is_cluster_not_connected : Error → Bool
is_cluster_not_connected (library cluster_not_connected _) = true
is_cluster_not_connected (wrapped _ e) = is_cluster_not_connected e
is_cluster_not_connected _ = false

-- `clustermodule.IsIncompatibleOwnerError`: the text ends like that of an IncompatibleOwnerError,
-- as the text of a wrapping does where that of the wrapped error does
unfoldable pub is_incompatible_owner_error : Error → Bool
is_incompatible_owner_error (incompatible_owner _) = true
is_incompatible_owner_error (wrapped _ e) = is_incompatible_owner_error e
is_incompatible_owner_error _ = false
