-- ===== src/Cluster/Modules/Fetch.antt =====
-- The owners that the reconcile of the cluster modules fetches, the modules that it leaves in the spec,
-- and the errors that it returns (controllers/clustermodule_reconciler.go).
use mathlib.Core.Path.{subst}
use cluster_api_provider_vsp.Prelude.{
  if-both, Bool-cases, inl, inr, String, Bool, true, false, ◌&&◌, ◌≡◌, ◌↔◌, refl, Option, none,
  some, List, [], ◌∷◌, arith, str_eq, if◌then◌else◌, length, lookup, insert, lookup-insert, eq_iff,
  ltb, ◌==◌, ◌≤◌,
}
use cluster_api_provider_vsp.Errors.{errorf, Error, Outcome, ok, err, is_incompatible_owner_error}
use cluster_api_provider_vsp.Cluster.Modules.{
  Owner, kubeadm_control_plane, machine_deployment, OwnerObject, ModuleWorld, owner_key, Progress,
  add_owners, fetch_machine_owner_objects, reconcile_modules, with_control_planes,
  with_machine_deployments,
}
use cluster_api_provider_vsp.Cluster.Reconcile.{
  incompatible_owner_errors, report_modules, ClusterInput, ModulesResult, is_cluster_compatible,
  reconcile_cluster_modules,
}
use cluster_api_provider_vsp.Cluster.Modules.Unique.{
  has_module, AreDistinct, is_some, IsKeyed, IsMap, IsArranging,
}
use cluster_api_provider_vsp.Cluster.Modules.Owners.{reconcile_modules-AreDistinct}

-- every error is of an owner outside a compute cluster
abbrev pub all_incompatible : List Error → Bool
all_incompatible [] = true
all_incompatible (e ∷ es) = is_incompatible_owner_error e && all_incompatible es

length-incompatible :
    (es : List Error)
    → (length (incompatible_owner_errors es) ≤ length es)
      × ((length (incompatible_owner_errors es) == length es) ≡ all_incompatible es)
unfolding incompatible_owner_errors
length-incompatible [] = (omega arith, refl)
length-incompatible (e ∷ es) = ground (arith, length-incompatible es)

-- The reconcile of the cluster modules returns no error after its loops exactly where each error of
-- the loops, if any, is of an owner outside a compute cluster.
pub report_modules-all_incompatible :
    (p : Progress) → ((report_modules p).outcome ≡ ok tt) ↔ (all_incompatible p.errors ≡ true)
unfolding report_modules
report_modules-all_incompatible p = by_errors p.errors (length-incompatible p.errors)
  where
    by_errors :
        (es : List Error)
        → (length (incompatible_owner_errors es) ≤ length es)
          × ((length (incompatible_owner_errors es) == length es) ≡ all_incompatible es)
        → ((report_modules (record p { errors = es })).outcome ≡ ok tt)
          ↔ (all_incompatible es ≡ true)
    by_errors [] l = ground arith
    by_errors (e ∷ es) l = ground (arith, l)

IsKeyed-insert :
    (objects : List (String × Owner)) (o : Owner)
    → IsKeyed objects
    → IsKeyed (insert (owner_key o) o objects)
unfolding insert
IsKeyed-insert [] o h = (refl, tt)
IsKeyed-insert ((k, u) ∷ rest) o (h, hs) =
    if-both IsKeyed (str_eq k (owner_key o)) (refl, hs) (h, IsKeyed-insert rest o hs)

IsMap-insert :
    (objects : List (String × Owner)) (key : String) (o : Owner)
    → IsMap objects
    → IsMap (insert key o objects)
unfolding insert lookup
IsMap-insert [] key o h = (refl, tt)
IsMap-insert ((k, u) ∷ rest) key o (h, hs) = elim (Bool-cases (str_eq k key)) [
  | inl e ↦ rw e (ground (arith, e, h, eq_iff k key), hs)
  | inr e ↦ rw e (
    ground (arith, e, h, lookup-insert key k o rest, eq_iff k key, eq_iff key k),
    IsMap-insert rest key o hs,
  )
]

add_owners-IsMap :
    (wrap_owner : String → Owner) (os : List OwnerObject) (objects : List (String × Owner))
    → IsMap objects × IsKeyed objects
    → IsMap (add_owners wrap_owner os objects) × IsKeyed (add_owners wrap_owner os objects)
unfolding add_owners
add_owners-IsMap wrap_owner [] objects h = h
add_owners-IsMap wrap_owner (o ∷ os) objects (m, k) =
    if-both (λ x. IsMap x × IsKeyed x) o.is_deleted (add_owners-IsMap wrap_owner os objects (m, k))
      (add_owners-IsMap wrap_owner os _ (
        IsMap-insert objects _ (wrap_owner o.name) m,
        IsKeyed-insert objects (wrap_owner o.name) k,
      ))

abbrev IsOwners : Outcome (List (String × Owner)) → Type 0
IsOwners (err e) = Unit
IsOwners (ok objects) = IsMap objects × IsKeyed objects

fetch-IsOwners :
    (w : ModuleWorld) (label : Option String) → IsOwners (fetch_machine_owner_objects w label)
unfolding fetch_machine_owner_objects
fetch-IsOwners w none = tt
fetch-IsOwners w (some name) = by_lists (w.control_planes name) (w.machine_deployments name)
  where
    by_lists : (kcps mds : Outcome (List OwnerObject)) → IsOwners (with_control_planes kcps mds)
    by_lists (err e) mds = tt
    by_lists (ok kcps) mds = by_number (ltb 1 (length kcps)) mds
      where
        by_number :
            (b : Bool) (mds : Outcome (List OwnerObject))
            → IsOwners (
                if b
                then err (errorf "multiple KubeadmControlPlane objects found, expected 1, found %d")
                else with_machine_deployments (add_owners kubeadm_control_plane kcps []) mds)
        by_number true mds = tt
        by_number false (err e) = tt
        by_number false (ok mds) =
            add_owners-IsMap machine_deployment mds _
              (add_owners-IsMap kubeadm_control_plane kcps [] (tt, tt))

pub fetch-IsMap :
    (w : ModuleWorld) (label : Option String) (objects : List (String × Owner))
    → fetch_machine_owner_objects w label ≡ ok objects
    → IsMap objects × IsKeyed objects
fetch-IsMap w label objects h = subst IsOwners h (fetch-IsOwners w label)

-- If a map is read once at each of its keys in any order, the vCenter version supports cluster
-- modules, and the owners are fetched without an error, then the reconcile of the cluster modules
-- leaves at most one module for each owner key, and modules for keys of fetched owners alone,
-- whatever the service answers.
pub reconcile_cluster_modules-AreDistinct :
    (w : ModuleWorld) (input : ClusterInput) (objects : List (String × Owner))
    → IsArranging w
    → is_cluster_compatible w input.vcenter_version ≡ true
    → fetch_machine_owner_objects w input.cluster_name ≡ ok objects
    → AreDistinct (reconcile_cluster_modules w input).cluster_modules
      × ((key : String)
          → has_module key (reconcile_cluster_modules w input).cluster_modules ≡ true
          → is_some (lookup key objects) ≡ true)
unfolding reconcile_cluster_modules report_modules
reconcile_cluster_modules-AreDistinct w input objects arranging c f =
    rw (c, f)
      (if-both
        (λ (r : ModulesResult).
          AreDistinct r.cluster_modules
          × ((key : String)
              → has_module key r.cluster_modules ≡ true
              → is_some (lookup key objects) ≡ true))
        (ltb 0 (length (reconcile_modules w objects input.cluster_modules).errors)) specs specs)
  where
    owners : IsMap objects × IsKeyed objects
    owners = fetch-IsMap w input.cluster_name objects f

    specs :
        AreDistinct (reconcile_modules w objects input.cluster_modules).specs
        × ((key : String)
            → has_module key (reconcile_modules w objects input.cluster_modules).specs ≡ true
            → is_some (lookup key objects) ≡ true)
    specs =
        reconcile_modules-AreDistinct w objects arranging input.cluster_modules owners.0 owners.1
