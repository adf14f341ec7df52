-- ===== src/Cluster/Modules/Unique.antt =====
-- The modules that the reconcile leaves in the spec (controllers/clustermodule_reconciler.go), by the
-- keys of their owners.
use cluster_api_provider_vsp.Prelude.{
  String, if-both, Bool, true, false, ◌||◌, ◌≡◌, refl, Option, none, some, List, [], ◌∷◌, arith,
  str_eq, if◌then◌else◌, lookup, remove, lookup-remove, eq_iff,
}
use mathlib.Core.List
use cluster_api_provider_vsp.Errors.{Error, Outcome, ok, err}
use cluster_api_provider_vsp.Api.{ClusterModule}
use cluster_api_provider_vsp.Cluster.Modules.{
  without, add_module, ModuleCall, Owner, kubeadm_control_plane, machine_deployment, ModuleWorld,
  owner_key, module_key, module_of, append_kcp_key, Progress, verify_module, verify_modules,
  verified, by_owner,
}

-- some module is for the owner with that key
abbrev pub has_module : String → List ClusterModule → Bool
has_module key [] = false
has_module key (m ∷ ms) = if str_eq (module_key m) key then true else has_module key ms

-- no two modules are for the same owner
abbrev pub AreDistinct : List ClusterModule → Type 0
AreDistinct [] = Unit
AreDistinct (m ∷ ms) = (has_module (module_key m) ms ≡ false) × AreDistinct ms

abbrev pub is_some {ℓ} : {A : Type ℓ} → Option A → Bool
is_some none = false
is_some (some a) = true

-- each owner stands under its key
abbrev pub IsKeyed : List (String × Owner) → Type 0
IsKeyed [] = Unit
IsKeyed ((key, o) ∷ rest) = (owner_key o ≡ key) × IsKeyed rest

-- no key stands twice
abbrev pub IsMap : List (String × Owner) → Type 0
IsMap [] = Unit
IsMap ((key, o) ∷ rest) = (is_some (lookup key rest) ≡ false) × IsMap rest

-- a map is read once at each of its keys, in some order
abbrev pub IsArranging : ModuleWorld → Type 0
IsArranging w =
    (objects : List (String × Owner))
    → IsMap objects
    → IsKeyed objects
    → IsMap (w.arrange objects)
      × IsKeyed (w.arrange objects)
      × ((key : String) → lookup key (w.arrange objects) ≡ lookup key objects)

pub key-module_of : (o : Owner) (uuid : String) → module_key (module_of o uuid) ≡ owner_key o
unfolding module_key module_of owner_key append_kcp_key
key-module_of (kubeadm_control_plane name) uuid = refl
key-module_of (machine_deployment name) uuid = refl

pub has_module-append :
    (key : String) (ms : List ClusterModule) (m : ClusterModule)
    → has_module key (List.◌++◌ ms (m ∷ [])) ≡ (has_module key ms || str_eq (module_key m) key)
has_module-append key [] m = ground arith
has_module-append key (n ∷ ns) m = ground (arith, has_module-append key ns m)

pub AreDistinct-append :
    (ms : List ClusterModule) (m : ClusterModule)
    → has_module (module_key m) ms ≡ false
    → AreDistinct ms
    → AreDistinct (List.◌++◌ ms (m ∷ []))
AreDistinct-append [] m h d = (refl, tt)
AreDistinct-append (n ∷ ns) m h (g, d) = (
  ground (
    arith,
    h,
    g,
    has_module-append (module_key n) ns m,
    eq_iff (module_key n) (module_key m),
    eq_iff (module_key m) (module_key n),
  ),
  AreDistinct-append ns m (ground (arith, h)) d,
)

IsKeyed-lookup :
    (objects : List (String × Owner)) (key : String) (o : Owner)
    → IsKeyed objects
    → lookup key objects ≡ some o
    → owner_key o ≡ key
unfolding lookup
IsKeyed-lookup [] key o h g = absurd (cc g)
IsKeyed-lookup ((k, u) ∷ rest) key o (h, hs) g =
    ground (arith, h, g, eq_iff k key, IsKeyed-lookup rest key o hs)

IsKeyed-remove :
    (objects : List (String × Owner)) (key : String)
    → IsKeyed objects
    → IsKeyed (remove key objects)
unfolding remove
IsKeyed-remove [] key h = tt
IsKeyed-remove ((k, u) ∷ rest) key (h, hs) =
    if-both IsKeyed (str_eq k key) (IsKeyed-remove rest key hs) (h, IsKeyed-remove rest key hs)

IsMap-remove :
    (objects : List (String × Owner)) (key : String) → IsMap objects → IsMap (remove key objects)
unfolding remove
IsMap-remove [] key h = tt
IsMap-remove ((k, u) ∷ rest) key (h, hs) =
    if-both IsMap (str_eq k key) (IsMap-remove rest key hs)
      (ground (arith, h, lookup-remove key k rest), IsMap-remove rest key hs)

-- what both loops keep: the owners at the start are those with a module and those left
pub record IsTracked (start : List (String × Owner)) (p : Progress) : Type 0 where
  pub distinct : AreDistinct p.specs
  pub keyed : IsKeyed p.objects
  pub mapped : IsMap p.objects
  pub gone : (key : String) → has_module key p.specs ≡ true → is_some (lookup key p.objects) ≡ false
  pub covered :
      (key : String)
      → is_some (lookup key start) ≡ (has_module key p.specs || is_some (lookup key p.objects))

module _ (start : List (String × Owner)) (p : Progress) (h : IsTracked start p) where
  -- an owner that was left gets its module
  placed :
      (key uuid : String) (o : Owner)
      → lookup key p.objects ≡ some o
      → IsTracked start (without key (add_module (module_of o uuid) p))
  placed key uuid o g = record {
    distinct =
        AreDistinct-append p.specs (module_of o uuid)
          (ground (arith, is_key, g, h.gone key, key-module_of o uuid)) h.distinct;
    keyed = IsKeyed-remove p.objects key h.keyed;
    mapped = IsMap-remove p.objects key h.mapped;
    gone = λ k f. ground (
      arith,
      is_key,
      f,
      h.gone k,
      key-module_of o uuid,
      lookup-remove key k p.objects,
      has_module-append k p.specs (module_of o uuid),
    );
    covered = λ k. ground (
      arith,
      is_key,
      g,
      h.covered k,
      key-module_of o uuid,
      lookup-remove key k p.objects,
      has_module-append k p.specs (module_of o uuid),
      eq_iff key k,
    );
  }
    where
      is_key : owner_key o ≡ key
      is_key = IsKeyed-lookup p.objects key o h.keyed g

  -- the key of no owner is dropped
  dropped : (key : String) → lookup key p.objects ≡ none → IsTracked start (without key p)
  dropped key g = record {
    distinct = h.distinct;
    keyed = IsKeyed-remove p.objects key h.keyed;
    mapped = IsMap-remove p.objects key h.mapped;
    gone = λ k f. ground (arith, f, h.gone k, lookup-remove key k p.objects);
    covered = λ k. ground (arith, g, h.covered k, lookup-remove key k p.objects, eq_iff key k);
  }

  -- the errors and the calls do not matter
  relabelled :
      (es : List Error) (cs : List ModuleCall)
      → IsTracked start (record p { errors = es; calls = cs })
  relabelled es cs = record {
    distinct = h.distinct;
    keyed = h.keyed;
    mapped = h.mapped;
    gone = h.gone;
    covered = h.covered;
  }

module _ (w : ModuleWorld) (start : List (String × Owner)) where
  verified-IsTracked :
      (key uuid : String) (o : Owner) (r : Outcome Bool) (p : Progress)
      → IsTracked start p
      → lookup key p.objects ≡ some o
      → IsTracked start (verified w key o uuid r p)
  verified-IsTracked key uuid o (err e) p h g =
      placed start _ (relabelled start p h _ p.calls) key uuid o g
  verified-IsTracked key uuid o (ok true) p h g = placed start p h key uuid o g
  verified-IsTracked key uuid o (ok false) p h g = h

  by_owner-IsTracked :
      (key uuid : String) (r : Option Owner) (p : Progress)
      → IsTracked start p
      → lookup key p.objects ≡ r
      → IsTracked start (by_owner w key uuid r p)
  by_owner-IsTracked key uuid none p h g = dropped start _ (relabelled start p h p.errors _) key g
  by_owner-IsTracked key uuid (some o) p h g =
      verified-IsTracked key uuid o _ _ (relabelled start p h p.errors _) g

  pub verify_modules-IsTracked :
      (ms : List ClusterModule) (p : Progress)
      → IsTracked start p
      → IsTracked start (verify_modules w ms p)
  unfolding verify_modules verify_module
  verify_modules-IsTracked [] p h = h
  verify_modules-IsTracked (m ∷ ms) p h =
      verify_modules-IsTracked ms _ (by_owner-IsTracked (module_key m) m.module_uuid _ p h refl)
