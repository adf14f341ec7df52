-- ===== src/Cluster/Modules/Owners.antt =====
-- Which owners have a module after the reconcile of the cluster modules, and which errors it returns
-- (controllers/clustermodule_reconciler.go).
use cluster_api_provider_vsp.Prelude.{
  String, Bool, true, false, ◌||◌, not, ◌≡◌, refl, List, [], ◌∷◌, arith, is_empty, if◌then◌else◌,
  lookup, eq_iff,
}
use cluster_api_provider_vsp.Errors.{Error, Outcome, ok, err}
use cluster_api_provider_vsp.Api.{ClusterModule}
use cluster_api_provider_vsp.Cluster.Modules.{
  Owner, ModuleWorld, ModuleCall, module_of, Progress, add_module, verify_modules, create_module,
  create_modules, created_module, reconcile_modules,
}
use cluster_api_provider_vsp.Cluster.Modules.Unique.{
  has_module, AreDistinct, is_some, IsKeyed, IsMap, IsArranging, key-module_of, has_module-append,
  AreDistinct-append, IsTracked, verify_modules-IsTracked,
}

-- what the second loop keeps, with the owners that it still comes to
record IsLeft (start rest : List (String × Owner)) (p : Progress) : Type 0 where
  distinct : AreDistinct p.specs
  keyed : IsKeyed rest
  mapped : IsMap rest
  gone : (key : String) → has_module key p.specs ≡ true → is_some (lookup key rest) ≡ false
  owned :
      (key : String)
      → (has_module key p.specs || is_some (lookup key rest)) ≡ true
      → is_some (lookup key start) ≡ true

-- the creation answers a module
abbrev pub is_created : Outcome String → Bool
is_created (ok uuid) = not (is_empty uuid)
is_created (err e) = false

module _ (start rest : List (String × Owner)) (key : String) (o : Owner) (p : Progress) where
  skipped :
      (es : List Error) (cs : List ModuleCall)
      → IsLeft start ((key, o) ∷ rest) p
      → IsLeft start rest (record p { errors = es; calls = cs })
  unfolding lookup
  skipped es cs h = record {
    distinct = h.distinct;
    keyed = h.keyed.1;
    mapped = h.mapped.1;
    gone = λ k f. ground (arith, h.gone k f);
    owned = λ k f. ground (arith, f, h.owned k, h.mapped.0, eq_iff key k);
  }

  made :
      (uuid : String)
      → IsLeft start ((key, o) ∷ rest) p
      → IsLeft start rest (add_module (module_of o uuid) p)
  unfolding lookup
  made uuid h = record {
    distinct =
        AreDistinct-append p.specs (module_of o uuid)
          (ground (arith, h.keyed.0, h.gone key, key-module_of o uuid, eq_iff key key)) h.distinct;
    keyed = h.keyed.1;
    mapped = h.mapped.1;
    gone = λ k f. ground (
      arith,
      f,
      h.gone k,
      h.mapped.0,
      h.keyed.0,
      key-module_of o uuid,
      eq_iff key k,
      has_module-append k p.specs (module_of o uuid),
    );
    owned = λ k f. ground (
      arith,
      f,
      h.owned k,
      h.keyed.0,
      key-module_of o uuid,
      eq_iff key k,
      has_module-append k p.specs (module_of o uuid),
    );
  }

module _ (w : ModuleWorld) (start : List (String × Owner)) where
  created-IsLeft :
      (rest : List (String × Owner)) (key : String) (o : Owner) (r : Outcome String) (p : Progress)
      → IsLeft start ((key, o) ∷ rest) p
      → IsLeft start rest (created_module w o r p)
  created-IsLeft rest key o (err e) p h = skipped start rest key o p _ p.calls h
  created-IsLeft rest key o (ok uuid) p h = by_uuid (is_empty uuid)
    where
      by_uuid : (b : Bool) → IsLeft start rest (if b then p else add_module (module_of o uuid) p)
      by_uuid true = skipped start rest key o p p.errors p.calls h
      by_uuid false = made start rest key o p uuid h

  create_modules-IsLeft :
      (rest : List (String × Owner)) (p : Progress)
      → IsLeft start rest p
      → IsLeft start [] (create_modules w rest p)
  unfolding create_modules create_module
  create_modules-IsLeft [] p h = h
  create_modules-IsLeft ((key, o) ∷ rest) p h =
      create_modules-IsLeft rest _ (created-IsLeft rest key o _ _ (relabel p h))
    where
      relabel :
          (p : Progress)
          → IsLeft start ((key, o) ∷ rest) p
          → IsLeft start ((key, o) ∷ rest) (record p { calls = ModuleCall.create o ∷ p.calls })
      relabel p h = record {
        distinct = h.distinct;
        keyed = h.keyed;
        mapped = h.mapped;
        gone = h.gone;
        owned = h.owned;
      }

  -- with every creation, no owner is left out
  create_modules-covers :
      ((calls : List ModuleCall) (o : Owner) → is_created (w.create calls o) ≡ true)
      → (rest : List (String × Owner)) (p : Progress) (k : String) → IsKeyed rest
      → (has_module k p.specs || is_some (lookup k rest)) ≡ true
      → has_module k (create_modules w rest p).specs ≡ true
  unfolding create_modules create_module lookup
  create_modules-covers creates [] p k hk h = ground (arith, h)
  create_modules-covers creates ((key, o) ∷ rest) p k (g, gs) h =
      create_modules-covers creates rest _ k gs (by_answer (w.create p.calls o) (creates p.calls o))
    where
      by_answer :
          (r : Outcome String)
          → is_created r ≡ true
          → (has_module k
                (created_module w o r (record p { calls = ModuleCall.create o ∷ p.calls })).specs
              || is_some (lookup k rest))
            ≡ true
      by_answer (err e) f = absurd (cc f)
      by_answer (ok uuid) f = ground (
        arith,
        f,
        g,
        h,
        key-module_of o uuid,
        eq_iff key k,
        has_module-append k p.specs (module_of o uuid),
      )

  started :
      IsMap start
      → IsKeyed start
      → IsTracked start (record { objects = start; specs = []; errors = []; calls = [] })
  started m k = record {
    distinct = tt;
    keyed = k;
    mapped = m;
    gone = λ key h. absurd (cc h);
    covered = λ key. refl;
  }

  module _ (arranging : IsArranging w) (ms : List ClusterModule) where
    abbrev verified_all : Progress
    verified_all =
        verify_modules w ms (record { objects = start; specs = []; errors = []; calls = [] })

    left : IsMap start → IsKeyed start → IsLeft start (w.arrange verified_all.objects) verified_all
    left m k = record {
      distinct = h.distinct;
      keyed = a.1;
      mapped = a.0;
      gone = λ key f. rw (a.2 key) (h.gone key f);
      owned = λ key f. ground (arith, f, a.2 key, h.covered key);
    }
      where
        h : IsTracked start verified_all
        h = verify_modules-IsTracked w start ms _ (started m k)

        a :
            IsMap (w.arrange verified_all.objects)
            × IsKeyed (w.arrange verified_all.objects)
            × ((key : String)
                → lookup key (w.arrange verified_all.objects) ≡ lookup key verified_all.objects)
        a = arranging verified_all.objects h.mapped h.keyed

    pub reconcile_modules-AreDistinct :
        IsMap start
        → IsKeyed start
        → AreDistinct (reconcile_modules w start ms).specs
          × ((key : String)
              → has_module key (reconcile_modules w start ms).specs ≡ true
              → is_some (lookup key start) ≡ true)
    unfolding reconcile_modules
    reconcile_modules-AreDistinct m k = (h.distinct, λ key f. h.owned key (ground (arith, f)))
      where
        h : IsLeft start [] (create_modules w (w.arrange verified_all.objects) verified_all)
        h = create_modules-IsLeft _ _ (left m k)

    -- If a map is read once at each of its keys in any order, the owners stand under their keys
    -- with no key twice, and every creation answers a module, then after both loops each of the
    -- owners has a module, whatever the checks and removals answer.
    pub reconcile_modules-covers :
        ((calls : List ModuleCall) (o : Owner) → is_created (w.create calls o) ≡ true)
        → IsMap start
        → IsKeyed start
        → (key : String) → is_some (lookup key start) ≡ true
        → has_module key (reconcile_modules w start ms).specs ≡ true
    unfolding reconcile_modules
    reconcile_modules-covers creates m k key f =
        create_modules-covers creates _ _ key l.keyed (
          ground (arith, f, h.covered key, (arranging verified_all.objects h.mapped h.keyed).2 key))
      where
        h : IsTracked start verified_all
        h = verify_modules-IsTracked w start ms _ (started m k)

        l : IsLeft start (w.arrange verified_all.objects) verified_all
        l = left m k
