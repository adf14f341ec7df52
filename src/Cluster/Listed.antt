-- ===== src/Cluster/Listed.antt =====
-- What the failure domains of a VSphereCluster are (controllers/vspherecluster_reconciler.go:
-- reconcileDeploymentZones).
use mathlib.Core.Path.{subst}
use cluster_api_provider_vsp.Prelude.{
  String, Bool, true, false, ◌&&◌, ◌≡◌, refl, sym, ◌∙◌, ap, Option, none, some, List, [], ◌∷◌, ◌++◌,
  arith, ltb, str_eq, if◌then◌else◌,
}
use cluster_api_provider_vsp.Errors.{ok}
use cluster_api_provider_vsp.Exec.{◌>>=◌}
use cluster_api_provider_vsp.Group.Names.{insert_sorted, sorted, has}
use cluster_api_provider_vsp.Group.Order.{AreUnique, AreOrdered, sorted-AreOrdered, has-sorted}
use cluster_api_provider_vsp.Cluster.Object.{
  FailureDomainEntry, ZoneObject, ClusterWorld, ClusterState, ask, alter, report,
}
use cluster_api_provider_vsp.Cluster.Zones.{
  ZoneTally, no_zones, note_zone, tally_zones, insert_domain, sort_domains, report_zones,
  reconcile_deployment_zones,
}

abbrev pub domain_names : List FailureDomainEntry → List String
domain_names [] = []
domain_names (d ∷ ds) = d.name ∷ domain_names ds

-- ready, or not known to be unready
abbrev pub may_be_ready : Option Bool → Bool
may_be_ready none = true
may_be_ready (some ready) = ready

abbrev pub has_reported : Option Bool → Bool
has_reported none = false
has_reported (some ready) = true

-- the names of the server's zones that are not known to be unready
unfoldable pub usable_zones : String → List ZoneObject → List String
usable_zones server [] = []
usable_zones server (z ∷ zs) =
    let rest = usable_zones server zs in
    if str_eq z.server server && may_be_ready z.ready then z.name ∷ rest else rest

-- each zone of the server has said whether it is ready
unfoldable pub all_reported : String → List ZoneObject → Bool
all_reported server [] = true
all_reported server (z ∷ zs) =
    let rest = all_reported server zs in
    if str_eq z.server server then has_reported z.ready && rest else rest

insert_domain-insert_sorted :
    (d : FailureDomainEntry) (ds : List FailureDomainEntry)
    → domain_names (insert_domain d ds) ≡ insert_sorted d.name (domain_names ds)
unfolding insert_domain insert_sorted
insert_domain-insert_sorted d [] = refl
insert_domain-insert_sorted d (e ∷ es) = ground (arith, insert_domain-insert_sorted d es)

sort_domains-sorted :
    (ds : List FailureDomainEntry) → domain_names (sort_domains ds) ≡ sorted (domain_names ds)
unfolding sort_domains sorted
sort_domains-sorted [] = refl
sort_domains-sorted (d ∷ ds) =
    insert_domain-insert_sorted d (sort_domains ds)
    ∙ ap (insert_sorted d.name) (sort_domains-sorted ds)

domain_names-append :
    (ds es : List FailureDomainEntry) → domain_names (ds ++ es) ≡ domain_names ds ++ domain_names es
domain_names-append [] es = refl
domain_names-append (d ∷ ds) es = ap (λ names. d.name ∷ names) (domain_names-append ds es)

append_assoc : (xs ys zs : List String) → (xs ++ ys) ++ zs ≡ xs ++ (ys ++ zs)
append_assoc [] ys zs = refl
append_assoc (x ∷ xs) ys zs = ap (λ names. x ∷ names) (append_assoc xs ys zs)

append_nil : (xs : List String) → xs ++ [] ≡ xs
append_nil [] = refl
append_nil (x ∷ xs) = ap (λ names. x ∷ names) (append_nil xs)

-- what one zone adds
abbrev usable_zone : String → ZoneObject → List String
usable_zone server z = if str_eq z.server server && may_be_ready z.ready then z.name ∷ [] else []

note_zone-names :
    (server : String) (z : ZoneObject) (t : ZoneTally)
    → domain_names (note_zone server z t).failure_domains
      ≡ domain_names t.failure_domains ++ usable_zone server z
note_zone-names server z t = ground (
  arith,
  domain_names-append t.failure_domains
      (record { name = z.name; control_plane = z.control_plane } ∷ []),
  append_nil (domain_names t.failure_domains),
)

usable_zones-cons :
    (server : String) (z : ZoneObject) (zs : List ZoneObject)
    → usable_zone server z ++ usable_zones server zs ≡ usable_zones server (z ∷ zs)
unfolding usable_zones
usable_zones-cons server z zs = ground arith

usable_zones-nil : (server : String) (names : List String) → names ≡ names ++ usable_zones server []
unfolding usable_zones
usable_zones-nil server names = sym (append_nil names)

tally_zones-names :
    (server : String) (zs : List ZoneObject) (t : ZoneTally)
    → domain_names (tally_zones server zs t).failure_domains
      ≡ domain_names t.failure_domains ++ usable_zones server zs
unfolding tally_zones
tally_zones-names server [] t = usable_zones-nil server (domain_names t.failure_domains)
tally_zones-names server (z ∷ zs) t =
    tally_zones-names server zs (note_zone server z t)
    ∙ ap (λ names. names ++ usable_zones server zs) (note_zone-names server z t)
    ∙ append_assoc (domain_names t.failure_domains) (usable_zone server z) (usable_zones server zs)
    ∙ ap (λ names. domain_names t.failure_domains ++ names) (usable_zones-cons server z zs)

tally_zones-reported :
    (server : String) (zs : List ZoneObject) (t : ZoneTally)
    → ltb 0 (tally_zones server zs t).ready_not_reported ≡ (
        if ltb 0 t.ready_not_reported
        then true
        else (if all_reported server zs then false else true))
unfolding tally_zones all_reported
tally_zones-reported server [] t = ground arith
tally_zones-reported server (z ∷ zs) t =
    ground (arith, tally_zones-reported server zs (note_zone server z t))

module _ (w : ClusterWorld) where
  -- the tally that a reconcile takes
  abbrev tally_of : ClusterState → List ZoneObject → ZoneTally
  tally_of s zones = tally_zones s.cluster.server zones no_zones

  reconcile_deployment_zones-tally :
      (s : ClusterState) (selector : String) (zones : List ZoneObject)
      → s.cluster.failure_domain_selector ≡ some selector
      → w.selector_error selector ≡ none
      → w.list_zones s.calls selector ≡ ok zones
      → ((reconcile_deployment_zones w s).1.cluster.failure_domains
          ≡ sort_domains (tally_of s zones).failure_domains)
        × ((reconcile_deployment_zones w s).0
            ≡ ok (if ltb 0 (tally_of s zones).ready_not_reported then false else true))
  unfolding reconcile_deployment_zones ask report_zones alter report ◌>>=◌
  reconcile_deployment_zones-tally s selector zones h k l = ground (arith, h, k, l)

  -- If the VSphereCluster has a selector of failure domains that is valid, the zones are listed,
  -- and no two usable zones of its server have one name, then after reconcileDeploymentZones the
  -- names of its failure domains are in order without repetition and are exactly the names of the
  -- zones of its server that are not known to be unready, and the answer is whether each of its
  -- server's zones has said whether it is ready.
  pub reconcile_deployment_zones-listed :
      (s : ClusterState) (selector : String) (zones : List ZoneObject)
      → s.cluster.failure_domain_selector ≡ some selector
      → w.selector_error selector ≡ none
      → w.list_zones s.calls selector ≡ ok zones
      → AreUnique (usable_zones s.cluster.server zones)
      → AreOrdered (domain_names (reconcile_deployment_zones w s).1.cluster.failure_domains)
        × ((name : String)
            → has name (domain_names (reconcile_deployment_zones w s).1.cluster.failure_domains)
              ≡ has name (usable_zones s.cluster.server zones))
        × ((reconcile_deployment_zones w s).0 ≡ ok (all_reported s.cluster.server zones))
  reconcile_deployment_zones-listed s selector zones h k l u =
      let (domains, answer) = reconcile_deployment_zones-tally s selector zones h k l in
      let names =
        ap domain_names domains
        ∙ sort_domains-sorted (tally_of s zones).failure_domains
        ∙ ap sorted (tally_zones-names s.cluster.server zones no_zones) in
      (
        subst AreOrdered (sym names) (sorted-AreOrdered (usable_zones s.cluster.server zones) u),
        (λ name. ap (has name) names ∙ has-sorted name (usable_zones s.cluster.server zones)),
        answer ∙ ap ok (ground (arith, tally_zones-reported s.cluster.server zones no_zones)),
      )
