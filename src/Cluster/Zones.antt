-- ===== src/Cluster/Zones.antt =====
-- The failure domains of a VSphereCluster (controllers/vspherecluster_reconciler.go:
-- reconcileDeploymentZones).
use cluster_api_provider_vsp.Prelude.{
  ℕ, ◌+◌, String, Bool, true, false, Option, none, some, List, [], ◌∷◌, ◌++◌, is_nil, ltb, str_eq,
  if◌then◌else◌,
}
use cluster_api_provider_vsp.Errors.{wrapped}
use cluster_api_provider_vsp.Exec.{pure, lift, wrap, gets, of_error, ◌>>=◌, ◌>>◌}
use cluster_api_provider_vsp.Api.Conditions.{
  ConditionStatus, status_true, status_false, Reason, domains_not_ready, domains_ready, Message,
  no_message, text, ConditionWrite, set, mark_true, mark_false, delete_v1beta1,
  failure_domains_available_v1beta1, waiting_for_failure_domain_status_v1beta1,
  failure_domains_skipped_v1beta1, info, failure_domains_ready,
}
use cluster_api_provider_vsp.Group.Names.{text_le}
use cluster_api_provider_vsp.Cluster.Object.{
  FailureDomainEntry, ZoneObject, ClusterWorld, ClusterAction, list_zones, ask, alter, report,
}

-- the failure domains, and how many zones have not said, or are not, ready
pub record ZoneTally : Type 0 where
  pub failure_domains : List FailureDomainEntry
  pub ready_not_reported : ℕ
  pub not_ready : ℕ

abbrev pub no_zones : ZoneTally
no_zones = record { failure_domains = []; ready_not_reported = 0; not_ready = 0 }

abbrev pub with_zone : ZoneObject → List FailureDomainEntry → List FailureDomainEntry
with_zone z domains = domains ++ (record { name = z.name; control_plane = z.control_plane } ∷ [])

abbrev pub by_ready : ZoneObject → Option Bool → ZoneTally → ZoneTally
by_ready z none t = record t {
  failure_domains = with_zone z t.failure_domains;
  ready_not_reported = t.ready_not_reported + 1;
}
by_ready z (some true) t = record t { failure_domains = with_zone z t.failure_domains }
by_ready z (some false) t = record t { not_ready = t.not_ready + 1 }

abbrev pub note_zone : String → ZoneObject → ZoneTally → ZoneTally
note_zone server z t = if str_eq z.server server then by_ready z z.ready t else t

unfoldable pub tally_zones : String → List ZoneObject → ZoneTally → ZoneTally
tally_zones server [] t = t
tally_zones server (z ∷ zs) t = tally_zones server zs (note_zone server z t)

unfoldable pub insert_domain :
    FailureDomainEntry → List FailureDomainEntry → List FailureDomainEntry
unfolding text_le
insert_domain d [] = d ∷ []
insert_domain d (e ∷ es) =
    let rest = insert_domain d es in if text_le d.name e.name then d ∷ e ∷ es else e ∷ rest

-- `slices.SortFunc` by the names, which differ
unfoldable pub sort_domains : List FailureDomainEntry → List FailureDomainEntry
unfolding insert_domain
sort_domains [] = []
sort_domains (d ∷ ds) = insert_domain d (sort_domains ds)

abbrev pub domains_condition : ConditionStatus → Reason → Message → ConditionWrite
domains_condition s r m =
    set (record { type = failure_domains_ready; status = s; reason = r; message = m })

-- the conditions that a tally leads to, and whether to go on
unfoldable pub zone_writes : ZoneTally → List ConditionWrite
zone_writes t =
    if ltb 0 t.ready_not_reported
    then mark_false failure_domains_available_v1beta1 waiting_for_failure_domain_status_v1beta1 info
        (text "waiting for failure domains to report ready status")
      ∷ domains_condition status_false domains_not_ready
          (text "Waiting for failure domains to report ready status")
      ∷ []
    else (if is_nil t.failure_domains
        then delete_v1beta1 failure_domains_available_v1beta1 ∷ []
        else (if ltb 0 t.not_ready
            then mark_false failure_domains_available_v1beta1 failure_domains_skipped_v1beta1 info
                (text "one or more failure domains are not ready")
              ∷ domains_condition status_false domains_not_ready
                  (text "One or more failure domains are not ready")
              ∷ []
            else mark_true failure_domains_available_v1beta1
              ∷ domains_condition status_true domains_ready no_message
              ∷ []))

unfoldable pub report_zones : ZoneTally → ClusterAction Bool
unfolding alter report zone_writes ◌>>=◌
report_zones t = do
  alter (λ c. record c { failure_domains = sort_domains t.failure_domains })
  report (zone_writes t)
  pure (if ltb 0 t.ready_not_reported then false else true)

module _ (w : ClusterWorld) where
  abbrev pub by_selector : String → Option String → ClusterAction Bool
  by_selector server none = pure true
  by_selector server (some selector) = do
    wrap (wrapped "zone label selector is misconfigured")
        (lift (of_error (w.selector_error selector)))
    zones ←
        wrap (wrapped "unable to list VSphereDeploymentZones")
          (ask (list_zones selector) (λ calls. w.list_zones calls selector))
    report_zones (tally_zones server zones no_zones)

  -- whether to go on
  unfoldable pub reconcile_deployment_zones : ClusterAction Bool
  unfolding ask report_zones tally_zones sort_domains
  reconcile_deployment_zones = do
    cluster ← gets (λ s. s.cluster)
    by_selector cluster.server cluster.failure_domain_selector
