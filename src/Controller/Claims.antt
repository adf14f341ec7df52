-- ===== src/Controller/Claims.antt =====
-- The IPAddressClaims of a VSphereVM (controllers/vspherevm_ipaddress_reconciler.go,
-- pkg/util/ipaddress_claim.go).
pub mod Counts
use Prim.Native.String.{◌++◌}
use cluster_api_provider_vsp.Prelude.{
  ℕ, suc, ◌+◌, ◌-◌, String, Bool, true, false, not, ◌&&◌, Option, none, some, List, [], ◌∷◌,
  is_empty, is_nil, ltb, ◌==◌, if◌then◌else◌,
}
use mathlib.Core.List
use cluster_api_provider_vsp.Errors.{
  Error, Outcome, ok, err, wrapped, aggregate, aggregate_next, is_api_not_found,
}
use cluster_api_provider_vsp.Exec.{pure, fail, wrap, gets, attempt, ◌>>=◌, ◌>>◌}
use cluster_api_provider_vsp.Api.{IpPoolReference, NetworkDeviceSpec}
use cluster_api_provider_vsp.Api.Conditions.{
  ConditionType, ConditionStatus, V1Beta1Reason, Severity, Reason, Message,
  ip_address_claimed_v1beta1, ip_address_claim_not_found_v1beta1,
  ip_address_claims_being_created_v1beta1, waiting_for_ip_address_v1beta1, status_true,
  status_false, claims_not_fulfilled, claims_fulfilled, claims_being_created,
  claims_waiting_for_ip_address, info, severe, no_message, text, error_text, mark_true, mark_false,
  set_aggregate, set_aggregate_v1beta1,
}
use cluster_api_provider_vsp.World.{
  World, IpAddressClaim, OperationResult, created, updated, unchanged, Call, get_claim,
  write_condition,
}
use cluster_api_provider_vsp.Decimal.{decimal}
use cluster_api_provider_vsp.Vm.Context.{Context, Action, try, perform, write, set_condition}

-- `IPAddressClaimName`: "%s-%d-%d"
unfoldable pub ip_address_claim_name : String → ℕ → ℕ → String
ip_address_claim_name vm device pool = vm ++ "-" ++ decimal device ++ "-" ++ decimal pool

-- the claims that a device asks for, by the index of its pool
unfoldable pub pool_claims : String → ℕ → ℕ → List IpPoolReference → List (String × IpPoolReference)
unfolding ip_address_claim_name
pool_claims vm device pool [] = []
pool_claims vm device pool (p ∷ ps) =
    (ip_address_claim_name vm device pool, p) ∷ pool_claims vm device (suc pool) ps

-- the claims of all devices, in the order of the two loops
unfoldable pub all_claims : String → ℕ → List NetworkDeviceSpec → List (String × IpPoolReference)
unfolding pool_claims
all_claims vm device [] = []
all_claims vm device (d ∷ ds) =
    List.◌++◌ (pool_claims vm device 0 d.addresses_from_pools) (all_claims vm (suc device) ds)

-- what the loop counts
pub record Tally : Type 0 where
  pub total : ℕ
  pub claims_created : ℕ
  pub claims_fulfilled : ℕ
  -- how many claims have a Ready condition
  pub with_ready : ℕ
  pub errors : List Error

abbrev pub no_claims : Tally
no_claims = record {
  total = 0;
  claims_created = 0;
  claims_fulfilled = 0;
  with_ready = 0;
  errors = [];
}

abbrev is_created : OperationResult → Bool
is_created created = true
is_created _ = false

abbrev pub one_if : Bool → ℕ
one_if true = 1
one_if false = 0

-- one turn of the loop, by what the creation of the claim answers
unfoldable pub count_claim : Tally → Outcome (IpAddressClaim × OperationResult) → Tally
count_claim t (err e) = record t {
  total = t.total + 1;
  errors = List.◌++◌ t.errors (wrapped "failed to CreateOrPatch IPAddressClaim" e ∷ []);
}
count_claim t (ok (claim, result)) = record t {
  total = t.total + 1;
  claims_created = t.claims_created + one_if (is_created result);
  claims_fulfilled = t.claims_fulfilled + one_if (not (is_empty claim.address_ref_name));
  with_ready = t.with_ready + one_if claim.has_ready;
}

abbrev pub aggregate_of : Error → List Error → Error
aggregate_of e [] = aggregate e
aggregate_of e (f ∷ fs) = aggregate_next e (aggregate_of f fs)

module _ (w : World) where
  abbrev pub checked_claim : Outcome IpAddressClaim → Action Unit
  checked_claim (ok c) = pure tt
  checked_claim (err e) =
      if is_api_not_found e then pure tt else fail (wrapped "failed to get IPAddressClaim %s" e)

  -- a claim that cannot be read ends the loop; one that cannot be created is counted
  unfoldable pub create_claims : List (String × IpPoolReference) → Tally → Action Tally
  unfolding count_claim
  create_claims [] t = pure t
  create_claims ((name, pool) ∷ rest) t = do
    attempt (try (get_claim name) (λ tr. w.get_claim tr name)) checked_claim
    attempt
        (try (Call.create_or_patch_claim name pool) (λ tr. w.create_or_patch_claim tr name pool))
        (λ r. create_claims rest (count_claim t r))

  -- the two conditions on the claims
  unfoldable pub not_all_claimed : V1Beta1Reason → Severity → Reason → Message → Action Unit
  not_all_claimed old severity reason message = do
    write (mark_false ip_address_claimed_v1beta1 old severity message)
    set_condition ConditionType.ip_address_claims_fulfilled status_false reason message

  -- every claim has a Ready condition: the conditions are aggregated from them
  unfoldable pub aggregate_claims : ℕ → Action Unit
  aggregate_claims with_ready = do
    write (set_aggregate_v1beta1 ip_address_claimed_v1beta1)
    if ltb 0 with_ready
        then wrap (wrapped "failed to aggregate Ready condition from IPAddressClaims") (
            perform (write_condition (set_aggregate ConditionType.ip_address_claims_fulfilled))
              w.set_aggregate)
        else set_condition ConditionType.ip_address_claims_fulfilled status_true
            claims_not_fulfilled no_message

  unfoldable pub count_conditions : Tally → Action Unit
  unfolding not_all_claimed
  count_conditions t =
      if t.total == t.claims_fulfilled
      then (do
        write (mark_true ip_address_claimed_v1beta1)
        set_condition ConditionType.ip_address_claims_fulfilled status_true claims_fulfilled
            no_message)
      else (if ltb t.claims_fulfilled t.total && ltb 0 t.claims_created
          then not_all_claimed ip_address_claims_being_created_v1beta1 info claims_being_created
              (text "%d/%d claims being created")
          else (if ltb t.claims_fulfilled t.total && t.claims_created == 0
              then not_all_claimed waiting_for_ip_address_v1beta1 info claims_waiting_for_ip_address
                  (text "%d/%d claims being processed")
              else pure tt))

  -- the conditions after the loop
  abbrev pub report_errors : Tally → List Error → Action Unit
  report_errors t [] =
      if t.with_ready == t.total then aggregate_claims t.with_ready else count_conditions t
  report_errors t (e ∷ es) = do
    not_all_claimed ip_address_claim_not_found_v1beta1 severe claims_not_fulfilled
        (error_text (aggregate_of e es))
    fail (aggregate_of e es)

  unfoldable pub reconcile_ip_address_claims : Action Unit
  unfolding create_claims all_claims aggregate_claims count_conditions
  reconcile_ip_address_claims = do
    name ← gets (λ s. s.vsphere_vm.name)
    devices ← gets (λ s. s.vsphere_vm.spec.devices)
    tally ← create_claims (all_claims name 0 devices) no_claims
    report_errors tally tally.errors

  abbrev pub released_claim : String → IpAddressClaim → Action Unit
  released_claim name claim =
      if claim.has_finalizer
      then wrap (wrapped "failed to update IPAddressClaim %s")
          (perform (Call.remove_claim_finalizer name) (λ tr. w.remove_claim_finalizer tr name))
      else pure tt

  abbrev pub release_claim : String → Outcome IpAddressClaim → Action Unit
  release_claim name (ok claim) = released_claim name claim
  release_claim name (err e) =
      if is_api_not_found e
      then pure tt
      else fail (wrapped "failed to get IPAddressClaim %q to remove the finalizer" e)

  -- the finalizers of the claims go, one after another
  unfoldable pub release_claims : List (String × IpPoolReference) → Action Unit
  release_claims [] = pure tt
  release_claims ((name, pool) ∷ rest) = do
    attempt (try (get_claim name) (λ tr. w.get_claim tr name)) (release_claim name)
    release_claims rest

  unfoldable pub delete_ip_address_claims : Action Unit
  unfolding release_claims all_claims
  delete_ip_address_claims = do
    name ← gets (λ s. s.vsphere_vm.name)
    devices ← gets (λ s. s.vsphere_vm.spec.devices)
    release_claims (all_claims name 0 devices)
