-- ===== src/Controller/Claims/Counts.antt =====
-- What the loop over the claims counts, and the conditions that come of it
-- (controllers/vspherevm_ipaddress_reconciler.go).
use mathlib.Core.Path.{subst}
use cluster_api_provider_vsp.Prelude.{
  ℕ, ◌+◌, ◌≤◌, String, Bool, true, false, ◌≡◌, refl, Option, none, some, List, [], ◌∷◌, arith,
  length, length-append, ltb, ◌==◌, if◌then◌else◌,
}
use cluster_api_provider_vsp.Errors.{Outcome, ok, err}
use cluster_api_provider_vsp.Exec.{◌>>=◌, pure, lift, attempt}
use cluster_api_provider_vsp.Api.{IpPoolReference}
use cluster_api_provider_vsp.Api.Conditions.{
  ConditionType, ConditionStatus, Reason, status_true, status_false, claims_fulfilled,
  claims_being_created, claims_waiting_for_ip_address, set,
}
use cluster_api_provider_vsp.World.{World, IpAddressClaim, OperationResult, Trace, write_condition}
use cluster_api_provider_vsp.Vm.Context.{Context, write, try, set_condition}
use cluster_api_provider_vsp.Controller.Claims.{
  not_all_claimed, Tally, no_claims, one_if, count_claim, create_claims, count_conditions,
}

-- No count passes the number of claims that were handled.
pub record IsCounted (t : Tally) : Type 0 where
  pub created : t.claims_created ≤ t.total
  pub fulfilled : t.claims_fulfilled ≤ t.total
  pub ready : t.with_ready + length t.errors ≤ t.total

none-IsCounted : IsCounted no_claims
none-IsCounted = record { created = omega arith; fulfilled = omega arith; ready = omega arith }

one_if-le : (b : Bool) → one_if b ≤ 1
one_if-le true = omega arith
one_if-le false = omega arith

pub count_claim-IsCounted :
    (t : Tally) (r : Outcome (IpAddressClaim × OperationResult))
    → IsCounted t
    → IsCounted (count_claim t r)
unfolding count_claim
count_claim-IsCounted t (err e) h = record {
  created = omega (arith, h.created);
  fulfilled = omega (arith, h.fulfilled);
  ready = omega (arith, h.ready, length-append {0} t.errors);
}
count_claim-IsCounted t (ok (claim, result)) h = record {
  created = omega (arith, h.created, one_if-le);
  fulfilled = omega (arith, h.fulfilled, one_if-le);
  ready = omega (arith, h.ready, one_if-le);
}

total-count_claim :
    (t : Tally) (r : Outcome (IpAddressClaim × OperationResult))
    → (count_claim t r).total ≡ t.total + 1
unfolding count_claim
total-count_claim t (err e) = refl
total-count_claim t (ok (claim, result)) = refl

-- what the loop returns, if it returns: every claim was handled, and the counts are in order
record IsTallyOf (n : ℕ) (t : Tally) : Type 0 where
  counted : IsCounted t
  handled : t.total ≡ n

abbrev Returns : ℕ → Outcome Tally → Type 0
Returns n (ok t) = IsTallyOf n t
Returns n (err e) = Unit

then-Returns :
    (n : ℕ) (m : Context → Outcome (Unit {0}) × Context) (rest : Context → Outcome Tally × Context)
    (s : Context)
    → Returns n (rest (m s).1).0
    → Returns n ((m >>= λ _. rest) s).0
unfolding ◌>>=◌
then-Returns n m rest s h = by_answer (m s).0
  where
    by_answer : (r : Outcome (Unit {0})) → Returns n ((lift r >>= λ _. rest) (m s).1).0
    by_answer (ok u) = h
    by_answer (err e) = tt

abbrev is_claims_type : ConditionType → Bool
is_claims_type ConditionType.ip_address_claims_fulfilled = true
is_claims_type _ = false

-- the latest condition on the claims: its status and reason
abbrev pub latest_claimed : Trace → Option (ConditionStatus × Reason)
latest_claimed [] = none
latest_claimed (write_condition (set c) ∷ tr) =
    if is_claims_type c.type then some (c.status, c.reason) else latest_claimed tr
latest_claimed (_ ∷ tr) = latest_claimed tr

module _ (w : World) where
  -- `n` is what the counts were before, and the claims that are left
  create_claims-Returns :
      (n : ℕ) (cs : List (String × IpPoolReference)) (t : Tally) (s : Context)
      → IsCounted t
      → n ≡ t.total + length cs
      → Returns n (create_claims w cs t s).0
  unfolding create_claims attempt try pure
  create_claims-Returns n [] t s h e = record { counted = h; handled = omega arith }
  create_claims-Returns n ((name, pool) ∷ cs) t s h e = then-Returns n _ _ s (
      create_claims-Returns n cs (count_claim t _) _ (count_claim-IsCounted t _ h)
        (omega (arith, total-count_claim t)))

  -- the conditions that the counts lead to, in a set that leaves no case out
  abbrev pub counted_condition : Tally → ConditionStatus × Reason
  counted_condition t =
      if t.total == t.claims_fulfilled
      then (status_true, claims_fulfilled)
      else (if ltb 0 t.claims_created
          then (status_false, claims_being_created)
          else (status_false, claims_waiting_for_ip_address))

  -- If the loop over the claims returns a tally, then it counts every claim, and neither the
  -- created claims, nor the fulfilled claims, nor the claims with a Ready condition and the errors
  -- together are more than all claims.
  pub create_claims-IsCounted :
      (cs : List (String × IpPoolReference)) (s : Context) (t : Tally)
      → (create_claims w cs no_claims s).0 ≡ ok t
      → IsCounted t × (t.total ≡ length cs)
  create_claims-IsCounted cs s t h = (returned.counted, returned.handled)
    where
      returned : IsTallyOf (length cs) t
      returned =
          subst (Returns (length cs)) h
            (create_claims-Returns (length cs) cs no_claims s none-IsCounted (omega arith))

  -- For a tally whose counts do not pass the total, the fallback always writes the condition on the
  -- claims: fulfilled where all are fulfilled, else being created where one was created, else
  -- waiting for an address.
  pub count_conditions-reports :
      (t : Tally) (s : Context)
      → IsCounted t
      → latest_claimed (count_conditions w t s).1.trace ≡ some (counted_condition t)
  unfolding count_conditions ◌>>=◌ not_all_claimed write set_condition
  count_conditions-reports t s h = ground (arith, h.fulfilled)
