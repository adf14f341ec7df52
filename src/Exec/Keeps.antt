-- ===== src/Exec/Keeps.antt =====
-- Invariants of actions: what holds before an action holds after it, whether it returns a value
-- or an error. One rule for each way to build an action.
use cluster_api_provider_vsp.Prelude.{Bool, true, false, if◌then◌else◌}
use cluster_api_provider_vsp.Errors.{Error, Outcome, ok, err}
use cluster_api_provider_vsp.Exec.{
  Exec, pure, fail, lift, wrap, gets, modify, attempt, deferred, ◌>>=◌,
}

pub record Keeps {ℓ} {S A : Type ℓ} (Inv : S → Type ℓ) (act : Exec S A) : Type ℓ where
  pub at : (s : S) → Inv s → Inv (act s).1

-- An update of the state that an action makes.
pub record Preserves {ℓ} {S : Type ℓ} (Inv : S → Type ℓ) (f : S → S) : Type ℓ where
  pub at : (s : S) → Inv s → Inv (f s)

module _ {ℓ} {S A : Type ℓ} {Inv : S → Type ℓ} where
  pub Keeps-pure : (a : A) → Keeps Inv (pure a)
  unfolding pure
  Keeps-pure a = record { at = λ s before. before }

  pub Keeps-fail : (e : Error) → Keeps Inv (fail {A = A} e)
  unfolding fail
  Keeps-fail e = record { at = λ s before. before }

  pub Keeps-lift : (r : Outcome A) → Keeps Inv (lift r)
  unfolding lift
  Keeps-lift r = record { at = λ s before. before }

  pub Keeps-gets : (f : S → A) → Keeps Inv (gets f)
  unfolding gets
  Keeps-gets f = record { at = λ s before. before }

  pub Keeps-wrap : (f : Error → Error) (act : Exec S A) → Keeps Inv act → Keeps Inv (wrap f act)
  unfolding wrap
  Keeps-wrap f act k = record { at = λ s h. k.at s h }

  pub Keeps-deferred :
      (d : S → S) (act : Exec S A) → Preserves Inv d → Keeps Inv act → Keeps Inv (deferred d act)
  unfolding deferred
  Keeps-deferred d act kd on_act = record { at = λ s h. kd.at (act s).1 (on_act.at s h) }

  pub Keeps-if :
      (b : Bool) (act n : Exec S A) → Keeps Inv act → Keeps Inv n → Keeps Inv (if b then act else n)
  Keeps-if true act n on_act kn = on_act
  Keeps-if false act n on_act kn = kn

module _ {ℓ} {S : Type ℓ} {Inv : S → Type ℓ} where
  pub Keeps-modify : (f : S → S) → Preserves Inv f → Keeps Inv (modify f)
  unfolding modify
  Keeps-modify f k = record { at = λ s h. k.at s h }

module _ {ℓ} {S A B : Type ℓ} {Inv : S → Type ℓ} where
  pub Keeps-attempt :
      (act : Exec S A) (f : Outcome A → Exec S B)
      → Keeps Inv act
      → ((r : Outcome A) → Keeps Inv (f r))
      → Keeps Inv (attempt act f)
  unfolding attempt
  Keeps-attempt act f on_act on_next = record {
    at = λ s h. (on_next (act s).0).at (act s).1 (on_act.at s h);
  }

  pub Keeps-bind :
      (act : Exec S A) (f : A → Exec S B)
      → Keeps Inv act
      → ((a : A) → Keeps Inv (f a))
      → Keeps Inv (act >>= f)
  unfolding ◌>>=◌
  Keeps-bind act f on_act on_next = record { at = λ s h. after (act s).0 (act s).1 (on_act.at s h) }
    where
      after : (r : Outcome A) (t : S) → Inv t → Inv ((lift r >>= f) t).1
      after (ok a) t h = (on_next a).at t h
      after (err e) t h = h

pub ruleset keeps_rules = (
  Keeps-pure, Keeps-fail, Keeps-lift, Keeps-gets, Keeps-modify, Keeps-wrap, Keeps-if, Keeps-attempt,
  Keeps-bind,
)
