-- ===== src/Exec.antt =====
-- Go functions that mutate what they are given and may return an error: a state monad over the
-- state of one reconcile. What was written before an error stays written.
pub mod Keeps
use cluster_api_provider_vsp.Prelude.{Option, none, some}
use cluster_api_provider_vsp.Errors.{Error, Outcome, ok, err}

abbrev pub Exec {ℓ} : Type ℓ → Type ℓ → Type ℓ
Exec S A = S → Outcome A × S

abbrev pub map_error {ℓ} : {A : Type ℓ} → (Error → Error) → Outcome A → Outcome A
map_error f (ok a) = ok a
map_error f (err e) = err (f e)

-- a call that answers with an error or nothing
abbrev pub of_error : Option Error → Outcome (Unit {0})
of_error none = ok tt
of_error (some e) = err e

module _ {ℓ} {S A : Type ℓ} where
  unfoldable pub pure : A → Exec S A
  pure a s = (ok a, s)

  -- `return err`
  unfoldable pub fail : Error → Exec S A
  fail e s = (err e, s)

  unfoldable pub lift : Outcome A → Exec S A
  lift r s = (r, s)

  -- `pkgerrors.Wrapf` of the error that an action returns
  unfoldable pub wrap : (Error → Error) → Exec S A → Exec S A
  wrap f act s = let (r, s') = act s in (map_error f r, s')

  -- `defer d()`: `d` runs after `m`, however `m` returned
  unfoldable pub deferred : (S → S) → Exec S A → Exec S A
  deferred d act s = let (r, s') = act s in (r, d s')

module _ {ℓ} {S A : Type ℓ} where
  unfoldable pub gets : (S → A) → Exec S A
  gets f s = (ok (f s), s)

module _ {ℓ} {S : Type ℓ} where
  -- an assignment
  unfoldable pub modify : (S → S) → Exec S (Unit {ℓ})
  modify f s = (ok tt, f s)

module _ {ℓ} {S A B : Type ℓ} where
  -- `f` sees both returns of `m`, as in `if err != nil { … }`
  unfoldable pub attempt : Exec S A → (Outcome A → Exec S B) → Exec S B
  attempt act f s = let (r, s') = act s in f r s'

  abbrev continue : Outcome A → (A → Exec S B) → Exec S B
  continue (ok a) f s = f a s
  continue (err e) f s = (err e, s)

  infixl 10 ◌>>=◌ ◌>>◌
  -- opening this opens the other ways to build an action too
  unfoldable pub ◌>>=◌ : Exec S A → (A → Exec S B) → Exec S B
  unfolding pure fail lift wrap deferred gets modify attempt
  ◌>>=◌ act f s = let (r, s') = act s in continue r f s'

  abbrev pub ◌>>◌ : Exec S A → Exec S B → Exec S B
  act >> n = act >>= λ _. n
