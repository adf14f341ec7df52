-- ===== src/Decimal.antt =====
-- Numbers printed by `%d`.
use Prim.Native.String.{◌++◌}
use cluster_api_provider_vsp.Prelude.{
  ℕ, zero, suc, ◌/◌, ◌%◌, String, ◌≡◌, refl, ◌<◌, arith, Bool-cases, inl, inr, ltb, if◌then◌else◌,
}

unfoldable pub digit : ℕ → String
digit zero = "0"
digit (suc zero) = "1"
digit (suc (suc zero)) = "2"
digit (suc (suc (suc zero))) = "3"
digit (suc (suc (suc (suc zero)))) = "4"
digit (suc (suc (suc (suc (suc zero))))) = "5"
digit (suc (suc (suc (suc (suc (suc zero)))))) = "6"
digit (suc (suc (suc (suc (suc (suc (suc zero))))))) = "7"
digit (suc (suc (suc (suc (suc (suc (suc (suc zero)))))))) = "8"
digit (suc (suc (suc (suc (suc (suc (suc (suc (suc _))))))))) = "9"

-- A number has no more digits than its value and one: the fuel does not run out.
unfoldable pub digits_above : ℕ → ℕ → String → String
digits_above zero n rest = rest
digits_above (suc fuel) n rest =
    let more = digits_above fuel (n / 10) (digit (n % 10) ++ rest) in
    if ltb n 10 then digit n ++ rest else more

unfoldable pub decimal : ℕ → String
unfolding digits_above digit
decimal n = digits_above (suc n) n ""

decimal_example : decimal 70 ++ decimal 4318 ≡ "704318"
unfolding decimal
decimal_example = refl

-- Any two amounts of fuel that are more than a number print the same digits of it, so the fuel of
-- decimal, one more than the number, is enough.
pub digits_above-enough :
    (fuel more n : ℕ) (rest : String)
    → n < fuel
    → n < more
    → digits_above fuel n rest ≡ digits_above more n rest
unfolding digits_above
digits_above-enough zero more n rest h k = absurd (omega (arith, h))
digits_above-enough (suc fuel) zero n rest h k = absurd (omega (arith, k))
digits_above-enough (suc fuel) (suc more) n rest h k = elim (Bool-cases (ltb n 10)) [
  | inl e ↦ rw e refl
  | inr e ↦ rw e (
      digits_above-enough fuel more (n / 10) (digit (n % 10) ++ rest) (ground (arith, e, h))
        (ground (arith, e, k)))
]
