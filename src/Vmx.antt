-- ===== src/Vmx.antt =====
-- Hardware versions, `vmx-17` (pkg/util/vmx.go), with what it takes of `strconv.Atoi`: an optional
-- sign and decimal digits, in the range of a 64-bit integer.
use Prim.Native.Char.{code}
use cluster_api_provider_vsp.Prelude.{
  ℕ, suc, ◌+◌, ◌-◌, ◌*◌, ◌^◌, String, Bool, true, false, ◌&&◌, ltb, leb, ◌==◌, is_empty,
  if◌then◌else◌, ◌≡◌, refl,
}
use cluster_api_provider_vsp.Errors.{Error, Outcome, ok, err, library, other_kind}

-- `negsuc n` is -(n + 1)
pub data ℤ : Type 0 where
  pos : ℕ → ℤ
  negsuc : ℕ → ℤ

abbrev pub ltb_ℤ : ℤ → ℤ → Bool
ltb_ℤ (pos a) (pos b) = ltb a b
ltb_ℤ (pos a) (negsuc b) = false
ltb_ℤ (negsuc a) (pos b) = true
ltb_ℤ (negsuc a) (negsuc b) = ltb b a

abbrev atoi_error : Error
atoi_error = library other_kind "strconv.Atoi: parsing %s"

unfoldable pub atoi_digits : ℕ → String → Outcome ℕ
atoi_digits acc String.[] = ok acc
atoi_digits acc (String.◌∷◌ c rest) =
    let more = atoi_digits (acc * 10 + (code c - 48)) rest in
    if leb 48 (code c) && leb (code c) 57 then more else err atoi_error

abbrev max_int : ℕ
max_int = 2 ^ 63 - 1

abbrev positive : Outcome ℕ → Outcome ℤ
positive (err e) = err e
positive (ok n) = if leb n max_int then ok (pos n) else err atoi_error

abbrev negative : Outcome ℕ → Outcome ℤ
negative (err e) = err e
negative (ok n) =
    if n == 0
    then ok (pos 0)
    else (if leb n (suc max_int) then ok (negsuc (n - 1)) else err atoi_error)

abbrev digits_of : String → Outcome ℕ
digits_of s = if is_empty s then err atoi_error else atoi_digits 0 s

unfoldable pub atoi : String → Outcome ℤ
unfolding atoi_digits
atoi String.[] = err atoi_error
atoi (String.◌∷◌ c rest) =
    if code c == b'-'
    then negative (digits_of rest)
    else (if code c == b'+'
        then positive (digits_of rest)
        else positive (atoi_digits 0 (String.◌∷◌ c rest)))

-- `strings.TrimPrefix(version, "vmx-")`
unfoldable pub trim_vmx : String → String
trim_vmx (String.◌∷◌ a (String.◌∷◌ b (String.◌∷◌ c (String.◌∷◌ d rest)))) =
    if (code a == b'v') && (code b == b'm') && (code c == b'x') && (code d == b'-')
    then rest
    else String.◌∷◌ a (String.◌∷◌ b (String.◌∷◌ c (String.◌∷◌ d rest)))
trim_vmx s = s

unfoldable pub parse_hardware_version : String → Outcome ℤ
unfolding atoi trim_vmx
parse_hardware_version version = atoi (trim_vmx version)

abbrev compare_versions : Outcome ℤ → Outcome ℤ → Outcome Bool
compare_versions (err e) b = err e
compare_versions (ok a) (err e) = err e
compare_versions (ok a) (ok b) = ok (ltb_ℤ a b)

unfoldable pub less_than : String → String → Outcome Bool
unfolding parse_hardware_version
less_than version1 version2 =
    compare_versions (parse_hardware_version version1) (parse_hardware_version version2)

less_than_example : less_than "vmx-9" "vmx-17" ≡ ok true
unfolding less_than
less_than_example = refl
