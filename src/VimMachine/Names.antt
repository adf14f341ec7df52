-- ===== src/VimMachine/Names.antt =====
-- The name of the VSphereVM of a machine (pkg/services/vimmachine.go: generateVMObjectName,
-- GenerateVSphereVMName). Names of Kubernetes objects are ASCII, where a character is a byte.
use Prim.Native.Char.{code}
use Prim.Native.String.{◌++◌}
use cluster_api_provider_vsp.Prelude.{
  ℕ, zero, suc, ◌+◌, ◌-◌, ◌≤◌, ◌<◌, String, true, ◌&&◌, ◌≡◌, arith, ltb, ◌==◌, is_empty, if-both,
  if◌then◌else◌,
}
use Prim.Native.String.append
use cluster_api_provider_vsp.Errors.{Outcome, ok, err, out_of_range, wrapped}
use cluster_api_provider_vsp.Exec.{map_error}
use cluster_api_provider_vsp.Group.Names.{Templates, generate_machine_name_from_template}
use cluster_api_provider_vsp.VimMachine.{VimMachine}

unfoldable pub text_length : String → ℕ
text_length String.[] = 0
text_length (String.◌∷◌ c s) = suc (text_length s)

-- `s[:n]` and `s[n:]`
unfoldable pub first_chars : ℕ → String → String
first_chars zero s = ""
first_chars (suc n) String.[] = ""
first_chars (suc n) (String.◌∷◌ c s) = String.◌∷◌ c (first_chars n s)

unfoldable pub from_char : ℕ → String → String
from_char zero s = s
from_char (suc n) String.[] = ""
from_char (suc n) (String.◌∷◌ c s) = from_char n s

-- `strings.TrimSuffix(s, "-")`
unfoldable pub trim_dash : String → String
trim_dash String.[] = ""
trim_dash (String.◌∷◌ c String.[]) = if code c == b'-' then "" else String.◌∷◌ c String.[]
trim_dash (String.◌∷◌ c (String.◌∷◌ d s)) = String.◌∷◌ c (trim_dash (String.◌∷◌ d s))

-- nine characters, a dash, and the last five
unfoldable pub windows_name : String → Outcome String
unfolding text_length first_chars from_char trim_dash
windows_name name =
    if ltb (text_length name) 9
    then err out_of_range
    else ok (trim_dash (first_chars 9 name) ++ "-" ++ from_char (text_length name - 5) name)

abbrev pub object_name : VimMachine → String → Outcome String → Outcome String
object_name m machine_name (err e) = err e
object_name m machine_name (ok name) =
    if m.is_windows && ltb 15 (text_length machine_name) then windows_name name else ok name

module _ (t : Templates) where
  unfoldable pub generate_vsphere_vm_name : String → String → Outcome String
  unfolding generate_machine_name_from_template
  generate_vsphere_vm_name machine_name template =
      if is_empty template
      then ok machine_name
      else map_error (wrapped "failed to generate name for VSphereVM")
          (generate_machine_name_from_template t machine_name template)

  unfoldable pub generate_vm_object_name : VimMachine → String → Outcome String
  unfolding generate_vsphere_vm_name windows_name text_length
  generate_vm_object_name m machine_name =
      object_name m machine_name (generate_vsphere_vm_name machine_name m.naming_template)

text_length-append : (s t : String) → text_length (s ++ t) ≡ text_length s + text_length t
unfolding text_length
text_length-append String.[] t = rw (append.nil t) (omega arith)
text_length-append (String.◌∷◌ c s) t =
    rw (append.cons c s t) (omega (arith, text_length-append s t))

first_chars-length : (n : ℕ) (s : String) → text_length (first_chars n s) ≤ n
unfolding text_length first_chars
first_chars-length zero s = omega arith
first_chars-length (suc n) String.[] = omega arith
first_chars-length (suc n) (String.◌∷◌ c s) = omega (arith, first_chars-length n s)

from_char-length : (n : ℕ) (s : String) → text_length (from_char n s) ≡ text_length s - n
unfolding text_length from_char
from_char-length zero s = omega arith
from_char-length (suc n) String.[] = omega arith
from_char-length (suc n) (String.◌∷◌ c s) = omega (arith, from_char-length n s)

trim_dash-length : (s : String) → text_length (trim_dash s) ≤ text_length s
unfolding text_length trim_dash
trim_dash-length String.[] = omega arith
trim_dash-length (String.◌∷◌ c String.[]) =
    if-both (λ s. text_length s ≤ 1) (code c == b'-') (omega arith) (omega arith)
trim_dash-length (String.◌∷◌ c (String.◌∷◌ d s)) = omega (arith, trim_dash-length (String.◌∷◌ d s))

dash-length : (s : String) → text_length ("-" ++ s) ≡ suc (text_length s)
unfolding text_length
dash-length s = omega (arith, text_length-append "-" s)

abbrev short_name : String → String
short_name name = trim_dash (first_chars 9 name) ++ "-" ++ from_char (text_length name - 5) name

short_name-length : (name : String) → text_length (short_name name) ≤ 15
short_name-length name =
    let head = first_chars 9 name in
    let tail = from_char (text_length name - 5) name in
    omega (
      arith,
      text_length-append (trim_dash head) ("-" ++ tail),
      dash-length tail,
      trim_dash-length head,
      first_chars-length 9 name,
      from_char-length (text_length name - 5) name,
    )

-- a name that is made is the short one
windows-length :
    (m : VimMachine) (machine_name : String) (generated : Outcome String) (name : String)
    → m.is_windows ≡ true
    → 15 < text_length machine_name
    → object_name m machine_name generated ≡ ok name
    → text_length name ≤ 15
unfolding windows_name
windows-length m machine_name (err e) name h k g = absurd (cc g)
windows-length m machine_name (ok long) name h k g = ground (arith, h, k, g, short_name-length long)

-- If the machine runs Windows and the name of its Machine has more than 15 characters, then the
-- name that is generated for its VSphereVM, if one is, has at most 15.
pub object_name-windows :
    (t : Templates) (m : VimMachine) (machine_name name : String)
    → m.is_windows ≡ true
    → 15 < text_length machine_name
    → generate_vm_object_name t m machine_name ≡ ok name
    → text_length name ≤ 15
unfolding generate_vm_object_name windows_name
object_name-windows t m machine_name name h k g =
    windows-length m machine_name (generate_vsphere_vm_name t machine_name m.naming_template) name h
      k g
