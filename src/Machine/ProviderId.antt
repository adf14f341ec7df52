-- ===== src/Machine/ProviderId.antt =====
-- Provider IDs and BIOS UUIDs (pkg/util/machines.go: ConvertProviderIDToUUID,
-- ConvertUUIDToProviderID), with the regular expressions that they match.
use Prim.Native.Char.{Char, code}
use Prim.Native.String.{◌++◌}
use cluster_api_provider_vsp.Prelude.{
  ℕ, zero, suc, ◌+◌, String, Bool, false, ◌&&◌, ◌||◌, Option, none, some, List, [], ◌∷◌, is_empty,
  leb, ◌==◌, if◌then◌else◌,
}

-- [a-f\d], case-insensitive
unfoldable pub is_hex : Char → Bool
is_hex c =
    (leb b'0' (code c) && leb (code c) b'9')
    || (leb b'a' (code c) && leb (code c) b'f')
    || (leb b'A' (code c) && leb (code c) b'F')

-- The letters that (?i) does not tell apart: both cases, and the long s of Unicode.
unfoldable pub folded : ℕ → ℕ
folded n = if leb b'A' n && leb n b'Z' then n + 32 else (if n == 0x17f then b's' else n)

-- what is left of a text after that many hexadecimal digits
unfoldable pub after_hex : ℕ → String → Option String
unfolding is_hex
after_hex zero s = some s
after_hex (suc n) String.[] = none
after_hex (suc n) (String.◌∷◌ c s) = let rest = after_hex n s in if is_hex c then rest else none

abbrev pub after_dash : String → Option String
after_dash String.[] = none
after_dash (String.◌∷◌ c s) = if code c == b'-' then some s else none

abbrev pub bind_text : Option String → (String → Option String) → Option String
bind_text none f = none
bind_text (some s) f = f s

-- groups of digits with a dash between them, up to the end of the text
unfoldable pub matches_groups : List ℕ → Option String → Bool
unfolding after_hex
matches_groups groups none = false
matches_groups [] (some s) = is_empty s
matches_groups (n ∷ []) (some s) = matches_groups [] (after_hex n s)
matches_groups (n ∷ m ∷ groups) (some s) =
    matches_groups (m ∷ groups) (bind_text (after_hex n s) after_dash)

-- UUIDPattern
unfoldable pub matches_uuid : String → Bool
unfolding matches_groups
matches_uuid s = matches_groups (8 ∷ 4 ∷ 4 ∷ 4 ∷ 12 ∷ []) (some s)

-- what is left of a text after a prefix, which is matched without regard to case
unfoldable pub after_prefix : String → String → Option String
unfolding folded
after_prefix String.[] s = some s
after_prefix (String.◌∷◌ c p) String.[] = none
after_prefix (String.◌∷◌ c p) (String.◌∷◌ d s) =
    let rest = after_prefix p s in if folded (code c) == folded (code d) then rest else none

abbrev pub provider_id_prefix : String
provider_id_prefix = "vsphere://"

abbrev pub uuid_or_empty : Option String → String
uuid_or_empty none = ""
uuid_or_empty (some uuid) = if matches_uuid uuid then uuid else ""

-- the text that the group of ProviderIDPattern matches
unfoldable pub convert_provider_id_to_uuid : Option String → String
unfolding after_prefix matches_uuid
convert_provider_id_to_uuid none = ""
convert_provider_id_to_uuid (some id) =
    if is_empty id then "" else uuid_or_empty (after_prefix provider_id_prefix id)

unfoldable pub convert_uuid_to_provider_id : String → String
unfolding matches_uuid
convert_uuid_to_provider_id uuid =
    if is_empty uuid then "" else (if matches_uuid uuid then provider_id_prefix ++ uuid else "")
