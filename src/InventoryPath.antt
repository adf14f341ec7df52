-- ===== src/InventoryPath.antt =====
-- Go's `path.Join` of two elements, with the cleaning that it does: the finder gets its result.
use Prim.Native.Char.{Char, code}
use Prim.Native.String.{◌++◌}
use cluster_api_provider_vsp.Prelude.{
  String, Bool, false, ◌≡◌, refl, List, [], ◌∷◌, is_empty, str_eq, ◌==◌, if◌then◌else◌, ◌||◌,
}

abbrev is_slash : String → Bool
is_slash String.[] = false
is_slash (String.◌∷◌ c s) = code c == b'/'

abbrev push_char : Char → List String → List String
push_char c [] = String.◌∷◌ c String.[] ∷ []
push_char c (s ∷ ss) = String.◌∷◌ c s ∷ ss

-- the parts between slashes
unfoldable pub split_path : String → List String
split_path String.[] = "" ∷ []
split_path (String.◌∷◌ c s) =
    let rest = split_path s in if code c == b'/' then "" ∷ rest else push_char c rest

-- `..` drops the part before it; at the root it is dropped itself. The parts so far are reversed.
abbrev step_back : Bool → List String → List String
step_back rooted [] = if rooted then [] else ".." ∷ []
step_back rooted (p ∷ ps) = if str_eq p ".." then ".." ∷ p ∷ ps else ps

unfoldable pub clean_parts : Bool → List String → List String → List String
clean_parts rooted done [] = done
clean_parts rooted done (p ∷ ps) =
    clean_parts rooted
      (if is_empty p || str_eq p "."
        then done
        else (if str_eq p ".." then step_back rooted done else p ∷ done))
      ps

unfoldable pub join_reversed : List String → String → String
join_reversed [] acc = acc
join_reversed (p ∷ ps) acc = join_reversed ps (if is_empty acc then p else p ++ "/" ++ acc)

unfoldable pub clean : String → String
unfolding split_path clean_parts join_reversed
clean s =
    let rooted = is_slash s in
    let joined = join_reversed (clean_parts rooted [] (split_path s)) "" in
    if rooted then "/" ++ joined else (if is_empty joined then "." else joined)

-- empty elements are left out
unfoldable pub path_join : String → String → String
unfolding clean
path_join a b =
    if is_empty a
    then (if is_empty b then "" else clean b)
    else (if is_empty b then clean a else clean (a ++ "/" ++ b))

join_folder : path_join "/dc0/vm/" "vm-1" ≡ "/dc0/vm/vm-1"
unfolding path_join
join_folder = refl

join_dots : path_join "/dc0/./vm" "../x" ≡ "/dc0/x"
unfolding path_join
join_dots = refl
