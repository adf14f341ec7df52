-- ===== src/Webhook/Maps.antt =====
-- Specs as maps from keys to values (internal/webhooks: `ToUnstructured`, the keys that are deleted
-- from both, and `reflect.DeepEqual`). A value is its text.
use cluster_api_provider_vsp.Prelude.{
  String, Bool, true, false, ◌&&◌, ◌≡◌, refl, sym, ◌∙◌, ◌↔◌, Option, none, some, List, [], ◌∷◌,
  arith, str_eq, eq_iff, if◌then◌else◌, lookup, remove, lookup-remove,
}
use cluster_api_provider_vsp.Group.Names.{has}

abbrev pub Fields : Type 0
Fields = List (String × String)

-- `delete` of each key
unfoldable pub delete_keys : List String → Fields → Fields
delete_keys [] m = m
delete_keys (k ∷ ks) m = delete_keys ks (remove k m)

abbrev pub same_value : Option String → Option String → Bool
same_value none none = true
same_value (some a) (some b) = str_eq a b
same_value _ _ = false

-- the keys of the first map have the same values in both
unfoldable pub agrees : Fields → Fields → Fields → Bool
agrees [] a b = true
agrees ((k, v) ∷ rest) a b =
    let later = agrees rest a b in if same_value (lookup k a) (lookup k b) then later else false

-- equality of maps
unfoldable pub same_fields : Fields → Fields → Bool
unfolding agrees
same_fields a b = agrees a a b && agrees b a b

same_value_refl : (o : Option String) → same_value o o ≡ true
same_value_refl none = refl
same_value_refl (some a) = ground (arith, eq_iff a a)

same_value-eq : (a b : Option String) → same_value a b ≡ true → a ≡ b
same_value-eq none none h = refl
same_value-eq none (some b) h = absurd (cc h)
same_value-eq (some a) none h = absurd (cc h)
same_value-eq (some a) (some b) h = ground (arith, h, eq_iff a b)

abbrev Agree : Fields → Fields → Type 0
Agree a b = (key : String) → lookup key a ≡ lookup key b

agrees-Agree : (c a b : Fields) → Agree a b → agrees c a b ≡ true
unfolding agrees
agrees-Agree [] a b h = refl
agrees-Agree ((k, v) ∷ rest) a b h =
    ground (arith, h k, same_value_refl (lookup k b), agrees-Agree rest a b h)

-- a key that the walk has met has the same value in both
agrees-lookup :
    (c a b : Fields) (key value : String)
    → agrees c a b ≡ true
    → lookup key c ≡ some value
    → lookup key a ≡ lookup key b
unfolding agrees lookup
agrees-lookup [] a b key value h k = absurd (cc k)
agrees-lookup ((j, v) ∷ rest) a b key value h k = ground (
  arith,
  h,
  k,
  eq_iff j key,
  same_value-eq (lookup j a) (lookup j b),
  agrees-lookup rest a b key value,
)

same-lookup :
    (a b : Fields) (key : String) (x y : Option String)
    → agrees a a b ≡ true
    → agrees b a b ≡ true
    → lookup key a ≡ x
    → lookup key b ≡ y
    → lookup key a ≡ lookup key b
same-lookup a b key none none h k e f = e ∙ sym f
same-lookup a b key (some x) y h k e f = agrees-lookup a a b key x h e
same-lookup a b key none (some y) h k e f = agrees-lookup b a b key y k f

pub same_fields-lookup : (a b : Fields) → (same_fields a b ≡ true) ↔ Agree a b
unfolding same_fields
same_fields-lookup a b = (
  λ h. λ key.
      same-lookup a b key (lookup key a) (lookup key b) (ground (arith, h)) (ground (arith, h)) refl
        refl,
  λ h. ground (arith, agrees-Agree a a b h, agrees-Agree b a b h),
)

pub lookup-delete_keys :
    (ks : List String) (m : Fields) (key : String)
    → lookup key (delete_keys ks m) ≡ (if has key ks then none else lookup key m)
unfolding delete_keys has
lookup-delete_keys [] m key = refl
lookup-delete_keys (k ∷ ks) m key =
    ground (arith, lookup-delete_keys ks (remove k m) key, lookup-remove k key m)
