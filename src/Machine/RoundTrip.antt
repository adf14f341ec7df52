-- ===== src/Machine/RoundTrip.antt =====
-- Provider IDs and BIOS UUIDs back and forth (pkg/util/machines.go).
use Prim.Native.String.{◌++◌}
use Prim.Native.String.append
use cluster_api_provider_vsp.Prelude.{
  String, true, false, ◌≡◌, refl, Option, none, some, arith, ◌⊎◌, inl, inr, Bool-cases, if-both,
  is_empty,
}
use cluster_api_provider_vsp.Machine.ProviderId.{
  after_prefix, matches_uuid, provider_id_prefix, uuid_or_empty, convert_provider_id_to_uuid,
  convert_uuid_to_provider_id,
}

after_prefix-append : (p s : String) → after_prefix p (p ++ s) ≡ some s
unfolding after_prefix
after_prefix-append String.[] s = rw (append.nil s) refl
after_prefix-append (String.◌∷◌ c p) s =
    rw (append.cons c p s) (ground (arith, after_prefix-append p s))

pub empty-matches : (uuid : String) → matches_uuid uuid ≡ true → is_empty uuid ≡ false
unfolding matches_uuid
empty-matches String.[] h = absurd (cc h)
empty-matches (String.◌∷◌ c s) h = refl

pub prefix-non_empty : (s : String) → is_empty (provider_id_prefix ++ s) ≡ false
prefix-non_empty s = rw (append.cons "v" "sphere://" s) refl

-- A text of the form of a UUID comes back from the provider ID that it is converted to.
pub convert_uuid-convert_provider_id :
    (uuid : String)
    → matches_uuid uuid ≡ true
    → convert_provider_id_to_uuid (some (convert_uuid_to_provider_id uuid)) ≡ uuid
unfolding convert_provider_id_to_uuid convert_uuid_to_provider_id
convert_uuid-convert_provider_id uuid h = ground (
  arith,
  h,
  after_prefix-append provider_id_prefix uuid,
  empty-matches uuid h,
  prefix-non_empty uuid,
)

abbrev IsUuidOrEmpty : String → Type 0
IsUuidOrEmpty u = (u ≡ "") ⊎ (matches_uuid u ≡ true)

uuid_or_empty-IsUuidOrEmpty : (rest : Option String) → IsUuidOrEmpty (uuid_or_empty rest)
uuid_or_empty-IsUuidOrEmpty none = inl refl
uuid_or_empty-IsUuidOrEmpty (some u) = elim (Bool-cases (matches_uuid u)) [
  | inl e ↦ rw e (inr e)
  | inr e ↦ rw e (inl refl)
]

convert-IsUuidOrEmpty : (id : Option String) → IsUuidOrEmpty (convert_provider_id_to_uuid id)
unfolding convert_provider_id_to_uuid
convert-IsUuidOrEmpty none = inl refl
convert-IsUuidOrEmpty (some id) =
    if-both IsUuidOrEmpty (is_empty id) (inl refl)
      (uuid_or_empty-IsUuidOrEmpty (after_prefix provider_id_prefix id))

-- What was extracted from a provider ID is a UUID, or nothing: writing it again and reading it
-- changes nothing.
pub convert_provider_id-stable :
    (id : Option String)
    → convert_provider_id_to_uuid
        (some (convert_uuid_to_provider_id (convert_provider_id_to_uuid id)))
      ≡ convert_provider_id_to_uuid id
unfolding convert_uuid_to_provider_id convert_provider_id_to_uuid
convert_provider_id-stable id = elim (convert-IsUuidOrEmpty id) [
  | inl e ↦ rw e refl
  | inr m ↦ convert_uuid-convert_provider_id (convert_provider_id_to_uuid id) m
]
