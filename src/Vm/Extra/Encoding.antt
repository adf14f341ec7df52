-- ===== src/Vm/Extra/Encoding.antt =====
-- What the encoding of user data and metadata (pkg/services/govmomi/extra/config.go) answers, and
-- whether it ends.
use cluster_api_provider_vsp.Prelude.{
  ℕ, zero, suc, ◌<◌, ◌≡◌, refl, String, true, false, Option, none, some, is_empty, arith,
}
use cluster_api_provider_vsp.Vm.Extra.{Base64, deeper, decode_all, encode_data}

-- the number of bytes
abbrev pub size : String → ℕ
size String.[] = 0
size (String.◌∷◌ c s) = suc (size s)

-- decoding gives fewer bytes, unless there were none to decode but line breaks
abbrev pub Shrinks : Base64 → Type 0
Shrinks b =
    (content plain : String)
    → b.decode content ≡ some plain
    → is_empty plain ≡ false
    → size plain < size content

-- the data, and what is under its layers of base64
pub data Layer (b : Base64) : String → String → Type 0 where
  top : {d : String} → Layer b d d
  under : {d p q : String} → b.decode d ≡ some p → Layer b p q → Layer b d q

-- decoded to the end: the data under the last layer
pub record IsPlain (b : Base64) (d : String) (r : Option String) : Type 0 where
  pub plain : String
  pub result : r ≡ some plain
  pub layer : Layer b d plain
  pub last : b.decode plain ≡ none

module _ (b : Base64) where
  decode_all-IsPlain :
      (fuel : ℕ) (d : String)
      → Shrinks b
      → size d < fuel
      → ((q : String) → Layer b d q → is_empty q ≡ false)
      → IsPlain b d (decode_all b fuel d)
  unfolding decode_all
  decode_all-IsPlain zero d shrinks h full = absurd (omega (arith, h))
  decode_all-IsPlain (suc fuel) d shrinks h full = by_decoded (b.decode d) refl (λ p e.
      decode_all-IsPlain fuel p shrinks (omega (arith, h, shrinks d p e (full p (under e top))))
        (λ q l. full q (under e l)))
    where
      by_decoded :
          (r : Option String)
          → b.decode d ≡ r
          → ((p : String) → b.decode d ≡ some p → IsPlain b p (decode_all b fuel p))
          → IsPlain b d (deeper d (decode_all b fuel) r)
      by_decoded none e k = record { plain = d; result = refl; layer = top; last = e }
      by_decoded (some p) e k = record {
        plain = (k p e).plain;
        result = (k p e).result;
        layer = under e (k p e).layer;
        last = (k p e).last;
      }

  -- a layer that is empty once decoded never comes to an end
  decode_all-empty : (fuel : ℕ) → b.decode "" ≡ some "" → decode_all b fuel "" ≡ none
  unfolding decode_all
  decode_all-empty zero e = refl
  decode_all-empty (suc fuel) e = rw e (decode_all-empty fuel e)

  decode_all-stuck :
      (fuel : ℕ) (d q : String)
      → b.decode "" ≡ some ""
      → Layer b d q
      → is_empty q ≡ true
      → decode_all b fuel d ≡ none
  unfolding decode_all
  decode_all-stuck zero d q e l h = refl
  decode_all-stuck (suc fuel) d q e (under g l) h = rw g (decode_all-stuck fuel _ q e l h)
  decode_all-stuck (suc fuel) String.[] q e top h = rw e (decode_all-empty fuel e)
  decode_all-stuck (suc fuel) (String.◌∷◌ c s) q e top h = absurd (cc h)

  -- If decoding gives fewer bytes unless it gives none, and no layer of the data is empty, then
  -- with one step more than the data has bytes the encoding ends, and answers the encoding of the
  -- data under the last layer of base64, which does not decode.
  pub encode_data-IsPlain :
      (d : String)
      → Shrinks b
      → ((q : String) → Layer b d q → is_empty q ≡ false)
      → (p : IsPlain b d (decode_all b (suc (size d)) d)) × (encode_data b (suc (size d)) d
          ≡ some (b.encode p.plain))
  unfolding encode_data
  encode_data-IsPlain d shrinks full = (p, rw (full d top, p.result) refl)
    where
      p : IsPlain b d (decode_all b (suc (size d)) d)
      p = decode_all-IsPlain (suc (size d)) d shrinks (omega arith) full

  -- If no bytes decode to no bytes without an error, the data is not empty, and some layer of it is
  -- empty once decoded, then no number of steps lets the encoding end.
  pub encode_data-stuck :
      (fuel : ℕ) (d q : String)
      → b.decode "" ≡ some ""
      → is_empty d ≡ false
      → Layer b d q
      → is_empty q ≡ true
      → encode_data b fuel d ≡ none
  unfolding encode_data
  encode_data-stuck fuel d q e full l h = rw (full, decode_all-stuck fuel d q e l h) refl
