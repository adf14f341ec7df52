-- ===== src/Tests/Encodings.antt =====
-- The theorems on the encoding of user data, with a small stand-in for base64: a leading b is a layer.
use cluster_api_provider_vsp.Prelude.{
  String, false, ◌≡◌, refl, ap, Option, none, some, is_empty, arith, if◌then◌else◌, ◌==◌,
}
use Prim.Native.Char.{code}
use Prim.Native.String.{◌++◌}
use cluster_api_provider_vsp.Vm.Extra.{Base64, decode_all, encode_data}
use cluster_api_provider_vsp.Vm.Extra.Encoding.{
  Shrinks, Layer, top, under, IsPlain, encode_data-IsPlain, encode_data-stuck,
}

abbrev decode_layer : String → Option String
decode_layer String.[] = some ""
decode_layer (String.◌∷◌ c rest) = if code c == b'b' then some rest else none

abbrev layers : Base64
layers = record { decode = decode_layer; encode = λ plain. "b" ++ plain }

layers-Shrinks : Shrinks layers
layers-Shrinks String.[] plain e h = absurd (cc (e, h))
layers-Shrinks (String.◌∷◌ c rest) plain e h = ground (arith, e, h)

hi_is_full : (d q : String) → Layer layers d q → d ≡ "hi" → is_empty q ≡ false
hi_is_full d q top e = ap is_empty e
hi_is_full d q (under g l) e = absurd (cc (g, ap decode_layer e))

bhi_is_full : (d q : String) → Layer layers d q → d ≡ "bhi" → is_empty q ≡ false
bhi_is_full d q top e = ap is_empty e
bhi_is_full d q (under g l) e = hi_is_full _ q l (cc (g, ap decode_layer e))

encode_data-IsPlain_example :
    (p : IsPlain layers "bhi" (decode_all layers 4 "bhi")) × (encode_data layers 4 "bhi"
      ≡ some ("b" ++ p.plain))
encode_data-IsPlain_example =
    encode_data-IsPlain layers "bhi" layers-Shrinks (λ q l. bhi_is_full "bhi" q l refl)

encode_data-stuck_example : encode_data layers 1000 "b" ≡ none
encode_data-stuck_example = encode_data-stuck layers 1000 "b" "" refl refl (under refl top) refl
