-- ===== src/Vm/Extra.antt =====
-- The extra configuration of a VM (pkg/services/govmomi/extra/config.go): user data and metadata,
-- encoded in base64.
pub mod Encoding
use cluster_api_provider_vsp.Prelude.{
  ℕ, zero, suc, String, Option, none, some, List, [], ◌∷◌, is_empty, if◌then◌else◌,
}
use mathlib.Core.List

-- `base64.StdEncoding`: decoding may answer an error
pub record Base64 : Type 0 where
  pub decode : String → Option String
  pub encode : String → String

-- `extra.Config`: keys and values
abbrev pub ExtraConfig : Type 0
ExtraConfig = List (String × String)

abbrev pub deeper : String → (String → Option String) → Option String → Option String
deeper content rest none = some content
deeper content rest (some decoded) = rest decoded

module _ (b : Base64) where
  -- The loop of `encode`, which decodes while it can. None: the fuel is out.
  unfoldable pub decode_all : ℕ → String → Option String
  decode_all zero content = none
  decode_all (suc fuel) content = deeper content (decode_all fuel) (b.decode content)

  abbrev pub encoded : Option String → Option String
  encoded none = none
  encoded (some plain) = some (b.encode plain)

  unfoldable pub encode_data : ℕ → String → Option String
  unfolding decode_all
  encode_data fuel content = if is_empty content then some "" else encoded (decode_all fuel content)

  abbrev pub with_value : String → String → ExtraConfig → Option String → Option ExtraConfig
  with_value key encoding_key config none = none
  with_value key encoding_key config (some value) =
      some (List.◌++◌ config ((key, value) ∷ (encoding_key, "base64") ∷ []))

  unfoldable pub set_user_data : ℕ → String → String → String → ExtraConfig → Option ExtraConfig
  unfolding encode_data
  set_user_data fuel key encoding_key content config =
      with_value key encoding_key config (encode_data fuel content)

  unfoldable pub set_cloud_init_user_data : ℕ → String → ExtraConfig → Option ExtraConfig
  unfolding set_user_data
  set_cloud_init_user_data fuel =
      set_user_data fuel "guestinfo.userdata" "guestinfo.userdata.encoding"

  unfoldable pub set_cloud_init_metadata : ℕ → String → ExtraConfig → Option ExtraConfig
  unfolding set_user_data
  set_cloud_init_metadata fuel =
      set_user_data fuel "guestinfo.metadata" "guestinfo.metadata.encoding"

  unfoldable pub set_ignition_user_data : ℕ → String → ExtraConfig → Option ExtraConfig
  unfolding set_user_data
  set_ignition_user_data fuel =
      set_user_data fuel "guestinfo.ignition.config.data" "guestinfo.ignition.config.data.encoding"
