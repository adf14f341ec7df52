-- ===== src/Ipam/Written.antt =====
-- What BuildState writes of a device (pkg/services/govmomi/ipam/status.go).
use Prim.Native.String.{◌++◌}
use cluster_api_provider_vsp.Prelude.{
  String, true, false, ◌≡◌, refl, ◌∙◌, sym, ap, Option, none, some, List, [], ◌∷◌, arith, deref,
  is_nil, lookup,
}
use mathlib.Core.List
use cluster_api_provider_vsp.Decimal.{decimal}
use cluster_api_provider_vsp.Errors.{Error, Outcome, ok, err}
use cluster_api_provider_vsp.Api.{NetworkDeviceSpec}
use cluster_api_provider_vsp.Ipam.{IpAddress, Prefix, Netip, IpamDeviceConfig}
use cluster_api_provider_vsp.Ipam.Parse.{parsed_prefix, parse_address_with_prefix}
use cluster_api_provider_vsp.Ipam.State.{
  Parsing, prefixes_as_strings, with_prefix, parse_address, parse_addresses,
}
use cluster_api_provider_vsp.Ipam.Gateways.{AllAgree, parse_address-errors, parse_addresses-errors}

abbrev prefix_text : Option Prefix → String
prefix_text none = ""
prefix_text (some p) = p.text

abbrev outcome_text : Outcome Prefix → String
outcome_text (ok p) = p.text
outcome_text (err e) = ""

parsed_prefix-text : (o : Option Prefix) → outcome_text (parsed_prefix o) ≡ prefix_text o
parsed_prefix-text none = refl
parsed_prefix-text (some p) = refl

strings-snoc :
    (ps : List Prefix) (p : Prefix)
    → prefixes_as_strings (List.◌++◌ ps (p ∷ [])) ≡ List.◌++◌ (prefixes_as_strings ps) (p.text ∷ [])
unfolding prefixes_as_strings
strings-snoc [] p = refl
strings-snoc (q ∷ ps) p = ap (λ l. q.text ∷ l) (strings-snoc ps p)

pub strings-non_empty :
    (ps : List Prefix) (t : String) (ts : List String)
    → prefixes_as_strings ps ≡ t ∷ ts
    → is_nil ps ≡ false
unfolding prefixes_as_strings
strings-non_empty [] t ts h = absurd (cc h)
strings-non_empty (p ∷ ps) t ts h = refl

append_snoc :
    (xs ys : List String) (x : String)
    → List.◌++◌ (List.◌++◌ xs (x ∷ [])) ys ≡ List.◌++◌ xs (x ∷ ys)
append_snoc [] ys x = refl
append_snoc (y ∷ xs) ys x = ap (λ l. y ∷ l) (append_snoc xs ys x)

append_empty : (xs : List String) → List.◌++◌ xs [] ≡ xs
append_empty [] = refl
append_empty (x ∷ xs) = ap (λ l. x ∷ l) (append_empty xs)

abbrev pub macs : List IpamDeviceConfig → List String
macs [] = []
macs (c ∷ cs) = c.mac_address ∷ macs cs

module _ (n : Netip) where
  -- the addresses with their prefix lengths, as net/netip writes them
  abbrev pub texts : List IpAddress → List String
  texts [] = []
  texts (a ∷ rest) =
      prefix_text (n.parse_prefix (a.address ++ "/" ++ decimal (deref a.prefix 0))) ∷ texts rest

  with_prefix-texts :
      (a : IpAddress) (c : IpamDeviceConfig) (ps : List Prefix) (p : Outcome Prefix)
      → is_nil (with_prefix n a (record { config = c; prefixes = ps; errors = [] }) p).errors ≡ true
      → prefixes_as_strings
          (with_prefix n a (record { config = c; prefixes = ps; errors = [] }) p).prefixes
        ≡ List.◌++◌ (prefixes_as_strings ps) (outcome_text p ∷ [])
  with_prefix-texts a c ps (err e) h = absurd (cc h)
  with_prefix-texts a c ps (ok p) h = ground (arith, h, strings-snoc ps p)

  parse_address-texts :
      (a : IpAddress) (c : IpamDeviceConfig) (ps : List Prefix) (es : List Error)
      → is_nil (parse_address n a (record { config = c; prefixes = ps; errors = es })).errors ≡ true
      → prefixes_as_strings
          (parse_address n a (record { config = c; prefixes = ps; errors = es })).prefixes
        ≡ List.◌++◌ (prefixes_as_strings ps) (texts (a ∷ []))
  unfolding parse_address
  parse_address-texts a c ps [] h =
      with_prefix-texts a c ps (parse_address_with_prefix n a) h
      ∙ ap (λ t. List.◌++◌ (prefixes_as_strings ps) (t ∷ []))
          (parsed_prefix-text (n.parse_prefix (a.address ++ "/" ++ decimal (deref a.prefix 0))))
  parse_address-texts a c ps (e ∷ es) h =
      absurd (ground (arith, h, parse_address-errors n a c ps (e ∷ es) h))

  pub parse_addresses-texts :
      (addresses : List IpAddress) (s : Parsing)
      → is_nil (parse_addresses n addresses s).errors ≡ true
      → prefixes_as_strings (parse_addresses n addresses s).prefixes
        ≡ List.◌++◌ (prefixes_as_strings s.prefixes) (texts addresses)
  unfolding parse_addresses
  parse_addresses-texts [] s h = sym (append_empty (prefixes_as_strings s.prefixes))
  parse_addresses-texts (a ∷ rest) s h =
      let next = parse_address n a s in
      parse_addresses-texts rest next h
      ∙ ap (λ l. List.◌++◌ l (texts rest))
          (parse_address-texts a s.config s.prefixes s.errors
            (parse_addresses-errors n rest next h))
      ∙ append_snoc (prefixes_as_strings s.prefixes) (texts rest) _

  -- the configuration with the gateways that are written
  abbrev pub with_gateways : NetworkDeviceSpec → IpamDeviceConfig → IpamDeviceConfig
  with_gateways e c = record c {
    ipam_config_gateway4 = e.gateway4;
    ipam_config_gateway6 = e.gateway6;
  }

  -- What is written for a device that has addresses: all of them, and gateways that agree with
  -- those of the addresses.
  abbrev pub IsEntry : IpamDeviceConfig → List IpAddress → Option NetworkDeviceSpec → Type 0
  IsEntry c [] o = Unit
  IsEntry c (a ∷ rest) none = ⊥
  IsEntry c (a ∷ rest) (some e) =
      (e.ip_addrs ≡ texts (a ∷ rest)) × AllAgree n (with_gateways e c) (a ∷ rest)

  abbrev pub AreWritten : List (String × NetworkDeviceSpec) → List IpamDeviceConfig → Type 0
  AreWritten state [] = Unit
  AreWritten state (c ∷ cs) =
      IsEntry c c.ipam_addresses (lookup c.mac_address state) × AreWritten state cs

  pub AllAgree-same :
      (c c' : IpamDeviceConfig) (addresses : List IpAddress)
      → c'.ipam_config_gateway4 ≡ c.ipam_config_gateway4
      → c'.ipam_config_gateway6 ≡ c.ipam_config_gateway6
      → c'.network_spec_gateway4 ≡ c.network_spec_gateway4
      → c'.network_spec_gateway6 ≡ c.network_spec_gateway6
      → AllAgree n c addresses
      → AllAgree n c' addresses
  AllAgree-same c c' [] p q r s g = tt
  AllAgree-same c c' (a ∷ rest) p q r s (g, k) = (
    record {
      gateway4 = λ e f. ground (arith, e, f, p, r, g.gateway4 e f);
      gateway6 = λ e f. ground (arith, e, f, q, s, g.gateway6 e f);
    },
    AllAgree-same c c' rest p q r s k,
  )
