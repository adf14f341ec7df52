-- ===== src/Ipam/Gateways.antt =====
-- The gateways of one device agree (pkg/services/govmomi/ipam: BuildState, parseGateway).
use cluster_api_provider_vsp.Prelude.{
  String, true, false, ◌≡◌, refl, ◌∙◌, some, List, [], ◌∷◌, arith, is_empty, is_nil, eq_iff,
}
use cluster_api_provider_vsp.Errors.{Error}
use cluster_api_provider_vsp.Ipam.{IpAddress, Prefix, Netip, IpamDeviceConfig}
use cluster_api_provider_vsp.Ipam.Parse.{
  are_gateways_mismatched, check_gateway4, check_gateway6, parse_gateway,
}
use cluster_api_provider_vsp.Ipam.State.{Parsing, parse_address, parse_addresses}

-- what the device's network asks for, or nothing
abbrev pub IsAllowed : String → String → Type 0
IsAllowed asked gateway = is_empty asked ≡ false → gateway ≡ asked

module _ (n : Netip) where
  -- the gateway of an address is the device's for its family, and one that its network allows
  pub record AgreesWith (c : IpamDeviceConfig) (a : IpAddress) : Type 0 where
    pub gateway4 :
        is_empty a.gateway ≡ false
        → n.parse_addr a.gateway ≡ some true
        → (c.ipam_config_gateway4 ≡ a.gateway) × IsAllowed c.network_spec_gateway4 a.gateway
    pub gateway6 :
        is_empty a.gateway ≡ false
        → n.parse_addr a.gateway ≡ some false
        → (c.ipam_config_gateway6 ≡ a.gateway) × IsAllowed c.network_spec_gateway6 a.gateway

  -- what no turn of the loop changes
  pub record IsLater (s s' : Parsing) : Type 0 where
    pub mac : s'.config.mac_address ≡ s.config.mac_address
    pub spec4 : s'.config.network_spec_gateway4 ≡ s.config.network_spec_gateway4
    pub spec6 : s'.config.network_spec_gateway6 ≡ s.config.network_spec_gateway6
    kept4 :
        is_empty s.config.ipam_config_gateway4 ≡ false
        → s'.config.ipam_config_gateway4 ≡ s.config.ipam_config_gateway4
    kept6 :
        is_empty s.config.ipam_config_gateway6 ≡ false
        → s'.config.ipam_config_gateway6 ≡ s.config.ipam_config_gateway6
    errors : is_nil s'.errors ≡ true → is_nil s.errors ≡ true

  pub parse_address-errors :
      (a : IpAddress) (c : IpamDeviceConfig) (ps : List Prefix) (es : List Error)
      → is_nil (parse_address n a (record { config = c; prefixes = ps; errors = es })).errors ≡ true
      → is_nil es ≡ true
  unfolding parse_address parse_gateway check_gateway4 check_gateway6 are_gateways_mismatched
  parse_address-errors a c ps [] h = refl
  parse_address-errors a c ps (e ∷ es) h = ground (arith, h)

  parse_address-IsLater : (a : IpAddress) (s : Parsing) → IsLater s (parse_address n a s)
  unfolding parse_address parse_gateway check_gateway4 check_gateway6 are_gateways_mismatched
  parse_address-IsLater a s = record {
    mac = ground arith;
    spec4 = ground arith;
    spec6 = ground arith;
    kept4 = ground (arith, eq_iff s.config.ipam_config_gateway4 a.gateway);
    kept6 = ground (arith, eq_iff s.config.ipam_config_gateway6 a.gateway);
    errors = parse_address-errors a s.config s.prefixes s.errors;
  }

  IsLater-refl : (s : Parsing) → IsLater s s
  IsLater-refl s = record {
    mac = refl;
    spec4 = refl;
    spec6 = refl;
    kept4 = λ h. refl;
    kept6 = λ h. refl;
    errors = λ h. h;
  }

  IsLater-trans : (s t u : Parsing) → IsLater s t → IsLater t u → IsLater s u
  IsLater-trans s t u h k = record {
    mac = k.mac ∙ h.mac;
    spec4 = k.spec4 ∙ h.spec4;
    spec6 = k.spec6 ∙ h.spec6;
    kept4 = λ e. ground (arith, e, h.kept4 e, k.kept4);
    kept6 = λ e. ground (arith, e, h.kept6 e, k.kept6);
    errors = λ e. h.errors (k.errors e);
  }

  pub parse_addresses-IsLater :
      (rest : List IpAddress) (s : Parsing) → IsLater s (parse_addresses n rest s)
  unfolding parse_addresses
  parse_addresses-IsLater [] s = IsLater-refl s
  parse_addresses-IsLater (a ∷ rest) s =
      IsLater-trans s (parse_address n a s) _ (parse_address-IsLater a s)
        (parse_addresses-IsLater rest (parse_address n a s))

  pub parse_addresses-errors :
      (rest : List IpAddress) (s : Parsing)
      → is_nil (parse_addresses n rest s).errors ≡ true
      → is_nil s.errors ≡ true
  parse_addresses-errors rest s h = (parse_addresses-IsLater rest s).errors h

  -- an address that is taken agrees with the device as it is then
  parse_address-AgreesWith :
      (a : IpAddress) (c : IpamDeviceConfig) (ps : List Prefix) (es : List Error)
      → is_nil (parse_address n a (record { config = c; prefixes = ps; errors = es })).errors ≡ true
      → AgreesWith (parse_address n a (record { config = c; prefixes = ps; errors = es })).config a
  unfolding parse_address parse_gateway check_gateway4 check_gateway6 are_gateways_mismatched
  parse_address-AgreesWith a c ps [] h = record {
    gateway4 = ground (arith, h, eq_iff c.network_spec_gateway4 a.gateway);
    gateway6 = ground (arith, h, eq_iff c.network_spec_gateway6 a.gateway);
  }
  parse_address-AgreesWith a c ps (e ∷ es) h =
      absurd (ground (arith, h, parse_address-errors a c ps (e ∷ es) h))

  AgreesWith-later :
      (a : IpAddress) (s t : Parsing) → IsLater s t → AgreesWith s.config a → AgreesWith t.config a
  AgreesWith-later a s t l g = record {
    gateway4 = λ h k. ground (arith, h, g.gateway4 h k, l.kept4, l.spec4);
    gateway6 = λ h k. ground (arith, h, g.gateway6 h k, l.kept6, l.spec6);
  }

  abbrev pub AllAgree : IpamDeviceConfig → List IpAddress → Type 0
  AllAgree c [] = Unit
  AllAgree c (a ∷ rest) = AgreesWith c a × AllAgree c rest

  pub parse_addresses-AllAgree :
      (addresses : List IpAddress) (s : Parsing)
      → is_nil (parse_addresses n addresses s).errors ≡ true
      → AllAgree (parse_addresses n addresses s).config addresses
  unfolding parse_addresses
  parse_addresses-AllAgree [] s h = tt
  parse_addresses-AllAgree (a ∷ rest) s h =
      let next = parse_address n a s in
      let later = parse_addresses-IsLater rest next in
      (
        AgreesWith-later a next (parse_addresses n rest next) later
            (parse_address-AgreesWith a s.config s.prefixes s.errors (later.errors h)),
        parse_addresses-AllAgree rest next h,
      )
