-- ===== src/Webhook/Vlans.antt =====
-- The VLANs of a VSphereMachine (internal/webhooks/vmware/vspheremachine.go: validateVLANs).
use cluster_api_provider_vsp.Prelude.{
  ℕ, String, Bool, true, false, not, ◌&&◌, ◌||◌, ◌≡◌, ◌≢◌, refl, ◌↔◌, Option, none, some, List, [],
  ◌∷◌, ◌++◌, arith, str_eq, ◌==◌, eq_iff, is_nil, if◌then◌else◌,
}
use cluster_api_provider_vsp.Group.Names.{has}
use cluster_api_provider_vsp.Webhook.{NetworkInterface, Vlan, MachineNetwork, Gates}

abbrev pub primary_interface_name : String
primary_interface_name = "eth0"

abbrev pub nsx_vpc_network_provider : String
nsx_vpc_network_provider = "VPC"

unfoldable pub interface_names : List NetworkInterface → List String
interface_names [] = []
interface_names (i ∷ rest) = i.name ∷ interface_names rest

-- an ID on a link, as the maps in `vlanIDsPerLink` have them
unfoldable pub has_id : String → ℕ → List (String × ℕ) → Bool
has_id link id [] = false
has_id link id ((l, n) ∷ rest) =
    let later = has_id link id rest in if str_eq l link && n == id then true else later

module _ (secondary : List String) where
  -- the error of the name, and the names that are taken after it
  unfoldable pub name_errors : List String → Vlan → List String
  unfolding has
  name_errors taken v =
      if has v.name taken
      then "VLAN name must be unique" ∷ []
      else (if str_eq v.name primary_interface_name
          then "VLAN name is already in use by the primary interface" ∷ []
          else (if has v.name secondary
              then "VLAN name is already in use by a secondary interface" ∷ []
              else []))

  unfoldable pub link_errors : Vlan → List String
  unfolding has
  link_errors v =
      if has v.link secondary
      then []
      else "link must reference an existing secondary interface name" ∷ []

  abbrev pub id_errors : List (String × ℕ) → String → Option ℕ → List String
  id_errors ids link none = "VLAN ID cannot be unset" ∷ []
  id_errors ids link (some id) =
      if has_id link id ids
      then "VLAN ID %d is already used by VLAN %q on the same link %q" ∷ []
      else []

  -- a name or an ID that is refused is not noted
  abbrev pub noted_name : List String → List String → String → List String
  noted_name [] taken name = name ∷ taken
  noted_name (e ∷ es) taken name = taken

  abbrev pub noted_id : List String → List (String × ℕ) → String → Option ℕ → List (String × ℕ)
  noted_id [] ids link (some id) = (link, id) ∷ ids
  noted_id errors ids link id = ids

  -- the loop over the VLANs
  unfoldable pub vlan_errors : List String → List (String × ℕ) → List Vlan → List String
  unfolding name_errors link_errors
  vlan_errors taken ids [] = []
  vlan_errors taken ids (v ∷ vs) =
      let by_name = name_errors taken v in
      let by_id = id_errors ids v.link v.id in
      by_name
      ++ (link_errors v
          ++ (by_id
              ++ vlan_errors (noted_name by_name taken v.name) (noted_id by_id ids v.link v.id) vs))

  -- no entry has this link and this ID
  abbrev pub IsFresh : List (String × ℕ) → String → ℕ → Type 0
  IsFresh [] link id = Unit
  IsFresh ((l, n) ∷ rest) link id = (l ≡ link → n ≢ id) × IsFresh rest link id

  has_id-IsFresh :
      (ids : List (String × ℕ)) (link : String) (id : ℕ)
      → (has_id link id ids ≡ false) ↔ IsFresh ids link id
  unfolding has_id
  has_id-IsFresh [] link id = (λ h. tt, λ h. refl)
  has_id-IsFresh ((l, n) ∷ rest) link id =
      ground (arith, eq_iff l link, has_id-IsFresh rest link id)

  -- an ID is set, and no VLAN before it has it on the same link
  abbrev pub IsNewId : List (String × ℕ) → String → Option ℕ → Type 0
  IsNewId ids link none = ⊥
  IsNewId ids link (some id) = IsFresh ids link id

  abbrev pub with_id : List (String × ℕ) → String → Option ℕ → List (String × ℕ)
  with_id ids link none = ids
  with_id ids link (some id) = (link, id) ∷ ids

  abbrev pub AreValid : List String → List (String × ℕ) → List Vlan → Type 0
  AreValid taken ids [] = Unit
  AreValid taken ids (v ∷ vs) =
      (has v.name taken ≡ false)
      × (str_eq v.name primary_interface_name ≡ false)
      × (has v.name secondary ≡ false)
      × (has v.link secondary ≡ true)
      × IsNewId ids v.link v.id
      × AreValid (v.name ∷ taken) (with_id ids v.link v.id) vs

  is_nil-append : (xs ys : List String) → is_nil (xs ++ ys) ≡ (is_nil xs && is_nil ys)
  is_nil-append [] ys = refl
  is_nil-append (x ∷ xs) ys = refl

  -- one turn of the loop, by the ID
  turn-AreValid :
      (taken : List String) (ids : List (String × ℕ)) (name link : String) (id : Option ℕ)
      (vs : List Vlan)
      → ((is_nil (vlan_errors (name ∷ taken) (with_id ids link id) vs) ≡ true)
          ↔ AreValid (name ∷ taken) (with_id ids link id) vs)
      → (is_nil (vlan_errors taken ids (record { name = name; link = link; id = id } ∷ vs)) ≡ true)
        ↔ AreValid taken ids (record { name = name; link = link; id = id } ∷ vs)
  unfolding vlan_errors name_errors link_errors
  turn-AreValid taken ids name link none vs h = ground (arith, h)
  turn-AreValid taken ids name link (some id) vs h = ground (arith, h, has_id-IsFresh ids link id)

  vlan_errors-AreValid :
      (taken : List String) (ids : List (String × ℕ)) (vs : List Vlan)
      → (is_nil (vlan_errors taken ids vs) ≡ true) ↔ AreValid taken ids vs
  unfolding vlan_errors
  vlan_errors-AreValid taken ids [] = (λ h. tt, λ h. refl)
  vlan_errors-AreValid taken ids (v ∷ vs) =
      turn-AreValid taken ids v.name v.link v.id vs
        (vlan_errors-AreValid (v.name ∷ taken) (with_id ids v.link v.id) vs)

abbrev pub is_defined : Option NetworkInterface → List NetworkInterface → Bool
is_defined (some i) secondary = true
is_defined none secondary = not (is_nil secondary)

unfoldable pub validate_vlans : Gates → String → MachineNetwork → List String
unfolding vlan_errors interface_names
validate_vlans gates provider network =
    if not gates.vlan_subinterface
    then "vlans can only be set when feature gate VLANSubinterface is enabled" ∷ []
    else (if not (str_eq provider nsx_vpc_network_provider)
        then "vlans can only be set when network provider is %s" ∷ []
        else (if not (is_defined network.primary network.secondary) || is_nil network.secondary
            then "vlans can only be specified if there are corresponding secondary interfaces" ∷ []
            else vlan_errors (interface_names network.secondary) [] [] network.vlans))

-- validateVLANs finds no error exactly where its feature gate is enabled, the provider is that of
-- VPCs, there are secondary interfaces, and each VLAN has a name that neither a VLAN before it nor
-- an interface has, a link to a secondary interface, and an ID that no VLAN before it has on that
-- link.
pub validate_vlans-AreValid :
    (gates : Gates) (provider : String) (network : MachineNetwork)
    → (is_nil (validate_vlans gates provider network) ≡ true) ↔ (
        (gates.vlan_subinterface ≡ true)
        × (provider ≡ nsx_vpc_network_provider)
        × (is_nil network.secondary ≡ false)
        × AreValid (interface_names network.secondary) [] [] network.vlans)
unfolding validate_vlans
validate_vlans-AreValid gates provider network = ground (
  arith,
  eq_iff provider nsx_vpc_network_provider,
  vlan_errors-AreValid (interface_names network.secondary) [] [] network.vlans,
)
