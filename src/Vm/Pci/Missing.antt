-- ===== src/Vm/Pci/Missing.antt =====
-- The number of devices of each key that are added (pkg/services/govmomi/pci/device.go).
use cluster_api_provider_vsp.Prelude.{
  ℕ, suc, ◌+◌, ◌-◌, String, Bool, true, false, ◌≡◌, refl, none, List, [], ◌∷◌, arith, str_eq, leb,
  if◌then◌else◌, deref, lookup, insert, lookup-insert, eq_iff,
}
use cluster_api_provider_vsp.Errors.{Outcome, ok, err}
use cluster_api_provider_vsp.Api.{PciDeviceSpec}
use cluster_api_provider_vsp.Vm.Pci.{
  construct_key, after_key, with_keys, count_keys, pick_specs, from_keys,
  calculate_devices_to_be_added,
}

abbrev is_key : String → Outcome String → Bool
is_key key (ok k) = str_eq k key
is_key key (err e) = false

abbrev one_if : Bool → ℕ → ℕ
one_if true n = suc n
one_if false n = n

-- how many of the specs have the key
abbrev pub count_specs : String → List PciDeviceSpec → ℕ
count_specs key [] = 0
count_specs key (s ∷ ss) = one_if (is_key key (construct_key s)) (count_specs key ss)

abbrev count_keyed : String → List (String × PciDeviceSpec) → ℕ
count_keyed key [] = 0
count_keyed key ((k, s) ∷ rest) = one_if (str_eq k key) (count_keyed key rest)

abbrev IsKeyed : List (String × PciDeviceSpec) → Type 0
IsKeyed [] = Unit
IsKeyed ((k, s) ∷ rest) = (construct_key s ≡ ok k) × IsKeyed rest

abbrev least : ℕ → ℕ → ℕ
least a b = if leb a b then a else b

count-count_keys :
    (key : String) (keyed : List (String × PciDeviceSpec)) (counts : List (String × ℕ))
    → deref (lookup key (count_keys keyed counts)) 0
      ≡ deref (lookup key counts) 0 + count_keyed key keyed
unfolding count_keys
count-count_keys key [] counts = omega arith
count-count_keys key ((k, s) ∷ rest) counts = ground (
  arith,
  eq_iff k key,
  lookup-insert k key (deref (lookup k counts) 0 + 1) counts,
  count-count_keys key rest (insert k (deref (lookup k counts) 0 + 1) counts),
)

lookup-nil : (key : String) → lookup {V = ℕ} key [] ≡ none
unfolding lookup
lookup-nil key = refl

module _ (present : Outcome String → ℕ) where
  count-pick_specs :
      (key : String) (keyed : List (String × PciDeviceSpec)) (counts : List (String × ℕ))
      → IsKeyed keyed
      → count_specs key (pick_specs (λ s. present (construct_key s)) keyed counts)
        ≡ least (count_keyed key keyed) (deref (lookup key counts) 0 - present (ok key))
  unfolding pick_specs
  count-pick_specs key [] counts h = ground arith
  count-pick_specs key ((k, s) ∷ rest) counts (h, hs) = rw h (
      ground (
        arith,
        eq_iff k key,
        lookup-insert k key (deref (lookup k counts) 0 - 1) counts,
        count-pick_specs key rest (insert k (deref (lookup k counts) 0 - 1) counts) hs,
        count-pick_specs key rest counts hs,
      ))

abbrev IsWithKeys : String → List PciDeviceSpec → Outcome (List (String × PciDeviceSpec)) → Type 0
IsWithKeys key specs (err e) = Unit
IsWithKeys key specs (ok keyed) = IsKeyed keyed × (count_specs key specs ≡ count_keyed key keyed)

after_key-IsWithKeys :
    (key : String) (s : PciDeviceSpec) (ss : List PciDeviceSpec) (r : Outcome String)
    (rest : Outcome (List (String × PciDeviceSpec)))
    → construct_key s ≡ r
    → IsWithKeys key ss rest
    → IsWithKeys key (s ∷ ss) (after_key s r rest)
after_key-IsWithKeys key s ss (err e) rest h k = tt
after_key-IsWithKeys key s ss (ok j) (err e) h k = tt
after_key-IsWithKeys key s ss (ok j) (ok keyed) h (ks, n) = ((h, ks), ground (arith, h, n))

with_keys-IsWithKeys :
    (key : String) (specs : List PciDeviceSpec) → IsWithKeys key specs (with_keys specs)
unfolding with_keys
with_keys-IsWithKeys key [] = (tt, refl)
with_keys-IsWithKeys key (s ∷ ss) =
    after_key-IsWithKeys key s ss (construct_key s) (with_keys ss) refl
      (with_keys-IsWithKeys key ss)

-- If CalculateDevicesToBeAdded answers a list, and how many devices are present depends on a spec's
-- key alone, then for each key the list has as many specs as the VM's spec has, less the devices
-- that are present, and none where that is below 0.
pub calculate-missing :
    (specs added : List PciDeviceSpec) (present : Outcome String → ℕ) (key : String)
    → calculate_devices_to_be_added specs (λ s. present (construct_key s)) ≡ ok added
    → count_specs key added ≡ count_specs key specs - present (ok key)
unfolding calculate_devices_to_be_added
calculate-missing specs added present key h =
    by_keys (with_keys specs) (with_keys-IsWithKeys key specs) h
  where
    by_keys :
        (r : Outcome (List (String × PciDeviceSpec)))
        → IsWithKeys key specs r
        → from_keys (λ s. present (construct_key s)) r ≡ ok added
        → count_specs key added ≡ count_specs key specs - present (ok key)
    by_keys (err e) k g = ground (arith, g)
    by_keys (ok keyed) (ks, n) g = ground (
      arith,
      g,
      n,
      count-pick_specs present key keyed (count_keys keyed []) ks,
      count-count_keys key keyed [],
      lookup-nil key,
    )
