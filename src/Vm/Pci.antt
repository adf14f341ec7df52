-- ===== src/Vm/Pci.antt =====
-- The PCI devices that a VM lacks (pkg/services/govmomi/pci/device.go).
pub mod Missing
use Prim.Native.String.{◌++◌}
use cluster_api_provider_vsp.Prelude.{
  ℕ, ◌+◌, ◌-◌, String, Option, none, some, List, [], ◌∷◌, is_empty, ltb, if◌then◌else◌, lookup,
  insert, deref,
}
use cluster_api_provider_vsp.Errors.{Outcome, ok, err, nil_pointer}
use cluster_api_provider_vsp.Api.{PciDeviceSpec}
use cluster_api_provider_vsp.Decimal.{decimal}

abbrev pair_key : Option ℕ → Option ℕ → Outcome String
pair_key none vendor = err nil_pointer
pair_key (some device) none = err nil_pointer
pair_key (some device) (some vendor) = ok (decimal device ++ "-" ++ decimal vendor)

-- the vGPU profile, or the two identifiers
unfoldable pub construct_key : PciDeviceSpec → Outcome String
construct_key spec =
    if is_empty spec.vgpu_profile
    then pair_key spec.device_id spec.vendor_id
    else ok spec.vgpu_profile

-- the keys of the specs, in order
abbrev pub after_key :
    PciDeviceSpec
    → Outcome String
    → Outcome (List (String × PciDeviceSpec))
    → Outcome (List (String × PciDeviceSpec))
after_key spec (err e) rest = err e
after_key spec (ok key) (err e) = err e
after_key spec (ok key) (ok rest) = ok ((key, spec) ∷ rest)

unfoldable pub with_keys : List PciDeviceSpec → Outcome (List (String × PciDeviceSpec))
unfolding construct_key
with_keys [] = ok []
with_keys (spec ∷ specs) = after_key spec (construct_key spec) (with_keys specs)

-- the first loop: how many devices are expected for each key
unfoldable pub count_keys : List (String × PciDeviceSpec) → List (String × ℕ) → List (String × ℕ)
count_keys [] counts = counts
count_keys ((key, spec) ∷ rest) counts =
    count_keys rest (insert key (deref (lookup key counts) 0 + 1) counts)

-- the second loop: a spec is added while more are expected than are there
unfoldable pub pick_specs :
    (PciDeviceSpec → ℕ) → List (String × PciDeviceSpec) → List (String × ℕ) → List PciDeviceSpec
pick_specs present [] counts = []
pick_specs present ((key, spec) ∷ rest) counts =
    let expected = deref (lookup key counts) 0 in
    let added = spec ∷ pick_specs present rest (insert key (expected - 1) counts) in
    let left_out = pick_specs present rest counts in
    if ltb (present spec) expected then added else left_out

abbrev pub from_keys :
    (PciDeviceSpec → ℕ) → Outcome (List (String × PciDeviceSpec)) → Outcome (List PciDeviceSpec)
from_keys present (err e) = err e
from_keys present (ok keyed) = ok (pick_specs present keyed (count_keys keyed []))

-- `present` answers how many devices of the VM have the backing of a spec.
unfoldable pub calculate_devices_to_be_added :
    List PciDeviceSpec → (PciDeviceSpec → ℕ) → Outcome (List PciDeviceSpec)
unfolding with_keys count_keys pick_specs
calculate_devices_to_be_added specs present = from_keys present (with_keys specs)
