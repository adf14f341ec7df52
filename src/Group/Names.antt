-- ===== src/Group/Names.antt =====
-- The names of VirtualMachines (pkg/services/vmoperator/vmopmachine.go: GenerateVirtualMachineName,
-- pkg/util/template.go), their order, and the map from them to MachineDeployments.
use Prim.Native.Char.{code}
use Prim.Native.String.{len, slice}
use cluster_api_provider_vsp.Prelude.{
  ℕ, String, Bool, true, false, Option, none, some, List, [], ◌∷◌, ltb, ◌==◌, is_empty, str_eq,
  deref, if◌then◌else◌, lookup, insert,
}
use cluster_api_provider_vsp.Errors.{Error, Outcome, ok, err, errorf, wrapped}
use cluster_api_provider_vsp.Exec.{map_error}
use cluster_api_provider_vsp.Group.{VsphereMachine, GroupMember, VirtualMachineGroup}

-- the label that CAPI puts on the machines of a MachineDeployment
abbrev pub machine_deployment_name_label : String
machine_deployment_name_label = "cluster.x-k8s.io/deployment-name"

-- the value of a key of a map of texts; a missing key has the empty text
abbrev pub label_value : String → List (String × String) → String
label_value key m = deref (lookup key m) ""

-- text/template, as this code uses it: a template is parsed, and executed with the machine's name
pub record Templates : Type 0 where
  pub parse : String → Option Error
  pub execute : (template : String) → (machine_name : String) → Outcome String

abbrev pub max_name_length : ℕ
max_name_length = 63

-- `name[:maxNameLength]`, where the name is longer
unfoldable pub trimmed : String → String
trimmed name = if ltb max_name_length (len name) then slice name 0 max_name_length else name

abbrev pub trimmed_outcome : Outcome String → Outcome String
trimmed_outcome (ok name) = ok (trimmed name)
trimmed_outcome (err e) = err e

-- one turn of the loop: deleted machines and those of no MachineDeployment are left out
abbrev pub map_machine :
    VsphereMachine → Outcome String → List (String × String) → Outcome (List (String × String))
map_machine m (err e) names = err e
map_machine m (ok vm) names =
    let md = label_value machine_deployment_name_label m.labels in
    ok (if is_empty md then names else insert vm md names)

abbrev pub map_rest :
    (List (String × String) → Outcome (List (String × String)))
    → Outcome (List (String × String))
    → Outcome (List (String × String))
map_rest rest (ok names) = rest names
map_rest rest (err e) = err e

module _ (t : Templates) where
  abbrev pub execute_parsed : Option Error → String → String → Outcome String
  execute_parsed (some e) template name = err (wrapped "unable to parse template %q" e)
  execute_parsed none template name = trimmed_outcome (t.execute template name)

  unfoldable pub generate_machine_name_from_template : String → String → Outcome String
  unfolding trimmed
  generate_machine_name_from_template machine_name template =
      if is_empty machine_name
      then err (errorf "machine name can not be emmpty")
      else (if is_empty template
          then ok machine_name
          else execute_parsed (t.parse template) template machine_name)

  unfoldable pub generate_virtual_machine_name : String → String → Outcome String
  unfolding generate_machine_name_from_template
  generate_virtual_machine_name machine_name template =
      if is_empty template
      then ok machine_name
      else map_error (wrapped "failed to generate name for VirtualMachine")
          (generate_machine_name_from_template machine_name template)

  unfoldable pub map_machines :
      List VsphereMachine → List (String × String) → Outcome (List (String × String))
  unfolding generate_virtual_machine_name
  map_machines [] names = ok names
  map_machines (m ∷ ms) names =
      map_rest (λ acc. map_machines ms acc)
        (if m.is_deleted
          then ok names
          else map_machine m (generate_virtual_machine_name m.name m.naming_template) names)

  unfoldable pub get_virtual_machine_name_to_machine_deployment_mapping :
      List VsphereMachine → Outcome (List (String × String))
  unfolding map_machines
  get_virtual_machine_name_to_machine_deployment_mapping ms = map_machines ms []

-- The order of Go's strings: by bytes, which in UTF-8 is the order by code points.
unfoldable pub text_le : String → String → Bool
text_le String.[] t = true
text_le (String.◌∷◌ c s) String.[] = false
text_le (String.◌∷◌ c s) (String.◌∷◌ d t) =
    let rest = text_le s t in
    if ltb (code c) (code d) then true else (if code c == code d then rest else false)

unfoldable pub insert_sorted : String → List String → List String
unfolding text_le
insert_sorted x [] = x ∷ []
insert_sorted x (y ∷ ys) =
    let rest = insert_sorted x ys in if text_le x y then x ∷ y ∷ ys else y ∷ rest

-- `slices.Sorted`
unfoldable pub sorted : List String → List String
unfolding insert_sorted
sorted [] = []
sorted (x ∷ xs) = insert_sorted x (sorted xs)

-- `maps.Keys`
unfoldable pub keys : List (String × String) → List String
keys [] = []
keys ((k, v) ∷ rest) = k ∷ keys rest

abbrev pub names_of : List GroupMember → List String
names_of [] = []
names_of (m ∷ ms) = m.name ∷ names_of ms

abbrev pub first_group : List (List GroupMember) → List GroupMember
first_group [] = []
first_group (g ∷ gs) = g

unfoldable pub member_names : VirtualMachineGroup → List String
member_names g = names_of (first_group g.boot_order)

-- membership in a set of texts
unfoldable pub has : String → List String → Bool
has x [] = false
has x (y ∷ ys) = if str_eq y x then true else has x ys
