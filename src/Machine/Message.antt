-- ===== src/Machine/Message.antt =====
-- A list of machines for messages (pkg/util/machines.go: MachinesAsString).
use Prim.Native.String.{◌++◌}
use cluster_api_provider_vsp.Prelude.{
  ℕ, suc, String, true, ◌≡◌, refl, List, [], ◌∷◌, arith, length, ltb, ◌==◌, if◌then◌else◌, not,
  ◌&&◌, ◌+◌,
}

-- the namespace and the name of a `Machine`
pub record MachineKey : Type 0 where
  pub namespace : String
  pub name : String

abbrev pub key_text : MachineKey → String
key_text m = m.namespace ++ "/" ++ m.name

-- One turn of the loop. Where neither condition holds the format is empty, and so is what it
-- makes of its arguments, but for what Go says of them.
unfoldable pub add_machine : ℕ → ℕ → String → MachineKey → String
add_machine total count message m =
    if count == 1
    then key_text m
    else (if ltb 1 count && not (count == total)
        then message ++ ", " ++ key_text m
        else (if count == total
            then message ++ " and " ++ key_text m
            else "%!(EXTRA string=" ++ message ++ ", string=" ++ m.namespace ++ ", string="
              ++ m.name ++ ")"))

unfoldable pub add_machines : ℕ → ℕ → String → List MachineKey → String
unfolding add_machine
add_machines total count message [] = message
add_machines total count message (m ∷ ms) =
    add_machines total (count + 1) (add_machine total count message m) ms

unfoldable pub machines_as_string : List MachineKey → String
unfolding add_machines
machines_as_string ms = add_machines (length ms) 1 "" ms

-- as one writes a list: commas, and an "and" before the last
unfoldable pub enumerated : String → List MachineKey → String
enumerated message [] = message
enumerated message (m ∷ []) = message ++ " and " ++ key_text m
enumerated message (m ∷ n ∷ ms) = enumerated (message ++ ", " ++ key_text m) (n ∷ ms)

unfoldable pub listed : List MachineKey → String
unfolding enumerated
listed [] = ""
listed (m ∷ ms) = enumerated (key_text m) ms

add_machines-enumerated :
    (total count : ℕ) (message : String) (ms : List MachineKey)
    → count + length ms ≡ suc total
    → ltb 1 count ≡ true
    → add_machines total count message ms ≡ enumerated message ms
unfolding add_machines enumerated
add_machines-enumerated total count message [] h k = refl
add_machines-enumerated total count message (m ∷ []) h k = ground (arith, h, k)
add_machines-enumerated total count message (m ∷ n ∷ ms) h k = ground (
  arith,
  h,
  k,
  add_machines-enumerated total (count + 1) (message ++ ", " ++ key_text m) (n ∷ ms)
      (omega (arith, h)),
)

-- MachinesAsString writes the machines as one writes a list: commas between them, and an and before
-- the last.
pub machines_as_string-listed : (ms : List MachineKey) → machines_as_string ms ≡ listed ms
unfolding machines_as_string listed
machines_as_string-listed [] = refl
machines_as_string-listed (m ∷ ms) =
    ground (arith, add_machines-enumerated (suc (length ms)) 2 (key_text m) ms (omega arith))
