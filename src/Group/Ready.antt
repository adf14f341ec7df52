-- ===== src/Group/Ready.antt =====
-- When the group is created, as a sum and a count over the lists (controllers/vmware/
-- virtualmachinegroup_reconciler.go: shouldCreateVirtualMachineGroup).
use cluster_api_provider_vsp.Prelude.{
  ℕ, ◌+◌, ◌^◌, ◌%◌, ◌≤◌, ◌<◌, String, Bool, true, false, ◌≡◌, ◌↔◌, some, Option-cases, inl, inr,
  List, [], ◌∷◌, arith, deref, length, if◌then◌else◌,
}
use cluster_api_provider_vsp.Group.{MachineDeployment, VsphereMachine}
use cluster_api_provider_vsp.Group.Names.{machine_deployment_name_label, label_value, has}
use cluster_api_provider_vsp.Group.Members.{
  lt_int32, int32_mod, expected_machines, live_names, current_machines, enough_machines,
  should_create_virtual_machine_group,
}

-- the replicas that the MachineDeployments that stay ask for, as one number
unfoldable pub replicas : List MachineDeployment → ℕ
replicas [] = 0
replicas (md ∷ mds) = (if md.is_deleted then 0 else deref md.replicas 0) + replicas mds

-- the machine is of one of those MachineDeployments
abbrev pub is_of : List String → VsphereMachine → Bool
is_of names m = has (label_value machine_deployment_name_label m.labels) names

-- how many machines are of them
unfoldable pub machines_of : List String → List VsphereMachine → ℕ
machines_of names [] = 0
machines_of names (m ∷ ms) = (if is_of names m then 1 else 0) + machines_of names ms

-- none of these is being deleted
abbrev pub AreStaying : List String → List VsphereMachine → Type 0
AreStaying names [] = Unit
AreStaying names (m ∷ ms) = (is_of names m ≡ true → m.is_deleted ≡ false) × AreStaying names ms

pub expected-replicas :
    (mds : List MachineDeployment) (count : ℕ)
    → count + replicas mds < 2 ^ 31
    → expected_machines mds count ≡ count + replicas mds
unfolding expected_machines replicas
expected-replicas [] count h = omega arith
expected-replicas (md ∷ mds) count h = ground (
  arith,
  h,
  expected-replicas mds count,
  expected-replicas mds ((count + deref md.replicas 0) % int32_mod),
)

current-machines_of :
    (names : List String) (ms : List VsphereMachine) (count : ℕ)
    → count + length ms < 2 ^ 31
    → AreStaying names ms
    → current_machines names ms count ≡ some (count + machines_of names ms)
unfolding current_machines machines_of
current-machines_of names [] count h s = ground arith
current-machines_of names (m ∷ ms) count h (k, s) = ground (
  arith,
  h,
  k,
  current-machines_of names ms count (omega (arith, h)) s,
  current-machines_of names ms ((count + 1) % int32_mod) (omega (arith, h)) s,
)

current-start :
    (names : List String) (ms : List VsphereMachine)
    → length ms < 2 ^ 31
    → AreStaying names ms
    → current_machines names ms 0 ≡ some (machines_of names ms)
current-start names ms k s = ground (arith, current-machines_of names ms 0 (omega (arith, k)) s)

current-AreStaying :
    (names : List String) (ms : List VsphereMachine) (count n : ℕ)
    → current_machines names ms count ≡ some n
    → AreStaying names ms
unfolding current_machines
current-AreStaying names [] count n h = tt
current-AreStaying names (m ∷ ms) count n h = ground (
  arith,
  h,
  current-AreStaying names ms count n,
  current-AreStaying names ms ((count + 1) % int32_mod) n,
)

machines_of-length :
    (names : List String) (ms : List VsphereMachine) → machines_of names ms ≤ length ms
unfolding machines_of
machines_of-length names [] = omega arith
machines_of-length names (m ∷ ms) = ground (arith, machines_of-length names ms)

enough_machines-le :
    (expected current : ℕ)
    → expected < 2 ^ 31
    → current < 2 ^ 31
    → (enough_machines expected (some current) ≡ true) ↔ (expected ≤ current)
unfolding lt_int32
enough_machines-le expected current h k = ground arith

-- the gate on the machines, without the modular count
enough-AreStaying :
    (names : List String) (ms : List VsphereMachine) (expected : ℕ)
    → expected < 2 ^ 31
    → length ms < 2 ^ 31
    → (enough_machines expected (current_machines names ms 0) ≡ true)
      ↔ (AreStaying names ms × (expected ≤ machines_of names ms))
enough-AreStaying names ms expected h k = (
  λ e. elim (Option-cases (current_machines names ms 0)) [
    | inl q ↦ absurd (ground (arith, e, q))
    | inr (n, q) ↦
        let staying = current-AreStaying names ms 0 n q in
        (
          staying,
          (enough_machines-le expected (machines_of names ms) h
                (omega (arith, k, machines_of-length names ms))).0
              (rw (current-start names ms k staying) at e),
        )
  ],
  λ g. rw (current-start names ms k g.0) (
      (enough_machines-le expected (machines_of names ms) h
          (omega (arith, k, machines_of-length names ms))).1
        g.1),
)

-- Where the replicas of the MachineDeployments that stay, and the number of VSphereMachines, are
-- below 2^31, shouldCreateVirtualMachineGroup answers true exactly where there are replicas, no
-- machine of these MachineDeployments is being deleted, and they have at least as many machines as
-- replicas.
pub should_create-enough :
    (mds : List MachineDeployment) (machines : List VsphereMachine)
    → replicas mds < 2 ^ 31
    → length machines < 2 ^ 31
    → (should_create_virtual_machine_group mds machines ≡ true) ↔ (
        (0 < replicas mds)
        × AreStaying (live_names mds) machines
        × (replicas mds ≤ machines_of (live_names mds) machines))
unfolding should_create_virtual_machine_group
should_create-enough mds machines h k = ground (
  arith,
  h,
  expected-replicas mds 0 (omega (arith, h)),
  enough-AreStaying (live_names mds) machines (replicas mds) h k,
)
