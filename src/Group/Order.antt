-- ===== src/Group/Order.antt =====
-- The order of the names of VirtualMachines, and what sorting and choosing from a list keep
-- (controllers/vmware/virtualmachinegroup_reconciler.go: computeVirtualMachineGroup).
use cluster_api_provider_vsp.Prelude.{
  String, Bool, true, false, ◌&&◌, ◌||◌, ◌≡◌, refl, inl, inr, List, [], ◌∷◌, arith, str_eq, if-both,
  Bool-cases, lookup, insert, eq_iff,
}
use cluster_api_provider_vsp.Group.Names.{text_le, insert_sorted, sorted, keys, names_of, has}
use cluster_api_provider_vsp.Group.Members.{is_some, members_of}

text_le_total : (s t : String) → text_le s t ≡ false → text_le t s ≡ true
unfolding text_le
text_le_total String.[] t h = absurd (cc h)
text_le_total (String.◌∷◌ c s) String.[] h = refl
text_le_total (String.◌∷◌ c s) (String.◌∷◌ d t) h = ground (arith, h, text_le_total s t)

text_le_trans : (s t u : String) → text_le s t ≡ true → text_le t u ≡ true → text_le s u ≡ true
unfolding text_le
text_le_trans String.[] t u h k = refl
text_le_trans (String.◌∷◌ c s) String.[] u h k = absurd (cc h)
text_le_trans (String.◌∷◌ c s) (String.◌∷◌ d t) String.[] h k = absurd (cc k)
text_le_trans (String.◌∷◌ c s) (String.◌∷◌ d t) (String.◌∷◌ e u) h k =
    ground (arith, h, k, text_le_trans s t u)

-- every text of the list comes at or after the given one
abbrev pub AreFrom : String → List String → Type 0
AreFrom x [] = Unit
AreFrom x (y ∷ ys) = (text_le x y ≡ true) × AreFrom x ys

-- the list is in order, and no text stands in it twice
abbrev pub AreOrdered : List String → Type 0
AreOrdered [] = Unit
AreOrdered (x ∷ xs) = AreFrom x xs × (has x xs ≡ false) × AreOrdered xs

AreFrom-before :
    (x y : String) (ys : List String) → text_le x y ≡ true → AreFrom y ys → AreFrom x ys
AreFrom-before x y [] h a = tt
AreFrom-before x y (z ∷ zs) h (k, a) = (text_le_trans x y z h k, AreFrom-before x y zs h a)

AreFrom-insert_sorted :
    (x y : String) (ys : List String)
    → text_le x y ≡ true
    → AreFrom x ys
    → AreFrom x (insert_sorted y ys)
unfolding insert_sorted
AreFrom-insert_sorted x y [] h a = (h, tt)
AreFrom-insert_sorted x y (z ∷ zs) h (k, a) =
    if-both (AreFrom x) (text_le y z) (h, (k, a)) (k, AreFrom-insert_sorted x y zs h a)

pub has-insert_sorted :
    (x y : String) (ys : List String) → has x (insert_sorted y ys) ≡ (str_eq y x || has x ys)
unfolding insert_sorted has
has-insert_sorted x y [] = ground arith
has-insert_sorted x y (z ∷ zs) = ground (arith, has-insert_sorted x y zs)

insert_sorted-AreOrdered :
    (y : String) (ys : List String)
    → has y ys ≡ false
    → AreOrdered ys
    → AreOrdered (insert_sorted y ys)
unfolding insert_sorted has
insert_sorted-AreOrdered y [] h o = (tt, refl, tt)
insert_sorted-AreOrdered y (z ∷ zs) h (a, k, o) = elim (Bool-cases (text_le y z)) [
  | inl e ↦ rw e ((e, AreFrom-before y z zs e a), h, (a, k, o))
  | inr e ↦ rw e (
    AreFrom-insert_sorted z y zs (text_le_total y z e) a,
    ground (arith, h, k, eq_iff z y, eq_iff y z, has-insert_sorted z y zs),
    insert_sorted-AreOrdered y zs (ground (arith, h)) o,
  )
]

pub has-sorted : (x : String) (xs : List String) → has x (sorted xs) ≡ has x xs
unfolding sorted has
has-sorted x [] = refl
has-sorted x (y ∷ ys) = ground (arith, has-insert_sorted x y (sorted ys), has-sorted x ys)

-- no text stands in the list twice
abbrev pub AreUnique : List String → Type 0
AreUnique [] = Unit
AreUnique (x ∷ xs) = (has x xs ≡ false) × AreUnique xs

pub sorted-AreOrdered : (xs : List String) → AreUnique xs → AreOrdered (sorted xs)
unfolding sorted
sorted-AreOrdered [] u = tt
sorted-AreOrdered (x ∷ xs) (h, u) =
    insert_sorted-AreOrdered x (sorted xs) (ground (arith, h, has-sorted x xs))
      (sorted-AreOrdered xs u)

pub has-keys : (x : String) (m : List (String × String)) → has x (keys m) ≡ is_some (lookup x m)
unfolding keys has lookup
has-keys x [] = refl
has-keys x ((k, v) ∷ m) = ground (arith, has-keys x m)

pub has-members_of :
    (p : String → Bool) (x : String) (vms : List String)
    → has x (names_of (members_of p vms)) ≡ (has x vms && p x)
unfolding members_of has
has-members_of p x [] = refl
has-members_of p x (vm ∷ vms) = ground (arith, eq_iff vm x, has-members_of p x vms)

AreFrom-members_of :
    (p : String → Bool) (x : String) (vms : List String)
    → AreFrom x vms
    → AreFrom x (names_of (members_of p vms))
unfolding members_of
AreFrom-members_of p x [] a = tt
AreFrom-members_of p x (vm ∷ vms) (h, a) =
    if-both (λ l. AreFrom x (names_of l)) (p vm) (h, AreFrom-members_of p x vms a)
      (AreFrom-members_of p x vms a)

pub members_of-AreOrdered :
    (p : String → Bool) (vms : List String)
    → AreOrdered vms
    → AreOrdered (names_of (members_of p vms))
unfolding members_of
members_of-AreOrdered p [] o = tt
members_of-AreOrdered p (vm ∷ vms) (a, h, o) =
    if-both (λ l. AreOrdered (names_of l)) (p vm)
      (
        AreFrom-members_of p vm vms a,
        ground (arith, h, has-members_of p vm vms),
        members_of-AreOrdered p vms o,
      )
      (members_of-AreOrdered p vms o)

pub keys-insert :
    (k v : String) (m : List (String × String)) (x : String)
    → has x (keys (insert k v m)) ≡ (str_eq k x || has x (keys m))
unfolding keys has insert
keys-insert k v [] x = ground arith
keys-insert k v ((j, u) ∷ m) x = ground (arith, eq_iff j k, keys-insert k v m x)

pub keys-insert-AreUnique :
    (k v : String) (m : List (String × String))
    → AreUnique (keys m)
    → AreUnique (keys (insert k v m))
unfolding keys has insert
keys-insert-AreUnique k v [] u = (refl, tt)
keys-insert-AreUnique k v ((j, w) ∷ m) (h, u) = elim (Bool-cases (str_eq j k)) [
  | inl e ↦ rw e (ground (arith, h, e, eq_iff j k), u)
  | inr e ↦ rw e (
    ground (arith, h, e, eq_iff k j, eq_iff j k, keys-insert k v m j),
    keys-insert-AreUnique k v m u,
  )
]
