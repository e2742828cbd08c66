-- ===== src/Manager/Catalogue.antt =====
-- The list of installed groups: one device for each descriptor, 256 at most, and what
-- `install_group` does to it.
use aosv_project.Prelude.{
  has-list_del_self, ℕ, zero, suc, ◌+◌, ◌≤◌, ◌<◌, ◌≡◌, inl, inr, refl, ap, true, false, List, [],
  ◌∷◌, map, none, some, Bool-cases, arith, length, has, list_del, Distinct, list_del-Distinct,
  length-list_del, ◌==◌,
}
use aosv_project.Device.{GroupDev}
use aosv_project.Manager.{GroupDevices, group_dev_count}
use aosv_project.Manager.Registry.{find_group, get_group}

abbrev pub minors : List GroupDev → List ℕ
minors = map (λ (d : GroupDev). d.minor)

abbrev pub AllBelow : ℕ → List ℕ → Type 0
AllBelow n [] = Unit {0}
AllBelow n (x ∷ xs) = (x < n) × AllBelow n xs

pub record IsCatalogue (gs : GroupDevices) : Type 0 where
  pub counted : gs.used ≡ length gs.group_devs_list
  pub distinct : Distinct (minors gs.group_devs_list)
  pub below : AllBelow group_dev_count (minors gs.group_devs_list)

AllBelow-list_del : (n a : ℕ) (xs : List ℕ) → AllBelow n xs → AllBelow n (list_del a xs)
AllBelow-list_del n a [] h = tt
AllBelow-list_del n a (x ∷ xs) h = ground (arith, AllBelow-list_del n a xs h.1)

-- Without its largest possible entry the list lies below the next smaller bound.
AllBelow-lower : (n : ℕ) (xs : List ℕ) → AllBelow (suc n) xs → has n xs ≡ false → AllBelow n xs
AllBelow-lower n [] h e = tt
AllBelow-lower n (x ∷ xs) h e = ground (arith, AllBelow-lower n xs h.1)

AllBelow-zero : (xs : List ℕ) → AllBelow 0 xs → length xs ≡ 0
AllBelow-zero [] h = refl
AllBelow-zero (x ∷ xs) h = absurd (omega arith)

-- At most `n` distinct numbers lie below `n`.
length-le_of_Distinct : (n : ℕ) (xs : List ℕ) → Distinct xs → AllBelow n xs → length xs ≤ n
length-le_of_Distinct zero xs d h = omega (arith, AllBelow-zero xs h)
length-le_of_Distinct (suc n) xs d h = elim (Bool-cases (has n xs)) [
  | inl old ↦ omega (
    arith,
    length-list_del n xs old,
    length-le_of_Distinct n (list_del n xs) (list_del-Distinct n xs d) (
        AllBelow-lower n (list_del n xs) (AllBelow-list_del (suc n) n xs h)
          (has-list_del_self n xs d)),
  )
  | inr new ↦ omega (arith, length-le_of_Distinct n xs d (AllBelow-lower n xs h new))
]

pub length-minors : (ds : List GroupDev) → length (minors ds) ≡ length ds
length-minors [] = refl
length-minors (d ∷ ds) = ap suc (length-minors ds)

-- A group that is missing finds room: the test against GROUP_DEV_COUNT never fails.
pub used_lt :
    (gs : GroupDevices) (desc : ℕ)
    → IsCatalogue gs
    → desc < group_dev_count
    → has desc (minors gs.group_devs_list) ≡ false
    → gs.used + 1 ≤ group_dev_count
used_lt gs desc v h new = omega (
  arith,
  v.counted,
  length-minors gs.group_devs_list,
  length-le_of_Distinct group_dev_count (desc ∷ minors gs.group_devs_list) (new, v.distinct)
      (h, v.below),
)

find_group-none :
    (desc : ℕ) (ds : List GroupDev) → has desc (minors ds) ≡ false → find_group desc ds ≡ none
unfolding find_group
find_group-none desc [] h = refl
find_group-none desc (d ∷ ds) h = ground (arith, find_group-none desc ds)

find_group-some :
    (desc : ℕ) (ds : List GroupDev)
    → has desc (minors ds) ≡ true
    → (d : GroupDev) × (find_group desc ds ≡ some d)
unfolding find_group
find_group-some desc [] h = absurd (ground arith)
find_group-some desc (d ∷ ds) h = elim (Bool-cases (d.minor == desc)) [
  | inl e ↦ (d, rw e)
  | inr e ↦ rw e (find_group-some desc ds (ground arith))
]

pub get_group-none :
    (desc : ℕ) (gs : GroupDevices)
    → has desc (minors gs.group_devs_list) ≡ false
    → get_group desc gs ≡ none
unfolding get_group
get_group-none desc gs h = ground (arith, find_group-none desc gs.group_devs_list h)

pub get_group-some :
    (desc : ℕ) (gs : GroupDevices)
    → has desc (minors gs.group_devs_list) ≡ true
    → (d : GroupDev) × (get_group desc gs ≡ some d)
unfolding get_group
get_group-some desc gs h =
    let (d, e) = find_group-some desc gs.group_devs_list h in (d, ground arith)

pub has-AllBelow : (n a : ℕ) (xs : List ℕ) → AllBelow n xs → n ≤ a → has a xs ≡ false
has-AllBelow n a [] h le = refl
has-AllBelow n a (x ∷ xs) h le = ground (arith, has-AllBelow n a xs h.1 le)
