-- ===== src/Device/Timers/Neighbours.antt =====
-- The entries next to one in the list of delayed works of a device.
use aosv_project.Prelude.{
  ℕ, ◌+◌, ◌≤◌, ◌≡◌, refl, false, List, [], ◌∷◌, arith, inl, inr, Bool-cases, has, Option, none,
  some, occurrences, occurrences-has, unsnoc-cases, occurrences-unsnoc,
}
use aosv_project.Device.Timers.{last_of, next_of, prev_from, first_of, is_freed}
use aosv_project.Device.Timers.Timely.{at}

-- The neighbours of an entry are entries.
pub first_of-at : (a : ℕ) (l : List ℕ) → at a (first_of l) ≤ occurrences a l
first_of-at a [] = omega arith
first_of-at a (x ∷ xs) = omega arith

pub next_of-at : (a w : ℕ) (l : List ℕ) → at a (next_of w l) ≤ occurrences a l
next_of-at a w [] = omega arith
next_of-at a w (x ∷ []) = omega arith
next_of-at a w (x ∷ y ∷ ys) = ground (arith, next_of-at a w (y ∷ ys))

pub prev_from-at :
    (a : ℕ) (p : Option ℕ) (w : ℕ) (l : List ℕ) → at a (prev_from p w l) ≤ at a p + occurrences a l
prev_from-at a p w [] = omega arith
prev_from-at a p w (x ∷ xs) = ground (arith, prev_from-at a (some x) w xs)

-- The entry before an entry is another one.
pub prev_from-points :
    (a w : ℕ) (p : Option ℕ) (l : List ℕ)
    → 1 ≤ occurrences w l
    → at a (some w) + at a (prev_from p w l) ≤ at a p + occurrences a l
prev_from-points a w p [] h = ground arith
prev_from-points a w p (x ∷ xs) h = ground (arith, prev_from-points a w (some x) xs)

pub last_of-at : (a : ℕ) (l : List ℕ) → at a (last_of l) ≤ occurrences a l
last_of-at a l = elim (unsnoc-cases l) [
  | inl (_, u) ↦ rw (u, last_of, at) (omega arith)
  | inr (x, ys, _, u) ↦ rw (u, last_of, at) (omega (arith, occurrences-unsnoc a l x ys u))
]

-- An entry that is linked is not freed.
pub is_freed-live :
    (q : Option ℕ) (freed : List ℕ)
    → ((a : ℕ) → at a q + occurrences a freed ≤ 1)
    → is_freed q freed ≡ false
is_freed-live none freed h = refl
is_freed-live (some w) freed h = elim (Bool-cases (has w freed)) [
  | inr e ↦ e
  | inl e ↦ absurd (ground (arith, occurrences-has w freed e, h w))
]
