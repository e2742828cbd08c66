-- ===== src/Prelude/Sums.antt =====
-- Sums over lists, and how often an address stands in one.
use Prim.Native.Nat.{ℕ, ◌+◌, ◌-◌, ◌≤◌, ◌<◌}
use mathlib.Core.Path.{◌≡◌, refl, ap}
use mathlib.Core.Logic.{inl, inr}
use mathlib.Core.Bool.{true, false}
use mathlib.Core.Option.{some}
use mathlib.Core.List.{List, [], ◌∷◌, ◌++◌}
use native.Mathlib.Omega.{arith}
use aosv_project.Prelude.Tests.{Bool-cases, ◌==◌, if◌then◌else◌}
use aosv_project.Prelude.Lists.{unsnoc, unsnoc-eq_some, has, list_del}

module _ {A : Type 0} where
  abbrev pub total : (A → ℕ) → List A → ℕ
  total weight [] = 0
  total weight (p ∷ ps) = weight p + total weight ps

  pub total-append :
      (weight : A → ℕ) (ps qs : List A)
      → total weight (ps ++ qs) ≡ total weight ps + total weight qs
  total-append weight [] qs = omega arith
  total-append weight (p ∷ ps) qs = omega (arith, total-append weight ps qs)

  -- An element among the others.
  pub total-among :
      (weight : A → ℕ) (xs ys : List A) (p : A)
      → total weight (xs ++ p ∷ ys) ≡ total weight xs + total weight ys + weight p
  total-among weight xs ys p = omega (arith, total-append weight xs (p ∷ ys))

  pub total-le :
      (weight bound : A → ℕ) (ps : List A)
      → ((p : A) → weight p ≤ bound p)
      → total weight ps ≤ total bound ps
  total-le weight bound [] h = omega arith
  total-le weight bound (p ∷ ps) h = omega (arith, h p, total-le weight bound ps h)

  -- A sum that is not 0 has a part that is not 0.
  pub total-some :
      (weight : A → ℕ) (ps : List A)
      → 0 < total weight ps
      → (xs : List A) × (p : A) × (ys : List A) × (ps ≡ xs ++ p ∷ ys) × (0 < weight p)
  total-some weight [] h = absurd (omega arith)
  total-some weight (p ∷ ps) h = elim (Bool-cases (weight p == 0)) [
    | inr e ↦ ([], p, ps, refl, ground arith)
    | inl e ↦
        let (xs, q, ys, f, g) = total-some weight ps (ground arith) in
        (p ∷ xs, q, ys, ap (λ l. p ∷ l) f, g)
  ]

-- How often an address stands in a list.
abbrev pub occurrences : ℕ → List ℕ → ℕ
occurrences a [] = 0
occurrences a (x ∷ xs) = (if x == a then 1 else 0) + occurrences a xs

pub occurrences-append :
    (a : ℕ) (xs ys : List ℕ) → occurrences a (xs ++ ys) ≡ occurrences a xs + occurrences a ys
occurrences-append a [] ys = omega arith
occurrences-append a (x ∷ xs) ys = omega (arith, occurrences-append a xs ys)

pub occurrences-unsnoc :
    (a : ℕ) (xs : List ℕ) (x : ℕ) (ys : List ℕ)
    → unsnoc xs ≡ some (x, ys)
    → occurrences a xs ≡ occurrences a ys + (if x == a then 1 else 0)
occurrences-unsnoc a xs x ys e =
    omega (arith, ap (occurrences a) (unsnoc-eq_some xs x ys e), occurrences-append a ys (x ∷ []))

pub occurrences-has : (a : ℕ) (xs : List ℕ) → has a xs ≡ true → 1 ≤ occurrences a xs
occurrences-has a [] h = ground arith
occurrences-has a (x ∷ xs) h = ground (arith, occurrences-has a xs)

pub occurrences-has_not : (a : ℕ) (xs : List ℕ) → has a xs ≡ false → occurrences a xs ≡ 0
occurrences-has_not a [] h = ground arith
occurrences-has_not a (x ∷ xs) h = ground (arith, occurrences-has_not a xs)

pub occurrences-list_del :
    (a b : ℕ) (xs : List ℕ)
    → occurrences a (list_del b xs) ≡ occurrences a xs - (if b == a then 1 else 0)
occurrences-list_del a b [] = ground arith
occurrences-list_del a b (x ∷ xs) = ground (arith, occurrences-list_del a b xs)
