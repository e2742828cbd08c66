-- ===== src/Prelude/Lists.antt =====
-- Lists measured by native numbers, and lists of addresses, under the library's names where it has
-- them.
use Prim.Native.Nat.{ℕ, suc, ◌+◌}
use mathlib.Core.Path.{◌≡◌, refl, ap, ◌∙◌}
use mathlib.Core.Logic.{◌⊎◌, inl, inr}
use mathlib.Core.Bool.{Bool, true, false, ◌||◌}
use mathlib.Core.Option.{Option, none, some}
use mathlib.Core.List.{List, [], ◌∷◌, ◌++◌, reverse, reverse-cons}
use native.Mathlib.Omega.{arith}
use aosv_project.Prelude.Tests.{◌==◌, if◌then◌else◌, Option-cases}

module _ {ℓ} {A : Type ℓ} where
  abbrev pub length : List A → ℕ
  length [] = 0
  length (x ∷ xs) = suc (length xs)

  pub length-append : (xs ys : List A) → length (xs ++ ys) ≡ length xs + length ys
  length-append [] ys = omega arith
  length-append (x ∷ xs) ys = omega (arith, length-append xs ys)

  pub length-reverse : (xs : List A) → length (reverse xs) ≡ length xs
  length-reverse [] = refl
  length-reverse (x ∷ xs) =
      omega (
        arith,
        ap length (reverse-cons x xs),
        length-append (reverse xs) (x ∷ []),
        length-reverse xs,
      )

  -- `list_empty`
  abbrev pub list_empty : List A → Bool
  list_empty [] = true
  list_empty (x ∷ xs) = false

  -- The last entry of a list, and the list without it.
  abbrev pub unsnoc : List A → Option (A × List A)
  unsnoc [] = none
  unsnoc (x ∷ xs) = elim (unsnoc xs) [ none ↦ some (x, []) | some (y, ys) ↦ some (y, x ∷ ys) ]

  pub unsnoc-snoc : (xs : List A) (x : A) → unsnoc (xs ++ x ∷ []) ≡ some (x, xs)
  unsnoc-snoc [] x = refl
  unsnoc-snoc (y ∷ xs) x = ground (arith, unsnoc-snoc xs x)

  pub unsnoc-eq_some :
      (xs : List A) (x : A) (ys : List A) → unsnoc xs ≡ some (x, ys) → xs ≡ ys ++ x ∷ []
  unsnoc-eq_some [] x ys e = ground arith
  unsnoc-eq_some (y ∷ []) x ys e = ground arith
  unsnoc-eq_some (y ∷ z ∷ zs) x [] e = ground arith
  unsnoc-eq_some (y ∷ z ∷ zs) x (w ∷ ws) e = ground (arith, unsnoc-eq_some (z ∷ zs) x ws)

pub length-unsnoc {ℓ} :
    {A : Type ℓ} (xs : List A) (x : A) (ys : List A)
    → unsnoc xs ≡ some (x, ys)
    → length xs ≡ length ys + 1
length-unsnoc xs x ys e =
    omega (arith, ap length (unsnoc-eq_some xs x ys e), length-append ys (x ∷ []))

pub unsnoc-eq_none {ℓ} : {A : Type ℓ} (xs : List A) → unsnoc xs ≡ none → xs ≡ []
unsnoc-eq_none [] e = refl
unsnoc-eq_none (x ∷ xs) e = ground arith

pub unsnoc-cases {ℓ} :
    {A : Type ℓ} (xs : List A)
    → ((xs ≡ []) × (unsnoc xs ≡ none))
      ⊎ ((x : A) × (ys : List A) × (xs ≡ ys ++ x ∷ []) × (unsnoc xs ≡ some (x, ys)))
unsnoc-cases xs = elim (Option-cases (unsnoc xs)) [
  | inl e ↦ inl (unsnoc-eq_none xs e, e)
  | inr (p, e) ↦ inr (p.0, p.1, unsnoc-eq_some xs p.0 p.1 e, e)
]

-- Is the address `a` in the list?
abbrev pub has : ℕ → List ℕ → Bool
has a [] = false
has a (x ∷ xs) = (x == a) || has a xs

-- `list_del`: unlink the entry at address `a`; an entry that is linked to itself is left alone.
abbrev pub list_del : ℕ → List ℕ → List ℕ
list_del a [] = []
list_del a (x ∷ xs) = if x == a then xs else x ∷ list_del a xs

-- No address occurs twice.
abbrev pub Distinct : List ℕ → Type 0
Distinct [] = Unit {0}
Distinct (x ∷ xs) = (has x xs ≡ false) × Distinct xs

pub list_del-snoc : (a : ℕ) (xs : List ℕ) → has a xs ≡ false → list_del a (xs ++ a ∷ []) ≡ xs
list_del-snoc a [] h = ground arith
list_del-snoc a (x ∷ xs) h = ground (arith, list_del-snoc a xs)

pub has-append : (a : ℕ) (xs ys : List ℕ) → has a (xs ++ ys) ≡ (has a xs || has a ys)
has-append a [] ys = refl
has-append a (x ∷ xs) ys = ground (arith, has-append a xs ys)

pub has-reverse : (a : ℕ) (xs : List ℕ) → has a (reverse xs) ≡ has a xs
has-reverse a [] = refl
has-reverse a (x ∷ xs) =
    ap (has a) (reverse-cons x xs)
    ∙ ground (arith, has-append a (reverse xs) (x ∷ []), has-reverse a xs)

pub has-list_del : (a b : ℕ) (xs : List ℕ) → has a xs ≡ false → has a (list_del b xs) ≡ false
has-list_del a b [] h = refl
has-list_del a b (x ∷ xs) h = ground (arith, has-list_del a b xs)

pub list_del-Distinct : (a : ℕ) (xs : List ℕ) → Distinct xs → Distinct (list_del a xs)
list_del-Distinct a [] d = tt
list_del-Distinct a (x ∷ xs) d = ground (arith, list_del-Distinct a xs d.1, has-list_del x a xs d.0)

pub snoc-Distinct : (xs : List ℕ) (a : ℕ) → Distinct xs → has a xs ≡ false → Distinct (xs ++ a ∷ [])
snoc-Distinct [] a d h = (refl, tt)
snoc-Distinct (x ∷ xs) a d h = ground (arith, has-append x xs (a ∷ []), snoc-Distinct xs a d.1)

pub reverse-Distinct : (xs : List ℕ) → Distinct xs → Distinct (reverse xs)
reverse-Distinct [] d = tt
reverse-Distinct (x ∷ xs) d =
    rw (reverse-cons x xs)
      (snoc-Distinct (reverse xs) x (reverse-Distinct xs d.1) (has-reverse x xs ∙ d.0))

pub length-list_del :
    (a : ℕ) (xs : List ℕ) → has a xs ≡ true → length (list_del a xs) + 1 ≡ length xs
length-list_del a [] h = ground arith
length-list_del a (x ∷ xs) h = ground (arith, length-list_del a xs)

-- The entry that was reversed to the end.
pub list_del-reverse :
    (w : ℕ) (ws l : List ℕ) → has w ws ≡ false → l ≡ reverse (w ∷ ws) → list_del w l ≡ reverse ws
list_del-reverse w ws l fresh e =
    ap (list_del w) (e ∙ reverse-cons w ws)
    ∙ list_del-snoc w (reverse ws) (has-reverse w ws ∙ fresh)

pub has-list_del_self : (a : ℕ) (xs : List ℕ) → Distinct xs → has a (list_del a xs) ≡ false
has-list_del_self a [] d = refl
has-list_del_self a (x ∷ xs) d = ground (arith, has-list_del_self a xs d.1)
