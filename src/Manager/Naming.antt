-- ===== src/Manager/Naming.antt =====
-- The names of a group: the one that kmodule/group_dev_manager.c gives to the device node, and the path
-- that lib/tsm_lib.c opens, for the 256 numbers of groups.
use native.Mathlib.Nat.{pow-suc}
use aosv_project.Prelude.{
  zero, suc, ◌^◌, ◌/◌, ◌%◌, Bool-cases, ltb, inl, inr, ℕ, ◌+◌, ◌*◌, ◌-◌, ◌<◌, ◌≤◌, ◌≡◌, ◌≢◌, refl,
  sym, ap, ◌∙◌, Bool, true, ◌&&◌, List, [], ◌∷◌, ◌++◌, length, leb, ◌==◌, arith, every_under,
  every_under-at, false,
}
use aosv_project.Manager.Names.{
  decimal, print_decimal, codes, group_format_length, group_name, group_dev_length, group_path,
}

-- The number that digits stand for, behind `n`.
abbrev pub read_digits : (n : ℕ) → List ℕ → ℕ
read_digits n [] = n
read_digits n (c ∷ cs) = read_digits (10 * n + (c - 48)) cs

-- The number in a name, behind "group_dev".
abbrev pub read_name : List ℕ → ℕ
read_name (a ∷ b ∷ c ∷ d ∷ e ∷ f ∷ g ∷ h ∷ i ∷ digits) = read_digits 0 digits
read_name _ = 0

abbrev name_tests : ℕ → Bool
name_tests minor =
    leb (length (group_name minor) + 1) group_format_length
    && (leb (length (group_path minor) + 1) group_dev_length
        && (read_name (group_name minor) == minor))

name_table : every_under name_tests 256 ≡ true
unfolding every_under group_name group_path
name_table = refl

module _ (minor : ℕ) (h : minor < 256) where
  -- The name of each of the 256 groups and the path to it fit, with the terminating 0, into the
  -- memory allocated for them, and the path is the name in the folder /dev/synch.
  pub names-fit :
      (length (group_name minor) + 1 ≤ group_format_length)
      × (length (group_path minor) + 1 ≤ group_dev_length)
      × (group_path minor ≡ codes "/dev/synch/" ++ group_name minor)
  unfolding group_name group_path
  names-fit = (
    ground (arith, every_under-at name_tests 256 minor name_table h),
    ground (arith, every_under-at name_tests 256 minor name_table h),
    refl,
  )

  read_name-group_name : read_name (group_name minor) ≡ minor
  read_name-group_name = ground (arith, every_under-at name_tests 256 minor name_table h)

-- Different groups, with numbers below 256, have different names.
pub group_name-distinct : (a b : ℕ) → a < 256 → b < 256 → a ≢ b → group_name a ≢ group_name b
group_name-distinct a b ha hb apart e =
    apart (sym (read_name-group_name a ha) ∙ ap read_name e ∙ read_name-group_name b hb)

decimal_last :
    (fuel n : ℕ) (rest : List ℕ)
    → ltb n 10 ≡ true
    → decimal (suc fuel) n rest ≡ (48 + n % 10) ∷ rest
unfolding decimal
decimal_last fuel n rest e = ground arith

decimal_more :
    (fuel n : ℕ) (rest : List ℕ)
    → ltb n 10 ≡ false
    → decimal (suc fuel) n rest ≡ decimal fuel (n / 10) ((48 + n % 10) ∷ rest)
unfolding decimal
decimal_more fuel n rest e = ground arith

read_last :
    (fuel n : ℕ) (rest : List ℕ)
    → n < 10
    → read_digits 0 (decimal (suc fuel) n rest) ≡ read_digits n rest
read_last fuel n rest h =
    ap (read_digits 0) (decimal_last fuel n rest (ground arith))
    ∙ ap (λ k. read_digits k rest) (omega arith)

-- The digits that `decimal` puts in front, read back.
read_digits-decimal :
    (fuel n : ℕ) (rest : List ℕ)
    → n < 10 ^ suc fuel
    → read_digits 0 (decimal (suc fuel) n rest) ≡ read_digits n rest
read_digits-decimal zero n rest h = read_last zero n rest h
read_digits-decimal (suc fuel) n rest h = elim (Bool-cases (ltb n 10)) [
  | inl e ↦ read_last (suc fuel) n rest (ground arith)
  | inr e ↦
      ap (read_digits 0) (decimal_more (suc fuel) n rest e)
      ∙ read_digits-decimal fuel (n / 10) ((48 + n % 10) ∷ rest)
          (omega (arith, pow-suc 10 (suc fuel)))
      ∙ ap (λ k. read_digits k rest) (omega arith)
]

-- Printing and reading: ten digits are enough for every number below 10 ^ 10, and the number can be read
-- back from its digits.
pub read_digits-print_decimal : (n : ℕ) → n < 10 ^ 10 → read_digits 0 (print_decimal n) ≡ n
unfolding print_decimal
read_digits-print_decimal n h = read_digits-decimal 9 n [] h
