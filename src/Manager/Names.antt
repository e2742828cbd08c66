-- ===== src/Manager/Names.antt =====
-- kmodule/group_dev_manager.h and lib/tsm_lib.h: the names of a group device, written by `sprintf`
-- with one `%d`.
use Prim.Native.String.{String}
use Prim.Native.Char.{code}
use aosv_project.Prelude.{
  ℕ, zero, suc, ◌+◌, ◌*◌, ◌/◌, ◌%◌, true, false, List, [], ◌∷◌, ◌++◌, ltb, length,
}

-- The bytes of an ASCII text.
abbrev pub codes : String → List ℕ
codes String.[] = []
codes (String.◌∷◌ c s) = code c ∷ codes s

-- The digits of `%d` for a number that is not negative, in front of `rest`.
unfoldable pub decimal : (fuel n : ℕ) (rest : List ℕ) → List ℕ
decimal zero n rest = rest
decimal (suc fuel) n rest =
    let here = (48 + n % 10) ∷ rest in
    elim (ltb n 10) [ true ↦ here | false ↦ decimal fuel (n / 10) here ]

-- `unsigned char` descriptors have three digits at most; ten are enough for any `int`.
unfoldable pub print_decimal : ℕ → List ℕ
unfolding decimal
print_decimal n = decimal 10 n []

-- GROUP_FORMAT and GROUP_FORMAT_LENGTH; without parentheses around the macro the size passed to
-- `kmalloc` is strlen ("group_dev%d") + 3 * sizeof (char).
abbrev pub group_format_length : ℕ
group_format_length = length (codes "group_dev%d") + 3 * 1

unfoldable pub group_name : ℕ → List ℕ
unfolding print_decimal
group_name minor = codes "group_dev" ++ print_decimal minor

-- lib/tsm_lib.h: GROUP_DEV and GROUP_DEV_LENGTH.
abbrev pub group_dev_length : ℕ
group_dev_length = length (codes "/dev/synch/group_dev%d") + 3 * 1

unfoldable pub group_path : ℕ → List ℕ
unfolding print_decimal
group_path desc = codes "/dev/synch/group_dev" ++ print_decimal desc
