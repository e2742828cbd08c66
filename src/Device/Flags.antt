-- ===== src/Device/Flags.antt =====
-- kmodule/group_dev.h: the bit macros over the `char flags`, as a bit pattern below 256; and
-- kmodule/group_dev.c: the helpers that read and write the two flags.
use Prim.Native.Nat.{bit_and, bit_or}
use aosv_project.Prelude.{
  every_under, every_under-at, ℕ, ◌+◌, ◌-◌, ◌*◌, ◌/◌, ◌%◌, ◌^◌, ◌<◌, ◌≡◌, refl, Bool, true, ◌&&◌,
  ◌==◌, arith,
}
use aosv_project.Device.{GroupDev}

abbrev pub barrier_bit : ℕ
barrier_bit = 0

abbrev pub flushing_bit : ℕ
flushing_bit = 1

unfoldable pub set_bit : ℕ → ℕ → ℕ
set_bit var n = bit_or var (2 ^ n) % 256

-- `~(1UL << n)` is 2 ^ 64 - 1 - 2 ^ n.
unfoldable pub clear_bit : ℕ → ℕ → ℕ
clear_bit var n = bit_and var (2 ^ 64 - 1 - 2 ^ n) % 256

unfoldable pub check_bit : ℕ → ℕ → ℕ
check_bit var n = bit_and (var / 2 ^ n) 1

unfoldable pub is_flushing : GroupDev → ℕ
is_flushing d = check_bit d.flags flushing_bit

unfoldable pub set_flushing : GroupDev → GroupDev
set_flushing d = record d { flags = set_bit d.flags flushing_bit }

unfoldable pub clear_flushing : GroupDev → GroupDev
clear_flushing d = record d { flags = clear_bit d.flags flushing_bit }

unfoldable pub is_barrier_up : GroupDev → ℕ
is_barrier_up d = check_bit d.flags barrier_bit

unfoldable pub set_barrier : GroupDev → GroupDev
set_barrier d = record d { flags = set_bit d.flags barrier_bit }

unfoldable pub clear_barrier : GroupDev → GroupDev
clear_barrier d = record d { flags = clear_bit d.flags barrier_bit }

-- What each helper does to a byte, in arithmetic.
abbrev bit_tests : ℕ → Bool
bit_tests v =
    (check_bit v 0 == v % 2)
    && (check_bit v 1 == v / 2 % 2)
    && (set_bit v 0 == v + 1 - v % 2)
    && (set_bit v 1 == v + 2 - 2 * (v / 2 % 2))
    && (clear_bit v 0 == v - v % 2)
    && (clear_bit v 1 == v - 2 * (v / 2 % 2))

bit_table : every_under bit_tests 256 ≡ true
unfolding every_under check_bit set_bit clear_bit
bit_table = refl

bit_tests-true : (v : ℕ) → v < 256 → bit_tests v ≡ true
bit_tests-true v h = every_under-at bit_tests 256 v bit_table h

module _ (v : ℕ) (h : v < 256) where
  pub check_barrier_lem : check_bit v 0 ≡ v % 2
  check_barrier_lem = ground (arith, bit_tests-true v h)

  pub check_flushing_lem : check_bit v 1 ≡ v / 2 % 2
  check_flushing_lem = ground (arith, bit_tests-true v h)

  pub set_barrier_lem : set_bit v 0 ≡ v + 1 - v % 2
  set_barrier_lem = ground (arith, bit_tests-true v h)

  pub set_flushing_lem : set_bit v 1 ≡ v + 2 - 2 * (v / 2 % 2)
  set_flushing_lem = ground (arith, bit_tests-true v h)

  pub clear_barrier_lem : clear_bit v 0 ≡ v - v % 2
  clear_barrier_lem = ground (arith, bit_tests-true v h)

  pub clear_flushing_lem : clear_bit v 1 ≡ v - 2 * (v / 2 % 2)
  clear_flushing_lem = ground (arith, bit_tests-true v h)
