-- ===== src/Tests/Groups.antt =====
-- lib/mp_multigroup.c on new devices, whose files have the numbers from 3 on.
use aosv_project.Prelude.{ℕ, List, [], ◌∷◌, ◌+◌, ◌-◌, ◌%◌, ℤ, pos, negsuc}
use aosv_project.Programs.Groups.Logs

abbrev file : ℕ → ℤ
file desc = pos (desc + 3)

abbrev group_of : ℤ → ℕ
group_of (pos n) = n - 3
group_of (negsuc n) = 0

abbrev tids : ℕ → ℕ
tids i = 4000 + i % 3

abbrev turns : List ℕ
turns = 2 ∷ 1 ∷ 2 ∷ 2 ∷ 0 ∷ 1 ∷ []
