-- ===== src/Tests/Workers.antt =====
-- The programs of lib with several children on a new device, with a schedule that mixes their calls.
use aosv_project.Programs.Workers.Logs
use aosv_project.Prelude.{
  refl, ℕ, List, [], ◌∷◌, ◌++◌, ◌+◌, ◌*◌, ◌%◌, ◌≡◌, map, length, pos, arith, true,
}
use aosv_project.Device.{IsIdle}
use aosv_project.Device.Refinement.{view}
use aosv_project.Manager.Install.{new_device}
use aosv_project.Programs.{stage, written}
use aosv_project.Programs.Exchange.{got}
use aosv_project.Programs.Stages.{empty_slot, in_group}
use aosv_project.Programs.OnDevice.{library_of}
use mathlib.Core.List.{Perm}
use aosv_project.Programs.Workers.Deliveries.{due}
use aosv_project.Programs.Workers.{mp_children, mp_readwrite}
use aosv_project.Tests.Devices.{box, box-IsLinux}
use aosv_project.Tests.Logs.{good_days, good_days-IsFine, sizes, bare, bare-IsIdle}
use aosv_project.Device.{GroupDev}

abbrev schedule : List ℕ
schedule = 2 ∷ 0 ∷ 1 ∷ 2 ∷ 2 ∷ []

abbrev tids : ℕ → ℕ
tids i = 4000 + 3 * (i % 3)

mp_readwrite-library_of_example :
    (e : GroupDev) × (ms : List (List ℕ)) × (length ms ≡ 3)
    × Perm ms (due (mp_children tids))
    × (mp_readwrite (library_of box sizes good_days (pos 3)) 3 schedule tids bare
        ≡ stage true (in_group 1 (pos 3) (map written ms ++ map got ms)) e)
    × IsIdle e
    × (view e ≡ empty_slot 0)
unfolding new_device
mp_readwrite-library_of_example =
    Logs.mp_readwrite-library_of box sizes good_days good_days-IsFine box-IsLinux (omega arith)
      (omega arith) (pos 3) refl bare bare-IsIdle refl (omega arith) (λ n lo hi. ground arith) 3
      (omega arith) schedule tids (λ i. omega arith) (omega arith)
