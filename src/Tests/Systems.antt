-- ===== src/Tests/Systems.antt =====
-- A history of the module: a group is installed, written to and read.

use aosv_project.Prelude.{refl, arith, true, List, [], ◌∷◌, pos}
use aosv_project.Kernel.{Ends, ◌>>=◌}
use aosv_project.Device.Calls.{read, write}
use aosv_project.Tsm.{TsmOutcomes, install_group_command}
use aosv_project.Manager.Registry.{install_group, get_group}
use aosv_project.Manager.Install.{install_device}
use aosv_project.Device.Write.{group_write}
use aosv_project.Device.Read.{group_read}
use aosv_project.Manager.Free.{group_free_all}
use aosv_project.System.{Action, on_tsm, on_group, live_on, act}
use aosv_project.System.Soundness
use aosv_project.System.Soundness.{AllProperActions, IsSound, fresh}
use aosv_project.System.Lifetime
use aosv_project.System.Lifetime.{AllFreed}
use aosv_project.Tests.Devices.{box, box-IsLinux, defaults, fine}
use aosv_project.Tests.Managers.{setup}

abbrev installing : TsmOutcomes
installing = record {
  struct_block = true;
  list_block = true;
  setup = setup;
  uncopied = 0;
  stale_ret = pos 0;
}

abbrev actions : List Action
actions =
    on_tsm installing (install_group_command 7)
    ∷ on_group 7 (write fine (111 ∷ 107 ∷ []) 2)
    ∷ on_group 7 (read fine 10)
    ∷ []

actions-AllProper : AllProperActions box defaults actions fresh
unfolding act install_group get_group install_device group_write group_read
actions-AllProper = (
  (refl, refl, refl),
  ((λ e. ((omega arith, omega arith, λ w f. refl), refl), tt), ((λ e. (tt, refl), tt), tt)),
)

live_on-IsSound_example : Ends IsSound (live_on box defaults actions fresh)
live_on-IsSound_example =
    Soundness.live_on-IsSound box defaults box-IsLinux (omega arith) actions fresh (refl, tt)
      actions-AllProper

lifetime-AllFreed_example :
    Ends AllFreed (live_on box defaults actions fresh >>= group_free_all (λ minor. []))
lifetime-AllFreed_example =
    Lifetime.lifetime-AllFreed box defaults box-IsLinux (omega arith) (λ minor. []) actions
      actions-AllProper
