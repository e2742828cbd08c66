-- ===== src/System.antt =====
-- The module as a whole: calls on the control device of kmodule/tsm.c, and calls and timers of the
-- installed groups, which find their device by its number (`group_open` of kmodule/group_dev.c).
pub mod Soundness
pub mod Lifetime
use aosv_project.Prelude.{ℕ, List, [], ◌∷◌, if◌then◌else◌, ◌==◌}
use aosv_project.Kernel.{Run, done, oops, ◌>>=◌, Services}
use aosv_project.Device.{GroupDev}
use aosv_project.Device.Write.{Params}
use aosv_project.Device.Calls.{Call, step}
use aosv_project.Manager.{Manager, Global, unset, dangling, good, GroupDevices}
use aosv_project.Tsm.{TsmOutcomes, TsmCommand, tsm_dev_ioctl}

pub data Action : Type 0 where
  on_tsm : TsmOutcomes → TsmCommand → Action
  on_group : (minor : ℕ) → Call → Action

-- One call on the device with a number. Without such a device there is no file to open.
unfoldable pub on_device : Services → Params → ℕ → Call → List GroupDev → Run (List GroupDev)
unfolding step
on_device k p minor c [] = done []
on_device k p minor c (d ∷ ds) =
    let rest = on_device k p minor c ds in
    if d.minor == minor
    then (step k p c d >>= λ r. done (r.0 ∷ ds))
    else (rest >>= λ es. done (d ∷ es))

unfoldable pub on_groups : Services → Params → ℕ → Call → Manager → Global → Run Manager
unfolding on_device
on_groups k p minor c m unset = done m
on_groups k p minor c m dangling = oops
on_groups k p minor c m (good gs) = on_device k p minor c gs.group_devs_list >>= λ ds.
    done (record m { group_devs = good (record gs { group_devs_list = ds }) })

unfoldable pub act : Services → Params → Action → Manager → Run Manager
unfolding on_groups tsm_dev_ioctl
act k p (on_tsm o c) m = tsm_dev_ioctl p o c m >>= λ r. done r.manager
act k p (on_group minor c) m = on_groups k p minor c m m.group_devs

unfoldable pub live_on : Services → Params → List Action → Manager → Run Manager
unfolding act
live_on k p [] m = done m
live_on k p (a ∷ as') m = act k p a m >>= live_on k p as'
