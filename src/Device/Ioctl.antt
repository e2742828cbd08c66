-- ===== src/Device/Ioctl.antt =====
-- kmodule/group_dev.c: `group_unlocked_ioctl`, with the commands of kmodule/ioctl.h.
use aosv_project.Prelude.{ℕ, ◌^◌, List, [], ◌==◌, leb, if◌then◌else◌, list_empty, ℤ, pos, minus_one}
use aosv_project.Kernel.{Run, done, ◌>>=◌, Services}
use aosv_project.Device.{GroupDev, Filp, no_file, no_device, opened}
use aosv_project.Device.Flags.{is_barrier_up, set_barrier, clear_barrier}
use aosv_project.Device.Messages.{set_delay}
use aosv_project.Device.Works.{fflush_workqueue}

-- `unknown` is any number that is none of the four.
pub data Command : Type 0 where
  sleep_on_barrier awake_barrier set_send_delay revoke_delayed_messages unknown : Command

-- How the call goes on: it returns, or the thread waits on the barrier until `wait_event` finds it
-- down, and then returns 0.
pub data Reply : Type 0 where
  returns : ℤ → Reply
  waits : Reply

pub record IoctlResult : Type 0 where
  pub dev : GroupDev
  pub reply : Reply
  pub woken : List ℕ  -- the threads that `wake_up_all` wakes

abbrev pub ioctl_result : GroupDev → Reply → List ℕ → IoctlResult
ioctl_result d r ws = record { dev = d; reply = r; woken = ws }

-- `wait_event` returns at once where its condition holds.
unfoldable pub ioctl_sleep : GroupDev → IoctlResult
ioctl_sleep d =
    let e = set_barrier d in
    ioctl_result e (if is_barrier_up e == 0 then returns (pos 0) else waits) []

-- `wait_queue` are the threads that wait on the device.
unfoldable pub ioctl_awake : List ℕ → GroupDev → IoctlResult
ioctl_awake wait_queue d =
    ioctl_result (if is_barrier_up d == 0 then d else clear_barrier d) (returns (pos 0))
      (if list_empty wait_queue then [] else wait_queue)

-- `arg` is an `unsigned long`: from 2 ^ 63 on it is negative as a `long`.
unfoldable pub ioctl_set_delay : Services → ℕ → GroupDev → IoctlResult
ioctl_set_delay k arg d =
    if leb (2 ^ 63) arg
    then ioctl_result d (returns minus_one) []
    else ioctl_result (set_delay k d arg) (returns (pos 0)) []

unfoldable pub ioctl_command :
    Services → Command → (arg : ℕ) (wait_queue : List ℕ) → GroupDev → Run IoctlResult
unfolding ioctl_sleep ioctl_awake ioctl_set_delay
ioctl_command k sleep_on_barrier arg queue d = done (ioctl_sleep d)
ioctl_command k awake_barrier arg queue d = done (ioctl_awake queue d)
ioctl_command k set_send_delay arg queue d = done (ioctl_set_delay k arg d)
ioctl_command k revoke_delayed_messages arg queue d =
    fflush_workqueue d >>= λ e. done (ioctl_result e (returns (pos 0)) [])
ioctl_command k unknown arg queue d = done (ioctl_result d (returns minus_one) [])

unfoldable pub group_unlocked_ioctl :
    Services → Filp → Command → (arg : ℕ) (wait_queue : List ℕ) → GroupDev → Run IoctlResult
unfolding ioctl_command
group_unlocked_ioctl k no_file cmd arg queue d = done (ioctl_result d (returns minus_one) [])
group_unlocked_ioctl k no_device cmd arg queue d = done (ioctl_result d (returns minus_one) [])
group_unlocked_ioctl k opened cmd arg queue d = ioctl_command k cmd arg queue d
