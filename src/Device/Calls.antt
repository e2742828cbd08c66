-- ===== src/Device/Calls.antt =====
-- A history of a device: the calls of kmodule/group_dev.c in the order in which they take the
-- device, with the timers that expire in between.
use aosv_project.Prelude.{ℕ, List, [], ◌∷◌, ℤ, pos}
use aosv_project.Kernel.{Run, done, ◌>>=◌, Services, Outcomes}
use aosv_project.Device.{GroupDev, opened}
use aosv_project.Device.Works.{run_work}
use aosv_project.Device.Read.{group_read}
use aosv_project.Device.Write.{Params, group_write}
use aosv_project.Device.Ioctl.{Command, Reply, returns, waits, group_unlocked_ioctl}

pub data Call : Type 0 where
  read : Outcomes → ℕ → Call
  write : Outcomes → List ℕ → ℕ → Call
  ioctl : Command → (arg : ℕ) (wait_queue : List ℕ) → Call
  expire : ℕ → Call

-- What the caller gets. A thread that waits on the barrier gets 0 in the end; a timer has no caller.
pub record Answer : Type 0 where
  pub ret : ℤ
  pub copied : List ℕ

abbrev pub answer : ℤ → List ℕ → Answer
answer r bytes = record { ret = r; copied = bytes }

abbrev pub eventual : Reply → ℤ
eventual (returns r) = r
eventual waits = pos 0

unfoldable pub step : Services → Params → Call → GroupDev → Run (GroupDev × Answer)
step k p (read o n) d = group_read o opened n d >>= λ r. done (r.dev, answer r.ret r.copied)
step k p (write o buf n) d = group_write k p o opened buf n d >>= λ r. done (r.dev, answer r.ret [])
step k p (ioctl cmd arg queue) d = group_unlocked_ioctl k opened cmd arg queue d >>= λ r.
    done (r.dev, answer (eventual r.reply) [])
step k p (expire w) d = run_work w d >>= λ e. done (e, answer (pos 0) [])

unfoldable pub run : Services → Params → List Call → GroupDev → Run (GroupDev × List Answer)
unfolding step
run k p [] d = done (d, [])
run k p (c ∷ cs) d = step k p c d >>= λ s. run k p cs s.0 >>= λ r. done (r.0, s.1 ∷ r.1)
