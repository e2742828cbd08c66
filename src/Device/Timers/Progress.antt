-- ===== src/Device/Timers/Progress.antt =====
-- `wq_sem`, the works that a flush waits for, and the workqueue cannot hold each other up.
use aosv_project.Prelude.{ℕ, ◌≤◌, ◌≡◌, ◌≢◌, true, List, [], ◌∷◌, ◌++◌, has, total}
use aosv_project.Device.Timers.{WorkShared, WorkPc, idle, waits, steps, work_step, WorkThreads}
use aosv_project.Device.Timers.Timely.{Entering, awaits}

-- Whether a thread is in a call or runs a work.
abbrev pub engaged : WorkPc → ℕ
engaged idle = 0
engaged _ = 1

-- Something goes on other than a new call: a thread takes its turn, or a timer that may expire does.
pub data CanGo (s : WorkThreads) : Type 0 where
  may_step :
      (xs ys : List WorkPc) (p q : WorkPc) (t : WorkShared)
      → s.threads ≡ xs ++ p ∷ ys
      → Entering p s.shared
      → work_step p s.shared ≡ steps t q
      → CanGo s
  may_start :
      (w : ℕ)
      → has w s.shared.queued ≡ true
      → s.shared.running ≡ []
      → 1 ≤ total (awaits w) s.threads
      → CanGo s

module _ (s : WorkShared) where
  abbrev IsReady : WorkPc → Type 0
  IsReady p = Entering p s × (work_step p s ≢ waits)
