-- ===== src/Device/Timers/Accounts.antt =====
-- Where each work and `wq_sem` are, however the threads interleave: sums over the threads.
use aosv_project.Prelude.{ℕ, ◌+◌, ◌≤◌, ◌<◌, ◌≡◌, Bool, ◌==◌, if◌then◌else◌, total, occurrences}
use aosv_project.Device.Timers.{
  WorkShared, WorkPc, idle, add_enter, add_queue, sweep_enter, sweep_start, sweep_unlink, sweep_now,
  sweep_wait, sweep_drain, sweep_clear, run_test, run_unlink, run_free, WorkThreads,
}

abbrev pub flag_of : Bool → ℕ
flag_of b = if b then 1 else 0

-- Whether a thread holds `wq_sem`, and whether it has set the flag.
abbrev pub holds_works : WorkPc → ℕ
holds_works idle = 0
holds_works (add_enter w) = 0
holds_works sweep_enter = 0
holds_works (run_test w) = 0
holds_works (run_unlink w) = 0
holds_works (run_free w) = 0
holds_works _ = 1

abbrev pub marks : WorkPc → ℕ
marks sweep_start = 1
marks (sweep_unlink w q) = 1
marks (sweep_now w q) = 1
marks (sweep_wait w q) = 1
marks sweep_drain = 1
marks sweep_clear = 1
marks _ = 0

-- Whether a thread runs the work, and whether it has it to queue or to free.
abbrev pub works : ℕ → WorkPc → ℕ
works a (run_test w) = if w == a then 1 else 0
works a (run_unlink w) = if w == a then 1 else 0
works a (run_free w) = if w == a then 1 else 0
works a _ = 0

abbrev pub keeps : ℕ → WorkPc → ℕ
keeps a (add_enter w) = if w == a then 1 else 0
keeps a (add_queue w) = if w == a then 1 else 0
keeps a p = works a p

-- In how many places a work is, but for the threads.
abbrev pub accounts : ℕ → WorkShared → ℕ
accounts a s = occurrences a s.queued + occurrences a s.freed

-- What holds between any two steps: `wq_sem` is free or held by one thread, and the flag is set while
-- one of them is in the marked part; a work that has been allocated is in exactly one place (with the
-- thread that adds it, queued, with the thread that runs it, or freed), and one that has not in none.
pub record IsAccounted (s : WorkThreads) : Type 0 where
  pub held : s.shared.wq_sem + total holds_works s.threads ≡ 1
  pub marked : flag_of s.shared.flushing ≡ total marks s.threads
  pub listed : (a : ℕ) → occurrences a s.shared.running ≡ total (works a) s.threads
  pub known : (a : ℕ) → a < s.next → accounts a s.shared + total (keeps a) s.threads ≡ 1
  pub fresh : (a : ℕ) → s.next ≤ a → accounts a s.shared + total (keeps a) s.threads ≡ 0
