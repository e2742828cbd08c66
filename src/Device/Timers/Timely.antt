-- ===== src/Device/Timers/Timely.antt =====
-- Timers that expire between the sections of `wq_sem`, and the works that a flush runs itself: the
-- order that the code of `add_delayed_work`, `delayed_work_fun` and `fflush_workqueue` counts on, and that
-- nothing ensures.
use aosv_project.Prelude.{
  ℕ, ◌+◌, ◌≤◌, ◌≡◌, ◌⊎◌, Option, none, some, List, [], ◌==◌, if◌then◌else◌, total, occurrences,
}
use aosv_project.Device.Timers.{
  WorkShared, WorkPc, add_enter, add_queue, add_link, add_leave, sweep_enter, sweep_mark,
  sweep_unlink, sweep_now, sweep_wait, sweep_clear, sweep_leave, run_test, run_unlink, WorkThreads,
  WorkStep, adds, sweeps, starts, takes_step,
}
use aosv_project.Device.Timers.Accounts.{flag_of, holds_works, marks}

-- Whether an entry is at the address.
abbrev pub at : ℕ → Option ℕ → ℕ
at a none = 0
at a (some w) = if w == a then 1 else 0

-- Whether a thread is in a part in which no work runs.
abbrev pub stills : WorkPc → ℕ
stills (add_queue w) = 1
stills (add_link w) = 1
stills add_leave = 1
stills sweep_mark = 1
stills sweep_clear = 1
stills sweep_leave = 1
stills _ = 0

-- Whether a thread has the work to queue, to link, to flush, to wait for, to pass in its loop, to run,
-- or to unlink after it has run.
abbrev pub creates : ℕ → WorkPc → ℕ
creates a (add_enter w) = if w == a then 1 else 0
creates a (add_queue w) = if w == a then 1 else 0
creates a _ = 0

abbrev pub links : ℕ → WorkPc → ℕ
links a (add_link w) = if w == a then 1 else 0
links a _ = 0

abbrev pub nows : ℕ → WorkPc → ℕ
nows a (sweep_now w q) = if w == a then 1 else 0
nows a _ = 0

abbrev pub awaits : ℕ → WorkPc → ℕ
awaits a (sweep_wait w q) = if w == a then 1 else 0
awaits a _ = 0

abbrev pub points : ℕ → WorkPc → ℕ
points a (sweep_unlink w q) = at a (some w) + at a q
points a (sweep_now w q) = at a q
points a (sweep_wait w q) = at a q
points a _ = 0

abbrev pub pends : ℕ → WorkPc → ℕ
pends a (run_test w) = if w == a then 1 else 0
pends a (run_unlink w) = if w == a then 1 else 0
pends a _ = 0

abbrev pub unlinks : ℕ → WorkPc → ℕ
unlinks a (run_unlink w) = if w == a then 1 else 0
unlinks a _ = 0

-- A work starts while `wq_sem` is free, or because a flush waits for it; and no call gets `wq_sem`
-- while a work runs.
abbrev pub Entering : WorkPc → WorkShared → Type 0
Entering (add_enter w) s = s.running ≡ []
Entering sweep_enter s = s.running ≡ []
Entering _ s = Unit {0}

abbrev pub IsTimely : {s t : WorkThreads} → WorkStep s t → Type 0
IsTimely adds = Unit {0}
IsTimely sweeps = Unit {0}
IsTimely {s} (starts w h e) = (s.shared.wq_sem ≡ 1) ⊎ (1 ≤ total (awaits w) s.threads)
IsTimely {s} (takes_step xs ys p q t e f) = Entering p s.shared

pub data TimelyReach (s : WorkThreads) : WorkThreads → Type 0 where
  at_first : TimelyReach s s
  then_on :
      {t u : WorkThreads}
      → TimelyReach s t
      → (step : WorkStep t u) → IsTimely step
      → TimelyReach s u

-- What the threads have of the work at one address.
pub record Tally : Type 0 where
  pub hold : ℕ
  pub mark : ℕ
  pub still : ℕ
  pub create : ℕ
  pub link : ℕ
  pub now : ℕ
  pub await : ℕ
  pub point : ℕ
  pub pend : ℕ
  pub unlink : ℕ

abbrev pub tally : ℕ → List WorkPc → Tally
tally a ps = record {
  hold = total holds_works ps;
  mark = total marks ps;
  still = total stills ps;
  create = total (creates a) ps;
  link = total (links a) ps;
  now = total (nows a) ps;
  await = total (awaits a) ps;
  point = total (points a) ps;
  pend = total (pends a) ps;
  unlink = total (unlinks a) ps;
}

-- What holds between any two timely steps, of the work at one address. It is linked only while it is
-- queued or running, and a queued work is linked, about to be, or in the hands of a flush. It is linked
-- once at most, not before it has been queued and not after `list_del`. The loop of a flush stands on
-- linked works.
pub record IsTidy (s : WorkShared) (next a : ℕ) (n : Tally) : Type 0 where
  pub live : occurrences a s.delay_list + n.link ≤ occurrences a s.queued + n.pend
  pub reached : occurrences a s.queued ≤ occurrences a s.delay_list + n.link + (n.now + n.await)
  pub run_linked : n.pend ≤ occurrences a s.delay_list + flag_of s.flushing
  pub unlink_linked : n.unlink ≤ occurrences a s.delay_list
  pub unlink_unmarked : n.unlink + flag_of s.flushing ≤ 1
  pub flushed_unlinked : occurrences a s.delay_list + n.pend + flag_of s.flushing ≤ 2
  pub linked_once : occurrences a s.unlinked + occurrences a s.delay_list + (n.link + n.create) ≤ 1
  pub in_hand : occurrences a s.delay_list + (n.now + n.await) ≤ 1
  pub pointed : n.point ≤ occurrences a s.delay_list
  pub now_queued : n.now ≤ occurrences a s.queued
  pub still_quiet : n.pend + n.still ≤ 1
  pub poisoned : next ≤ a → occurrences a s.unlinked ≡ 0
