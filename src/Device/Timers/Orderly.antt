-- ===== src/Device/Timers/Orderly.antt =====
-- What holds of the works of a device throughout a timely run.
use mathlib.Core.Path.{subst}
use aosv_project.Prelude.{
  ℕ, ◌+◌, ◌≤◌, ◌≡◌, sym, ap, ◌∙◌, List, [], ◌∷◌, ◌++◌, arith, inl, inr, Option, none, some, total,
  total-among, total-append, occurrences-has, occurrences-list_del,
}
use aosv_project.Device.Timers.{
  WorkPc, idle, add_enter, add_queue, add_link, add_leave, sweep_enter, sweep_mark, sweep_start,
  sweep_unlink, sweep_now, sweep_wait, sweep_drain, sweep_clear, sweep_leave, run_test, run_unlink,
  run_free, work_step, WorkThreads, WorkStep, adds, sweeps, starts, takes_step, WorkReach, begins,
  goes_on, no_timers,
}
use aosv_project.Device.Timers.Accounts.{holds_works, marks, works, keeps, IsAccounted}
use aosv_project.Device.Timers.Places.{WorkReach-IsAccounted}
use aosv_project.Device.Timers.Timely.{
  at, stills, creates, links, nows, awaits, points, pends, unlinks, Tally, tally, IsTidy, Entering,
  IsTimely, TimelyReach, at_first, then_on,
}
use aosv_project.Device.Timers.Tidying.{with_thread, Apart, Placed, StaysTidy, work_step-StaysTidy}

at-le : (a : ℕ) (q : Option ℕ) → at a q ≤ 1
at-le a none = omega arith
at-le a (some w) = ground arith

-- What the tally of one thread keeps to.
record Fits (a : ℕ) (n : Tally) (p : WorkPc) : Type 0 where
  apart : Apart n
  kept : n.create + n.pend ≤ keeps a p
  run : n.pend ≤ works a p

fits : (a : ℕ) (p : WorkPc) → Fits a (tally a (p ∷ [])) p
fits a idle = ground arith
fits a (add_enter w) = ground arith
fits a (add_queue w) = ground arith
fits a (add_link w) = ground arith
fits a add_leave = ground arith
fits a sweep_enter = ground arith
fits a sweep_mark = ground arith
fits a sweep_start = ground arith
fits a (sweep_unlink w q) = ground (arith, at-le a q)
fits a (sweep_now w q) = ground (arith, at-le a q)
fits a (sweep_wait w q) = ground (arith, at-le a q)
fits a sweep_drain = ground arith
fits a sweep_clear = ground arith
fits a sweep_leave = ground arith
fits a (run_test w) = ground arith
fits a (run_unlink w) = ground arith
fits a (run_free w) = ground arith

pub tally-Apart : (a : ℕ) (ps : List WorkPc) → Apart (tally a ps)
tally-Apart a [] = ground arith
tally-Apart a (p ∷ ps) = ground (arith, fits a p, tally-Apart a ps)

tally-keeps :
    (a : ℕ) (ps : List WorkPc)
    → (total (creates a) ps + total (pends a) ps ≤ total (keeps a) ps)
      × (total (pends a) ps ≤ total (works a) ps)
tally-keeps a [] = ground arith
tally-keeps a (p ∷ ps) = ground (arith, fits a p, tally-keeps a ps)

total-insert :
    (weight : WorkPc → ℕ) (xs ys : List WorkPc) (p : WorkPc)
    → total weight (xs ++ p ∷ ys) ≡ total weight (xs ++ ys) + weight p
total-insert weight xs ys p = omega (arith, total-among weight xs ys p, total-append weight xs ys)

tally-insert :
    (a : ℕ) (xs ys : List WorkPc) (p : WorkPc)
    → tally a (xs ++ p ∷ ys) ≡ with_thread a (tally a (xs ++ ys)) p
tally-insert a xs ys p = λ i. record {
  hold = total-insert holds_works xs ys p i;
  mark = total-insert marks xs ys p i;
  still = total-insert stills xs ys p i;
  create = total-insert (creates a) xs ys p i;
  link = total-insert (links a) xs ys p i;
  now = total-insert (nows a) xs ys p i;
  await = total-insert (awaits a) xs ys p i;
  point = total-insert (points a) xs ys p i;
  pend = total-insert (pends a) xs ys p i;
  unlink = total-insert (unlinks a) xs ys p i;
}

pub IsAccounted-Placed :
    (s : WorkThreads) (a : ℕ) → IsAccounted s → Placed s.shared s.next a (tally a s.threads)
IsAccounted-Placed s a v =
    ground (arith, v.held, v.marked, v.listed a, v.known a, v.fresh a, tally-keeps a s.threads)

abbrev pub IsOrderly : WorkThreads → Type 0
IsOrderly s = (a : ℕ) → IsTidy s.shared s.next a (tally a s.threads)

-- A thread taken out of the others, and put back.
split_at :
    (P : Tally → Type 0) (a : ℕ) (ps xs ys : List WorkPc) (p : WorkPc)
    → ps ≡ xs ++ p ∷ ys
    → P (tally a ps)
    → P (with_thread a (tally a (xs ++ ys)) p)
split_at P a ps xs ys p e = subst P (ap (tally a) e ∙ tally-insert a xs ys p)

join_at :
    (P : Tally → Type 0) (a : ℕ) (xs ys : List WorkPc) (q : WorkPc)
    → P (with_thread a (tally a (xs ++ ys)) q)
    → P (tally a (xs ++ q ∷ ys))
join_at P a xs ys q = subst P (sym (tally-insert a xs ys q))

pub step_safe :
    {s : WorkThreads} (xs ys : List WorkPc) (p : WorkPc)
    → s.threads ≡ xs ++ p ∷ ys
    → IsAccounted s
    → IsOrderly s
    → Entering p s.shared
    → StaysTidy s.next
        (λ a. tally a (xs ++ ys))
        (λ a. tally-Apart a (xs ++ ys))
        s.shared
        (work_step p s.shared)
step_safe {s} xs ys p e u v i =
    work_step-StaysTidy s.next (λ a. tally a (xs ++ ys)) (λ a. tally-Apart a (xs ++ ys)) s.shared p
      (λ a. split_at (IsTidy s.shared s.next a) a s.threads xs ys p e (v a))
      (λ a. split_at (Placed s.shared s.next a) a s.threads xs ys p e (IsAccounted-Placed s a u)) i

WorkStep-IsOrderly :
    {s t : WorkThreads} (step : WorkStep s t)
    → IsTimely step
    → IsAccounted s
    → IsOrderly s
    → IsOrderly t
WorkStep-IsOrderly {s} adds i u v a = ground (arith, v a, IsAccounted-Placed s a u)
WorkStep-IsOrderly {s} sweeps i u v a = ground (arith, v a)
WorkStep-IsOrderly {s} (starts w h e) (inl i) u v a = ground (
  arith,
  i,
  v a,
  IsAccounted-Placed s a u,
  tally-Apart a s.threads,
  occurrences-list_del a w s.shared.queued,
  occurrences-has w s.shared.queued h,
)
WorkStep-IsOrderly {s} (starts w h e) (inr i) u v a = ground (
  arith,
  i,
  v a,
  IsAccounted-Placed s a u,
  tally-Apart a s.threads,
  occurrences-list_del a w s.shared.queued,
  occurrences-has w s.shared.queued h,
)
WorkStep-IsOrderly {s} (takes_step xs ys p q t e f) i u v a =
    join_at (IsTidy t s.next a) a xs ys q (rw f at (step_safe xs ys p e u v i) a)

-- A timely run is a run.
pub TimelyReach-WorkReach : {s t : WorkThreads} → TimelyReach s t → WorkReach s t
TimelyReach-WorkReach at_first = begins
TimelyReach-WorkReach (then_on r step i) = goes_on (TimelyReach-WorkReach r) step

pub TimelyReach-IsAccounted : {t : WorkThreads} → TimelyReach no_timers t → IsAccounted t
TimelyReach-IsAccounted r = WorkReach-IsAccounted (TimelyReach-WorkReach r)

pub TimelyReach-IsOrderly : {t : WorkThreads} → TimelyReach no_timers t → IsOrderly t
TimelyReach-IsOrderly at_first = λ a. ground arith
TimelyReach-IsOrderly (then_on r step i) =
    WorkStep-IsOrderly step i (TimelyReach-IsAccounted r) (TimelyReach-IsOrderly r)
