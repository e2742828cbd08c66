-- ===== src/Device/Timers/Places.antt =====
-- What holds of the works of a device at every moment, however timers and calls interleave.
use aosv_project.Prelude.{
  ℕ, ◌+◌, ◌≤◌, ◌≡◌, refl, ap, List, ◌∷◌, ◌++◌, arith, total, total-among, total-le, occurrences,
  occurrences-has, occurrences-list_del,
}
use aosv_project.Device.Timers.{
  WorkShared, WorkPc, idle, add_enter, add_queue, add_link, add_leave, sweep_enter, sweep_mark,
  sweep_start, sweep_unlink, sweep_now, sweep_wait, sweep_drain, sweep_clear, sweep_leave, run_test,
  run_unlink, run_free, WorkThreads, WorkStep, adds, sweeps, starts, takes_step, WorkReach, begins,
  goes_on, no_timers,
}
use aosv_project.Device.Timers.Accounts.{holds_works, marks, works, keeps, IsAccounted}
use aosv_project.Device.Timers.Turns.{Rest, Settled, work_step-Settled}

marks_le : (p : WorkPc) → marks p ≤ holds_works p
marks_le idle = omega arith
marks_le (add_enter w) = omega arith
marks_le (add_queue w) = omega arith
marks_le (add_link w) = omega arith
marks_le add_leave = omega arith
marks_le sweep_enter = omega arith
marks_le sweep_mark = omega arith
marks_le sweep_start = omega arith
marks_le (sweep_unlink w q) = omega arith
marks_le (sweep_now w q) = omega arith
marks_le (sweep_wait w q) = omega arith
marks_le sweep_drain = omega arith
marks_le sweep_clear = omega arith
marks_le sweep_leave = omega arith
marks_le (run_test w) = omega arith
marks_le (run_unlink w) = omega arith
marks_le (run_free w) = omega arith

rest : List WorkPc → List WorkPc → ℕ → Rest
rest xs ys next = record {
  hold = total holds_works xs + total holds_works ys;
  mark = total marks xs + total marks ys;
  mark_le =
      omega (arith, total-le marks holds_works xs marks_le, total-le marks holds_works ys marks_le);
  work = λ a. total (works a) xs + total (works a) ys;
  keep = λ a. total (keeps a) xs + total (keeps a) ys;
  next = next;
}

split-Settled :
    (s : WorkThreads) (xs ys : List WorkPc) (p : WorkPc)
    → s.threads ≡ xs ++ p ∷ ys
    → IsAccounted s
    → Settled (rest xs ys s.next) s.shared p
unfolding rest
split-Settled s xs ys p e v = record {
  held = omega (arith, v.held, ap (total holds_works) e, total-among holds_works xs ys p);
  marked = omega (arith, v.marked, ap (total marks) e, total-among marks xs ys p);
  listed = λ a. omega (arith, v.listed a, ap (total (works a)) e, total-among (works a) xs ys p);
  known = λ a h. omega (arith, v.known a h, ap (total (keeps a)) e, total-among (keeps a) xs ys p);
  fresh = λ a h. omega (arith, v.fresh a h, ap (total (keeps a)) e, total-among (keeps a) xs ys p);
}

join-IsAccounted :
    (xs ys : List WorkPc) (q : WorkPc) (t : WorkShared) (next : ℕ)
    → Settled (rest xs ys next) t q
    → IsAccounted (record { shared = t; threads = xs ++ q ∷ ys; next = next })
unfolding rest
join-IsAccounted xs ys q t next b = record {
  held = omega (arith, b.held, total-among holds_works xs ys q);
  marked = omega (arith, b.marked, total-among marks xs ys q);
  listed = λ a. omega (arith, b.listed a, total-among (works a) xs ys q);
  known = λ a h. omega (arith, b.known a h, total-among (keeps a) xs ys q);
  fresh = λ a h. omega (arith, b.fresh a h, total-among (keeps a) xs ys q);
}

pub WorkStep-IsAccounted : {s t : WorkThreads} → WorkStep s t → IsAccounted s → IsAccounted t
WorkStep-IsAccounted {s} adds v = record {
  held = omega (arith, v.held);
  marked = omega (arith, v.marked);
  listed = λ a. omega (arith, v.listed a);
  known = λ a h. ground (arith, v.known a, v.fresh a);
  fresh = λ a h. ground (arith, v.fresh a);
}
WorkStep-IsAccounted sweeps v = record {
  held = omega (arith, v.held);
  marked = omega (arith, v.marked);
  listed = λ a. omega (arith, v.listed a);
  known = λ a h. omega (arith, v.known a h);
  fresh = λ a h. omega (arith, v.fresh a h);
}
WorkStep-IsAccounted {s} (starts w h e) v = record {
  held = omega (arith, v.held);
  marked = omega (arith, v.marked);
  listed = λ a. omega (arith, v.listed a, ap (occurrences a) e);
  known = λ a g. ground (
    arith,
    v.known a g,
    occurrences-list_del a w s.shared.queued,
    occurrences-has w s.shared.queued h,
  );
  fresh = λ a g. ground (
    arith,
    v.fresh a g,
    occurrences-list_del a w s.shared.queued,
    occurrences-has w s.shared.queued h,
  );
}
WorkStep-IsAccounted {s} (takes_step xs ys p q t e f) v =
    join-IsAccounted xs ys q t s.next
      (rw f at (work_step-Settled (rest xs ys s.next) s.shared p (split-Settled s xs ys p e v)))

-- However the calls that add works, the flushes and the timers interleave, from a device without
-- works on: never two threads hold `wq_sem`, the flag is set exactly while a flush is in its marked
-- part, and each work that has been allocated is in exactly one place: with the thread that adds it,
-- queued, with the thread that runs it, or freed. So none is freed twice, and none is lost.
pub WorkReach-IsAccounted : {t : WorkThreads} → WorkReach no_timers t → IsAccounted t
WorkReach-IsAccounted begins = record {
  held = refl;
  marked = refl;
  listed = λ a. refl;
  known = λ a h. omega arith;
  fresh = λ a h. refl;
}
WorkReach-IsAccounted (goes_on r s) = WorkStep-IsAccounted s (WorkReach-IsAccounted r)
