-- ===== src/Device/Timers/Early.antt =====
-- A timer that expires before `add_delayed_work` has linked its work: `queue_delayed_work` comes before
-- `list_add`, and the work's function takes no `wq_sem`.
use aosv_project.Prelude.{ℕ, ◌≡◌, refl, false, List, [], ◌∷◌, ◌++◌, none, has, list_del, arith}
use aosv_project.Device.Timers.{
  WorkShared, WorkPc, idle, add_queue, add_link, run_test, run_unlink, run_free, crashes, work_step,
  link_work, unlink_work, WorkThreads, starts, takes_step, WorkReach, begins, goes_on, next_of,
  prev_from, Option, some,
}

-- An entry that is not in the list has no neighbours.
next_of-none : (w : ℕ) (l : List ℕ) → has w l ≡ false → next_of w l ≡ none
next_of-none w [] h = refl
next_of-none w (x ∷ []) h = refl
next_of-none w (x ∷ y ∷ ys) h = ground (arith, next_of-none w (y ∷ ys))

prev_from-none : (p : Option ℕ) (w : ℕ) (l : List ℕ) → has w l ≡ false → prev_from p w l ≡ none
prev_from-none p w [] h = refl
prev_from-none p w (x ∷ xs) h = ground (arith, prev_from-none (some x) w xs)

list_del-none : (w : ℕ) (l : List ℕ) → has w l ≡ false → list_del w l ≡ l
list_del-none w [] h = refl
list_del-none w (x ∷ xs) h = ground (arith, list_del-none w xs)

-- What the device is when the work has run, unlinked and freed itself.
abbrev gone : ℕ → WorkShared → WorkShared
gone w s = record s { running = []; unlinked = w ∷ s.unlinked; freed = w ∷ s.freed }

-- On any device on which no work runs and no flush has set the flag, a thread that is about to queue a
-- new work (one that is neither linked, nor poisoned, nor freed) can be overtaken by it: the work is
-- queued, its timer expires, it runs and frees itself, and the thread's `list_add` then uses freed memory.
pub add_link-crashes :
    (w : ℕ) (xs ys : List WorkPc) (s : WorkThreads)
    → s.threads ≡ xs ++ add_queue w ∷ ys
    → s.shared.running ≡ []
    → s.shared.flushing ≡ false
    → has w s.shared.delay_list ≡ false
    → has w s.shared.unlinked ≡ false
    → has w s.shared.freed ≡ false
    → (t : WorkThreads) × WorkReach s t
      × (t.threads ≡ idle ∷ (xs ++ add_link w ∷ ys))
      × (work_step (add_link w) t.shared ≡ crashes)
unfolding work_step link_work unlink_work
add_link-crashes w xs ys s e r f l u d = (
  record s { shared = gone w s.shared; threads = idle ∷ others },
  goes_on
      (goes_on
        (goes_on
          (goes_on (goes_on begins (takes_step xs ys (add_queue w) (add_link w) queued e refl))
            (starts w (ground arith) r))
          (takes_step [] others (run_test w) (run_unlink w) started refl (ground arith)))
        (takes_step [] others (run_unlink w) (run_free w) unlinked refl (
          ground (
            arith,
            next_of-none w s.shared.delay_list l,
            prev_from-none none w s.shared.delay_list l,
            list_del-none w s.shared.delay_list l,
          ))))
      (takes_step [] others (run_free w) idle (gone w s.shared) refl (ground arith)),
  refl,
  ground arith,
)
  where
    others : List WorkPc
    others = xs ++ add_link w ∷ ys

    queued : WorkShared
    queued = record s.shared { queued = w ∷ s.shared.queued }

    started : WorkShared
    started = record queued { queued = list_del w queued.queued; running = w ∷ [] }

    unlinked : WorkShared
    unlinked = record started { unlinked = w ∷ s.shared.unlinked }
