-- ===== src/Device/Timers.antt =====
-- kmodule/group_dev.c: any number of threads inside of `add_delayed_work` and `fflush_workqueue` of one
-- device, and the works whose timers expire meanwhile, one access to what they share at a time.
--
-- A work is an address, and no address is used twice. `wq_sem` guards the flag and the list of works
-- against the calls, but `delayed_work_fun` does not take it. What it does before the label `exit` only
-- concerns the messages and is in Device/Threads. A timer may expire at any moment; the workqueue has
-- one thread, so works run one after the other.
pub mod Accounts
pub mod Turns
pub mod Places
pub mod Early
pub mod Timely
pub mod Neighbours
pub mod Tidying
pub mod Orderly
pub mod Safety
pub mod Progress
pub mod Alone
use aosv_project.Prelude.{
  ℕ, ◌+◌, ◌-◌, Bool, true, false, List, [], ◌∷◌, ◌++◌, Option, none, some, ◌==◌, ◌||◌,
  if◌then◌else◌, unsnoc, has, list_del, ◌≡◌,
}

-- `queued`: the works whose timer runs; `unlinked`: those that `list_del` has poisoned; `freed`: those
-- that have been freed.
pub record WorkShared : Type 0 where
  pub wq_sem : ℕ
  pub flushing : Bool
  pub delay_list : List ℕ
  pub queued : List ℕ
  pub running : List ℕ
  pub unlinked : List ℕ
  pub freed : List ℕ

-- Where a thread is. The loop of the flush has an entry and the one to go on with, or the list's head.
pub data WorkPc : Type 0 where
  idle : WorkPc
  add_enter add_queue add_link : ℕ → WorkPc
  add_leave : WorkPc
  sweep_enter sweep_mark sweep_start : WorkPc
  sweep_unlink sweep_now sweep_wait : ℕ → Option ℕ → WorkPc
  sweep_drain sweep_clear sweep_leave : WorkPc
  run_test run_unlink run_free : ℕ → WorkPc

-- One step of a thread: it waits, it goes on, or it uses a work that is freed or poisoned.
pub data WorkTurn : Type 0 where
  waits crashes : WorkTurn
  steps : WorkShared → WorkPc → WorkTurn

-- The neighbours of an entry; the list's head is none.
abbrev pub next_of : ℕ → List ℕ → Option ℕ
next_of w [] = none
next_of w (x ∷ []) = none
next_of w (x ∷ y ∷ ys) = if x == w then some y else next_of w (y ∷ ys)

abbrev pub prev_from : Option ℕ → ℕ → List ℕ → Option ℕ
prev_from p w [] = none
prev_from p w (x ∷ xs) = if x == w then p else prev_from (some x) w xs

abbrev pub prev_of : ℕ → List ℕ → Option ℕ
prev_of w l = prev_from none w l

abbrev pub first_of : List ℕ → Option ℕ
first_of [] = none
first_of (x ∷ xs) = some x

-- An entry that is freed; the head belongs to the device.
abbrev pub is_freed : Option ℕ → List ℕ → Bool
is_freed none freed = false
is_freed (some w) freed = has w freed

abbrev pub down_works : WorkShared → WorkPc → WorkTurn
down_works s p = if s.wq_sem == 0 then waits else steps (record s { wq_sem = s.wq_sem - 1 }) p

-- Whether `list_add`, which also writes to the first entry, and `list_del`, which also writes to both
-- neighbours, use an entry that is freed or poisoned.
abbrev pub bad_link : ℕ → WorkShared → Bool
bad_link w s = has w s.freed || is_freed (first_of s.delay_list) s.freed

abbrev pub bad_unlink : ℕ → WorkShared → Bool
bad_unlink w s =
    has w s.freed
    || (has w s.unlinked
        || (is_freed (next_of w s.delay_list) s.freed || is_freed (prev_of w s.delay_list) s.freed))

unfoldable pub link_work : ℕ → WorkShared → WorkPc → WorkTurn
link_work w s p =
    if bad_link w s
    then crashes
    else steps (record s { delay_list = w ∷ s.delay_list; unlinked = list_del w s.unlinked }) p

unfoldable pub unlink_work : ℕ → WorkShared → WorkPc → WorkTurn
unlink_work w s p =
    if bad_unlink w s
    then crashes
    else steps (record s { delay_list = list_del w s.delay_list; unlinked = w ∷ s.unlinked }) p

-- The head of the loop, which reads the entry before this one.
unfoldable pub aim : Option ℕ → WorkShared → WorkTurn
aim none s = steps s sweep_drain
aim (some w) s =
    if has w s.freed then crashes else steps s (sweep_unlink w (prev_of w s.delay_list))

-- The entry the loop begins with.
abbrev pub last_of : List ℕ → Option ℕ
last_of l = elim (unsnoc l) [ none ↦ none | some (w, rest) ↦ some w ]

-- `flush_delayed_work` returns when the work is done.
abbrev pub await : ℕ → Option ℕ → WorkShared → WorkTurn
unfolding aim
await w q s = if has w s.queued || has w s.running then waits else aim q s

-- `drain_workqueue`
abbrev pub drain : WorkShared → List ℕ → WorkTurn
drain s [] = steps s sweep_clear
drain s (w ∷ ws) = waits

unfoldable pub work_step : WorkPc → WorkShared → WorkTurn
unfolding link_work unlink_work aim
work_step idle s = waits
work_step (add_enter w) s = down_works s (add_queue w)
work_step (add_queue w) s = steps (record s { queued = w ∷ s.queued }) (add_link w)
work_step (add_link w) s = link_work w s add_leave
work_step add_leave s = steps (record s { wq_sem = s.wq_sem + 1 }) idle
work_step sweep_enter s = down_works s sweep_mark
work_step sweep_mark s = steps (record s { flushing = true }) sweep_start
work_step sweep_start s = aim (last_of s.delay_list) s
work_step (sweep_unlink w q) s = unlink_work w s (sweep_now w q)
work_step (sweep_now w q) s = if has w s.freed then crashes else steps s (sweep_wait w q)
work_step (sweep_wait w q) s = await w q s
work_step sweep_drain s = drain s s.running
work_step sweep_clear s = steps (record s { flushing = false }) sweep_leave
work_step sweep_leave s = steps (record s { wq_sem = s.wq_sem + 1 }) idle
work_step (run_test w) s = if s.flushing then steps s (run_free w) else steps s (run_unlink w)
work_step (run_unlink w) s = unlink_work w s (run_free w)
work_step (run_free w) s =
    steps (record s { freed = w ∷ s.freed; running = list_del w s.running }) idle

-- The works of addresses from `next` on have not been allocated yet.
pub record WorkThreads : Type 0 where
  pub shared : WorkShared
  pub threads : List WorkPc
  pub next : ℕ

-- One step of the whole: a call arrives, a work starts, or a thread takes a turn.
pub data WorkStep (s : WorkThreads) : WorkThreads → Type 0 where
  adds : WorkStep s (record s { threads = add_enter s.next ∷ s.threads; next = s.next + 1 })
  sweeps : WorkStep s (record s { threads = sweep_enter ∷ s.threads })
  starts :
      (w : ℕ)
      → has w s.shared.queued ≡ true
      → s.shared.running ≡ []
      → WorkStep s (record s {
        shared = record s.shared { queued = list_del w s.shared.queued; running = w ∷ [] };
        threads = run_test w ∷ s.threads;
      })
  takes_step :
      (xs ys : List WorkPc) (p q : WorkPc) (t : WorkShared)
      → s.threads ≡ xs ++ p ∷ ys
      → work_step p s.shared ≡ steps t q
      → WorkStep s (record s { shared = t; threads = xs ++ q ∷ ys })

pub data WorkReach (s : WorkThreads) : WorkThreads → Type 0 where
  begins : WorkReach s s
  goes_on : {t u : WorkThreads} → WorkReach s t → WorkStep t u → WorkReach s u

-- A device without works, on which no thread is in a call.
abbrev pub no_timers : WorkThreads
no_timers = record {
  shared = record {
    wq_sem = 1;
    flushing = false;
    delay_list = [];
    queued = [];
    running = [];
    unlinked = [];
    freed = [];
  };
  threads = [];
  next = 0;
}
