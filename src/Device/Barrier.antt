-- ===== src/Device/Barrier.antt =====
-- kmodule/group_dev.c: threads on the barrier of one device, between the steps of
-- IOCTL_SLEEP_ON_BARRIER and IOCTL_AWAKE_BARRIER. `wait_event` is Linux': it tests its condition, and
-- then, over and over, enters the wait queue, tests again, and sleeps until it is woken.
pub mod Waking
use aosv_project.Prelude.{
  ℕ, ◌+◌, ◌-◌, Bool, true, false, not, List, [], ◌∷◌, ◌==◌, if◌then◌else◌, list_empty, list_del,
}
use aosv_project.Device.{GroupDev}
use aosv_project.Device.Flags.{is_barrier_up, set_barrier, clear_barrier}

-- Where a thread is: in no call; before the first test; about to enter the queue; in the queue, before
-- the second test; asleep; woken up.
pub data Phase : Type 0 where
  away first_test entering second_test asleep woken : Phase

-- `queue` is the wait queue. Of the calls that awaken, `wakers` have taken the barrier down and not yet
-- tested the queue; `rousers` have found a thread in it and not yet woken it; and `late` have
-- tested it before their store to `flags` could be seen, and found it empty.
pub record Barrier : Type 0 where
  pub dev : GroupDev
  pub threads : ℕ → Phase
  pub queue : List ℕ
  pub wakers : ℕ
  pub rousers : ℕ
  pub late : ℕ

-- A step of a thread that sleeps, or one of a call that awakens: `clear_barrier`, `waitqueue_active` and
-- `wake_up_all`. The macro `clear_bit` of kmodule/group_dev.h is a plain assignment, and nothing orders
-- it before the test: `look_ahead` is a test that comes before the assignment is seen, and `land` the
-- moment from which it is.
pub data Move : Type 0 where
  thread : ℕ → Move
  take_down test_queue wake_up : Move
  look_ahead land : Move

unfoldable pub up : GroupDev → Bool
up d = not (is_barrier_up d == 0)

abbrev pub at_phase : ℕ → Phase → (ℕ → Phase) → ℕ → Phase
at_phase i φ threads j = if j == i then φ else threads j

-- `wake_up_all`: whoever is in the queue runs again.
abbrev pub roused : Phase → Phase
roused second_test = woken
roused asleep = woken
roused φ = φ

-- The next step of a thread, by its phase and whether the barrier is up. Only its first step changes
-- the device.
abbrev pub next_phase : Bool → Phase → Phase
next_phase is_up away = first_test
next_phase is_up first_test = if is_up then entering else away
next_phase is_up entering = second_test
next_phase is_up second_test = if is_up then asleep else away
next_phase is_up asleep = asleep
next_phase is_up woken = entering

abbrev pub next_dev : Phase → GroupDev → GroupDev
next_dev away d = set_barrier d
next_dev φ d = d

-- A thread enters the queue before its second test, and leaves it when the test tells it to go.
abbrev pub next_queue : Bool → Phase → ℕ → List ℕ → List ℕ
next_queue is_up entering i queue = i ∷ queue
next_queue is_up second_test i queue = if is_up then queue else list_del i queue
next_queue is_up φ i queue = queue

abbrev pub lowered : GroupDev → GroupDev
lowered d = if is_barrier_up d == 0 then d else clear_barrier d

unfoldable pub move : Move → Barrier → Barrier
unfolding up
move (thread i) s = record s {
  dev = next_dev (s.threads i) s.dev;
  threads = at_phase i (next_phase (up s.dev) (s.threads i)) s.threads;
  queue = next_queue (up s.dev) (s.threads i) i s.queue;
}
move take_down s = record s { dev = lowered s.dev; wakers = s.wakers + 1 }
move test_queue s = if s.wakers == 0 then s else record s {
  wakers = s.wakers - 1;
  rousers = if list_empty s.queue then s.rousers else s.rousers + 1;
}
move wake_up s =
    if s.rousers == 0
    then s
    else record s { threads = λ j. roused (s.threads j); queue = []; rousers = s.rousers - 1 }
move look_ahead s = if list_empty s.queue then record s { late = s.late + 1 } else s
move land s = if s.late == 0 then s else record s { dev = lowered s.dev; late = s.late - 1 }

unfoldable pub moves : List Move → Barrier → Barrier
unfolding move
moves [] s = s
moves (m ∷ ms) s = moves ms (move m s)

-- Nobody is on the barrier of a device.
abbrev pub deserted : GroupDev → Barrier
deserted d = record { dev = d; threads = λ j. away; queue = []; wakers = 0; rousers = 0; late = 0 }
