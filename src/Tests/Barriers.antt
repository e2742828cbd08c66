-- ===== src/Tests/Barriers.antt =====
-- Two threads and the barrier of a device.
use aosv_project.Prelude.{refl, List, ◌≡◌, arith, true, [], ◌∷◌, if◌then◌else◌, ◌==◌}
use aosv_project.Device.Barrier.{
  Barrier, Move, away, asleep, thread, take_down, test_queue, wake_up, up, moves,
}
use aosv_project.Device.Barrier.Waking
use aosv_project.Device.Barrier.Waking.{waits}
use aosv_project.Device.Flags.{is_barrier_up, check_bit}
use aosv_project.Tests.Devices.{sample}

-- Thread 1 sleeps, and thread 5 is about to wake the queue.
abbrev waking : Barrier
waking = record {
  dev = sample;
  threads = λ j. if j == 1 then asleep else away;
  queue = 1 ∷ [];
  wakers = 0;
  rousers = 1;
  late = 0;
}

abbrev steps : List Move
steps = thread 1 ∷ thread 1 ∷ thread 1 ∷ thread 1 ∷ take_down ∷ test_queue ∷ wake_up ∷ thread 1 ∷ []

moves-waits_example :
    (up (moves (wake_up ∷ thread 1 ∷ thread 1 ∷ []) waking).dev ≡ true)
    × (waits ((moves (wake_up ∷ thread 1 ∷ thread 1 ∷ []) waking).threads 1) ≡ true)
unfolding up is_barrier_up check_bit
moves-waits_example =
    Waking.moves-waits (wake_up ∷ thread 1 ∷ thread 1 ∷ []) waking 1 (omega arith) tt refl refl

awakening-hidden_example :
    (moves (wake_up ∷ thread 2 ∷ thread 1 ∷ thread 1 ∷ thread 1 ∷ []) waking).threads 1 ≡ asleep
awakening-hidden_example = Waking.awakening-hidden waking 1 2 (omega arith) refl refl (omega arith)
