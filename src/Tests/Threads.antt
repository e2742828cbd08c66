-- ===== src/Tests/Threads.antt =====
-- A writer and a reader on one device, step by step.
use aosv_project.Prelude.{refl, ℕ, ◌≡◌, arith, true, [], ◌∷◌, ◌==◌, if◌then◌else◌}
use aosv_project.Kernel.{Ends}
use aosv_project.Device.{Message, opened}
use aosv_project.Device.Write.{group_write}
use aosv_project.Device.Posting.{message_of}
use aosv_project.Device.Threads.{
  Shared, away, write_enter, write_inside, write_log, read_enter, read_inside, read_copy, faults,
  goes, turn, Threads, writes, takes_turn, Reach, here, next_step, quiet,
}
use aosv_project.Device.Threads.Ownership.{IsConsistent}
use aosv_project.Device.Threads.Consistency
use aosv_project.Device.Threads.Progress
use aosv_project.Device.Threads.Logging
use aosv_project.Device.Threads.Alone
use aosv_project.Device.Threads.Alone.{solo, Represents, EndsAs}
use aosv_project.Tests.Devices.{sample, sample-IsIdle, hello, later, box, defaults, fine}

-- A writer before its section, and inside of it.
abbrev called : Threads
called = record (quiet 0) { threads = write_enter 0 ∷ []; next = 1 }

abbrev begun : Threads
begun = record called {
  shared = record (quiet 0).shared { message_sem = 0 };
  threads = write_inside 0 ∷ [];
}

called-Reach : Reach 64 (quiet 0) called
called-Reach = next_step here writes

begun-Reach : Reach 64 (quiet 0) begun
unfolding turn
begun-Reach =
    next_step called-Reach
      (takes_turn true true [] [] (write_enter 0) (write_inside 0) begun.shared refl refl)

Reach-IsConsistent_example : IsConsistent 64 begun
Reach-IsConsistent_example = Consistency.Reach-IsConsistent 64 (omega arith) 0 begun-Reach

write_log-faults_example :
    (a : Shared) × (b : Shared) × (c : Shared) × (d : Shared) × (turn 64 true
        (write_inside 0)
        begun.shared
      ≡ goes a (write_log 0))
    × (turn 64 true read_enter a ≡ goes b read_inside)
    × (turn 64 true read_inside b ≡ goes c (read_copy 0))
    × (turn 64 true (read_copy 0) c ≡ goes d away)
    × (turn 64 true (write_log 0) d ≡ faults)
write_log-faults_example =
    Logging.write_log-faults 64 true 0 begun.shared refl refl refl (omega arith)

-- The sample device, its messages at the addresses 0 and 1, and a message to write at 2.
abbrev memory : ℕ → Message
memory a = if a == 0 then hello else (if a == 1 then later else message_of box (111 ∷ 107 ∷ []) 2)

abbrev pointers : Shared
pointers = record {
  messages_number = 2;
  message_sem = 1;
  message_list = 0 ∷ [];
  delay = 5;
  pending_sem = 1;
  pending_list = 1 ∷ [];
  freed = [];
}

pointers-Represents : Represents memory sample pointers
pointers-Represents = record {
  messages_number = refl;
  message_sem = refl;
  message_list = refl;
  delay = refl;
  pending_sem = refl;
  pending_list = refl;
}

solo-write_example :
    Ends
      (λ e. EndsAs memory e.dev (solo 6 64 true (write_enter 2) pointers))
      (group_write box defaults fine opened (111 ∷ 107 ∷ []) 2 sample)
solo-write_example =
    Alone.solo-write memory sample pointers sample-IsIdle pointers-Represents box defaults fine
      (111 ∷ 107 ∷ []) 2 2 (omega arith) (omega arith) refl refl (omega arith) refl refl
