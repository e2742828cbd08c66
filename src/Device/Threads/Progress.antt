-- ===== src/Device/Threads/Progress.antt =====
-- The two semaphores cannot hold each other up.
use aosv_project.Prelude.{ℕ, ◌+◌, ◌≡◌, ◌⊎◌, Bool, true, false, List, ◌∷◌, ◌++◌}
use aosv_project.Device.Threads.{
  started, Shared, Turn, faults, Pc, away, write_enter, write_inside, pend_enter, pend_inside,
  queue_work, write_log, read_enter, read_inside, read_copy, work_enter, work_inside, publish_enter,
  publish_inside, work_log, flush_enter, flush_between, flush_inside, goes, turn, Threads,
}

-- Whether a thread is in a call.
abbrev pub busy : Pc → ℕ
busy away = 0
busy _ = 1

-- Whether a thread is before its log line.
abbrev pub logs : Pc → Bool
logs (write_log m) = true
logs (work_log m) = true
logs _ = false

-- The turn goes on, or it is a log line that uses a freed message.
abbrev pub Moves : Pc → Turn → Type 0
Moves p t = ((u : Shared) × (q : Pc) × (t ≡ goes u q)) ⊎ ((t ≡ faults) × (logs p ≡ true))

-- Some thread goes on with its next turn, or is before a log line that uses a freed message.
pub record CanMove (cap : ℕ) (copied : Bool) (s : Threads) : Type 0 where
  pub before : List Pc
  pub after : List Pc
  pub pc : Pc
  pub stands : s.threads ≡ before ++ pc ∷ after
  pub free : Moves pc (turn cap copied pc s.shared)

-- The turns that a thread has left at most, with those of a work that it queues.
abbrev pub turns_left : Pc → ℕ
turns_left away = 0
turns_left (write_log m) = 1
turns_left (work_log m) = 1
turns_left (read_copy m) = 1
turns_left flush_inside = 1
turns_left (publish_inside m) = 2
turns_left read_inside = 2
turns_left flush_between = 2
turns_left (publish_enter m) = 3
turns_left read_enter = 3
turns_left flush_enter = 3
turns_left work_inside = 4
turns_left work_enter = 5
turns_left (queue_work m) = 7
turns_left (pend_inside m) = 8
turns_left (pend_enter m) = 9
turns_left (write_inside m) = 10
turns_left (write_enter m) = 11

-- So many turns, while no call arrives.
pub data Turns (cap : ℕ) (s : Threads) : ℕ → Threads → Type 0 where
  no_turn : Turns cap s 0 s
  one_more :
      {n : ℕ} {t : Threads} (copied queued : Bool) (xs ys : List Pc) (p q : Pc) (u : Shared)
      → Turns cap s n t
      → t.threads ≡ xs ++ p ∷ ys
      → turn cap copied p t.shared ≡ goes u q
      → Turns cap s (n + 1) (record t { shared = u; threads = started queued p ++ (xs ++ q ∷ ys) })
