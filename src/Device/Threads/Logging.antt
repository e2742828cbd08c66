-- ===== src/Device/Threads/Logging.antt =====
-- The log line at the end of `group_write` uses the message after `up (message_sem)`.
use aosv_project.Prelude.{ℕ, ◌+◌, ◌^◌, ◌<◌, ◌≡◌, refl, Bool, true, [], ◌∷◌, ◌-◌, ◌%◌, arith}
use aosv_project.Device.Threads.{
  Shared, write_inside, write_log, read_enter, read_inside, read_copy, away, faults, goes, turn,
  write_turn, read_turn,
}

-- A reader that comes between the end of a write's section and its log line frees the message that the
-- line then prints: on any device without messages and without delay, with room for one, on which the
-- writer is alone inside of its section.
pub write_log-faults :
    (cap : ℕ) (copied : Bool) (m : ℕ) (s : Shared)
    → s.message_sem ≡ 0
    → s.message_list ≡ []
    → s.delay ≡ 0
    → s.messages_number < cap
    → (a : Shared) × (b : Shared) × (c : Shared) × (d : Shared) × (turn cap true (write_inside m) s
        ≡ goes a (write_log m))
      × (turn cap true read_enter a ≡ goes b read_inside)
      × (turn cap true read_inside b ≡ goes c (read_copy m))
      × (turn cap true (read_copy m) c ≡ goes d away)
      × (turn cap copied (write_log m) d ≡ faults)
unfolding turn write_turn read_turn
write_log-faults cap copied m s free empty now room = (
  posted,
  record posted { message_sem = 0 },
  read,
  record read { freed = m ∷ read.freed },
  ground arith,
  ground arith,
  ground arith,
  refl,
  ground arith,
)
  where
    posted : Shared
    posted = record s {
      messages_number = (s.messages_number + 1) % 2 ^ 32;
      message_sem = 1;
      message_list = m ∷ [];
    }

    read : Shared
    read = record posted {
      message_list = [];
      messages_number = (posted.messages_number + 2 ^ 32 - 1) % 2 ^ 32;
    }
