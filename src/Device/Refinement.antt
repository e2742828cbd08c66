-- ===== src/Device/Refinement.antt =====
-- A group device implements the mail slot of Mailbox.antt: each call, on an idle device, ends, leaves
-- the device idle, and is a step of the mail slot with the answer that belongs to it.
pub mod Reads
pub mod Writes
pub mod Commands
use mathlib.Core.List.{map-append, reverse-append, reverse-cons}
use aosv_project.Prelude.{
  min, not, ◌&&◌, ◌%◌, ℕ, ◌+◌, ◌-◌, ◌≤◌, ◌<◌, ◌^◌, ◌≡◌, ◌⊎◌, inl, inr, refl, ap, ◌∙◌, sym, Bool,
  true, false, List, [], ◌∷◌, ◌++◌, map, reverse, some, none, arith, length, length-append,
  length-reverse, has, Bool-cases, ℤ, pos, minus_one, ◌==◌, if◌then◌else◌, unsnoc-cases,
  length-unsnoc, ◌≢◌,
}
use aosv_project.Prelude.Bytes.{take, length-take, take-take}
use aosv_project.Kernel.{Run, done, oops, ◌>>=◌, Services, IsLinux, Outcomes}
use aosv_project.Mailbox.{
  post, refuse, find_full, deliver, lose, find_empty, publish, skip_publish, publish_all,
  change_delay, keep, Mailbox, Event, Step,
}
use aosv_project.Device.{GroupDev, Message, contents, available, delayed, IsIdle}
use aosv_project.Device.Write.{Params}
use aosv_project.Device.Flags.{
  set_barrier, clear_barrier, set_bit, clear_bit, is_barrier_up, set_barrier_lem, clear_barrier_lem,
}
use aosv_project.Device.Messages.{set_delay}
use aosv_project.Device.Ioctl.{
  Command, sleep_on_barrier, awake_barrier, set_send_delay, revoke_delayed_messages, unknown,
  group_unlocked_ioctl,
}
use aosv_project.Device.Calls.{Call, read, write, ioctl, expire, Answer, answer, step}
use aosv_project.Device.Posting.{
  clipped, accepts, with_work, message_of, posted, posted-IsIdle, contents-message_of,
  group_write-done, group_write-refused, refusal, shorter, taken, taken-IsIdle, group_read-empty,
  group_read-done, group_read-lost, taken_whole, message_of-whole,
}
use aosv_project.Device.Flush.{
  revoked, revoked-IsIdle, fflush_workqueue-done, expired, expired-IsIdle, run_work-done,
}

abbrev pub view : GroupDev → Mailbox
view d = record { available = available d; delayed = delayed d; delay = d.delay }

-- What the caller sees of an event.
abbrev pub Shows : Event → Answer → Type 0
Shows (post m) a = (a.ret ≡ pos (length m)) × (a.copied ≡ [])
Shows refuse a = (a.ret ≡ minus_one) × (a.copied ≡ [])
Shows (deliver m n) a = (a.ret ≡ pos n) × (a.copied ≡ take n m)
Shows (lose m) a = a.ret ≡ minus_one
Shows _ a = (a.ret ≡ pos 0) × (a.copied ≡ [])

-- What a call relies on. A write: the buffer holds `n` bytes, the block has a byte behind the
-- message, and a new work is no queued one. A timer belongs to a queued work.
abbrev pub IsProper : Services → Params → Call → GroupDev → Type 0
IsProper k p (read o n) d = Unit {0}
IsProper k p (write o buf n) d =
    (n ≤ length buf)
    × (clipped p n < k.ksize (clipped p n))
    × ((w : ℕ) → o.work_block ≡ some w → has w d.queued ≡ false)
IsProper k p (ioctl cmd arg queue) d = Unit {0}
IsProper k p (expire w) d = has w d.queued ≡ true

-- No allocation and no copy of a write fails, and it is not empty.
abbrev pub served : Outcomes → ℕ → Bool
served o n = not (n == 0) && (o.data_block && (o.msg_block && (o.uncopied == 0)))

-- The events that a call can be. A write posts the first bytes of its buffer, as many as it asks for and
-- `max_message_size` allows; a read delivers as many bytes as it asks for and the message has.
abbrev pub Suits : Services → Params → Call → Event → Type 0
Suits k p (read o n) (deliver m l) = (l ≡ min n (length m)) × (o.uncopied ≡ 0)
Suits k p (read o n) (lose m) = o.uncopied ≢ 0
Suits k p (read o n) find_empty = Unit {0}
Suits k p (write o buf n) (post m) = (m ≡ take (clipped p n) buf) × (served o n ≡ true)
Suits k p (write o buf n) refuse = served o n ≡ false
Suits k p (write o buf n) find_full = (0 < n) × (o.data_block ≡ true) × (o.msg_block ≡ true)
Suits k p (ioctl sleep_on_barrier arg queue) keep = Unit {0}
Suits k p (ioctl awake_barrier arg queue) keep = Unit {0}
Suits k p (ioctl set_send_delay arg queue) (change_delay j) =
    (arg < 2 ^ 63) × (j ≡ k.msecs_to_jiffies (arg % 2 ^ 32))
Suits k p (ioctl set_send_delay arg queue) refuse = 2 ^ 63 ≤ arg
Suits k p (ioctl revoke_delayed_messages arg queue) publish_all = Unit {0}
Suits k p (ioctl unknown arg queue) refuse = Unit {0}
Suits k p (expire w) publish = Unit {0}
Suits k p (expire w) skip_publish = Unit {0}
Suits k p _ _ = ⊥

pub record Implements (k : Services) (p : Params) (c : Call) (d : GroupDev)
    (m : Run (GroupDev × Answer)) : Type 0 where
  pub dev : GroupDev
  pub result : Answer
  pub event : Event
  pub ends : m ≡ done (dev, result)
  pub idle : IsIdle dev
  pub allowed : Step p.max_storage_size p.max_message_size (view d) (view dev) event
  pub shows : Shows event result
  pub suits : Suits k p c event

pub contents-snoc :
    (xs : List Message) (m : Message)
    → reverse (map contents (xs ++ m ∷ [])) ≡ contents m ∷ reverse (map contents xs)
contents-snoc xs m = rw (map-append, reverse-append)

pub contents-cons :
    (m : Message) (xs : List Message)
    → reverse (map contents (m ∷ xs)) ≡ reverse (map contents xs) ++ contents m ∷ []
contents-cons m xs = reverse-cons (contents m) (map contents xs)

pub contents-append :
    (xs ys : List Message)
    → reverse (map contents (xs ++ ys)) ≡ reverse (map contents ys) ++ reverse (map contents xs)
contents-append xs ys = rw (map-append, reverse-append)

pub length-contents : (xs : List Message) → length (reverse (map contents xs)) ≡ length xs
length-contents [] = refl
length-contents (m ∷ xs) = omega (
  arith,
  ap length (contents-cons m xs),
  length-append (reverse (map contents xs)) (contents m ∷ []),
  length-contents xs,
)

-- The mail slot of two message lists.
abbrev pub box : List Message → List Message → ℕ → Mailbox
box ms ps j = record {
  available = reverse (map contents ms);
  delayed = reverse (map contents ps);
  delay = j;
}
