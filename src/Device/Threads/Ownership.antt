-- ===== src/Device/Threads/Ownership.antt =====
-- Where each message and each semaphore is: sums over the threads.
use aosv_project.Prelude.{ℕ, ◌+◌, ◌≤◌, ◌≡◌, ◌==◌, if◌then◌else◌, length, total, occurrences}
use aosv_project.Device.Threads.{
  Shared, Pc, write_enter, write_inside, pend_enter, pend_inside, read_inside, read_copy,
  work_inside, publish_enter, publish_inside, flush_between, flush_inside, Threads,
}

-- Whether a thread holds `message_sem`, holds `pending_sem`, or has a message that is counted and in
-- no list.
abbrev pub holds_message : Pc → ℕ
holds_message (write_inside m) = 1
holds_message read_inside = 1
holds_message (publish_inside m) = 1
holds_message flush_inside = 1
holds_message _ = 0

abbrev pub holds_pending : Pc → ℕ
holds_pending (pend_inside m) = 1
holds_pending work_inside = 1
holds_pending flush_between = 1
holds_pending flush_inside = 1
holds_pending _ = 0

abbrev pub carries : Pc → ℕ
carries (pend_enter m) = 1
carries (pend_inside m) = 1
carries (publish_enter m) = 1
carries (publish_inside m) = 1
carries _ = 0

-- Whether the message is a thread's own, to link or to free.
abbrev pub owns : ℕ → Pc → ℕ
owns a (write_enter m) = if m == a then 1 else 0
owns a (write_inside m) = if m == a then 1 else 0
owns a (pend_enter m) = if m == a then 1 else 0
owns a (pend_inside m) = if m == a then 1 else 0
owns a (read_copy m) = if m == a then 1 else 0
owns a (publish_enter m) = if m == a then 1 else 0
owns a (publish_inside m) = if m == a then 1 else 0
owns a _ = 0

-- In how many places a message is.
abbrev pub places : ℕ → Shared → ℕ
places a s = occurrences a s.message_list + occurrences a s.pending_list + occurrences a s.freed

-- What holds between any two steps. Each semaphore is free or held by one thread; the counter counts
-- the messages in the lists and on their way between them, and there is room for them; a message that
-- has been allocated is in one place at most (a list, a thread's hands, or freed), and one that has not
-- been in none.
pub record IsConsistent (cap : ℕ) (s : Threads) : Type 0 where
  pub message_held : s.shared.message_sem + total holds_message s.threads ≡ 1
  pub pending_held : s.shared.pending_sem + total holds_pending s.threads ≡ 1
  pub counted :
      s.shared.messages_number
      ≡ length s.shared.message_list + length s.shared.pending_list + total carries s.threads
  pub room : s.shared.messages_number ≤ cap
  pub unique : (a : ℕ) → places a s.shared + total (owns a) s.threads ≤ 1
  pub fresh : (a : ℕ) → s.next ≤ a → places a s.shared + total (owns a) s.threads ≡ 0
