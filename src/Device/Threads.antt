-- ===== src/Device/Threads.antt =====
-- kmodule/group_dev.c: any number of threads inside of `group_read`, `group_write`, `delayed_work_fun`
-- and `_fflush_workqueue` of one device at once, from one semaphore operation to the next.
--
-- A message is an address, and no address is used twice. Between a `down` and its `up` a thread is the
-- only one that touches what the semaphore guards, so the section is one step. The `delay` is not
-- guarded, and can change between any two steps. What only concerns the works (`wq_sem`, `delay_list`)
-- is in Device/Works and Device/Race: here a work is a thread that may start as soon as it is queued.
pub mod Ownership
pub mod Turns
pub mod Consistency
pub mod Progress
pub mod Logging
pub mod Alone
use aosv_project.Prelude.{
  ℕ, ◌+◌, ◌-◌, ◌%◌, ◌^◌, Bool, List, [], ◌∷◌, ◌++◌, none, some, ◌==◌, leb, if◌then◌else◌, unsnoc,
  has, ◌≡◌,
}

-- What the threads share; `freed` are the messages that have been freed.
pub record Shared : Type 0 where
  pub messages_number : ℕ
  pub message_sem : ℕ
  pub message_list : List ℕ
  pub delay : ℕ
  pub pending_sem : ℕ
  pub pending_list : List ℕ
  pub freed : List ℕ

-- Where a thread is. `enter`: before a `down`; `inside`: between it and the `up`.
pub data Pc : Type 0 where
  away : Pc
  write_enter write_inside : ℕ → Pc
  pend_enter pend_inside : ℕ → Pc
  queue_work : ℕ → Pc
  write_log : ℕ → Pc
  read_enter read_inside : Pc
  read_copy : ℕ → Pc
  work_enter work_inside : Pc
  publish_enter publish_inside : ℕ → Pc
  work_log : ℕ → Pc
  flush_enter flush_between flush_inside : Pc

-- One step of a thread: it waits for a semaphore, it goes on, or it uses a message that is freed.
pub data Turn : Type 0 where
  blocked faults : Turn
  goes : Shared → Pc → Turn

abbrev pub down_message : Shared → Pc → Turn
down_message s p =
    if s.message_sem == 0 then blocked else goes (record s { message_sem = s.message_sem - 1 }) p

abbrev pub down_pending : Shared → Pc → Turn
down_pending s p =
    if s.pending_sem == 0 then blocked else goes (record s { pending_sem = s.pending_sem - 1 }) p

abbrev up_message : Shared → Shared
up_message s = record s { message_sem = s.message_sem + 1 }

abbrev up_pending : Shared → Shared
up_pending s = record s { pending_sem = s.pending_sem + 1 }

-- The log prints the bytes of the message.
abbrev pub log : ℕ → Shared → Turn
log m s = if has m s.freed then faults else goes s away

-- `group_write` from `down (message_sem)` to its `up`. `copied`: nothing is left uncopied.
unfoldable pub write_turn : ℕ → Bool → ℕ → Shared → Turn
write_turn cap copied m s =
    let failed = goes (record (up_message s) { freed = m ∷ s.freed }) away in
    let counted = record s { messages_number = (s.messages_number + 1) % 2 ^ 32 } in
    if leb cap s.messages_number
    then failed
    else (if copied
        then (if s.delay == 0
            then goes (up_message (record counted { message_list = m ∷ s.message_list }))
                (write_log m)
            else goes (up_message counted) (pend_enter m))
        else failed)

-- `group_read` between `down (message_sem)` and its `up`.
unfoldable pub read_turn : Shared → Turn
read_turn s = elim (unsnoc s.message_list) [
  | none ↦ goes (up_message s) away
  | some (m, rest) ↦
      goes
        (up_message (record s {
          message_list = rest;
          messages_number = (s.messages_number + 2 ^ 32 - 1) % 2 ^ 32;
        }))
        (read_copy m)
]

-- `delayed_work_fun` between `down (pending_sem)` and its `up`.
unfoldable pub work_turn : Shared → Turn
work_turn s = elim (unsnoc s.pending_list) [
  | none ↦ goes (up_pending s) away
  | some (m, rest) ↦ goes (up_pending (record s { pending_list = rest })) (publish_enter m)
]

-- `_fflush_workqueue` with both semaphores.
unfoldable pub flush_turn : Shared → Turn
flush_turn s =
    goes
      (up_message (
        up_pending
          (record s { message_list = s.message_list ++ s.pending_list; pending_list = [] })))
      away

unfoldable pub turn : (cap : ℕ) (copied : Bool) → Pc → Shared → Turn
unfolding write_turn read_turn work_turn flush_turn
turn cap copied away s = blocked
turn cap copied (write_enter m) s = down_message s (write_inside m)
turn cap copied (write_inside m) s = write_turn cap copied m s
turn cap copied (pend_enter m) s = down_pending s (pend_inside m)
turn cap copied (pend_inside m) s =
    goes (up_pending (record s { pending_list = m ∷ s.pending_list })) (queue_work m)
turn cap copied (queue_work m) s = goes s (write_log m)
turn cap copied (write_log m) s = log m s
turn cap copied read_enter s = down_message s read_inside
turn cap copied read_inside s = read_turn s
turn cap copied (read_copy m) s =
    if copied then goes (record s { freed = m ∷ s.freed }) away else goes s away
turn cap copied work_enter s = down_pending s work_inside
turn cap copied work_inside s = work_turn s
turn cap copied (publish_enter m) s = down_message s (publish_inside m)
turn cap copied (publish_inside m) s =
    goes (up_message (record s { message_list = m ∷ s.message_list })) (work_log m)
turn cap copied (work_log m) s = log m s
turn cap copied flush_enter s = down_pending s flush_between
turn cap copied flush_between s = down_message s flush_inside
turn cap copied flush_inside s = flush_turn s

-- A work that is queued is a new thread; `queued` says whether it could be allocated.
abbrev pub started : Bool → Pc → List Pc
started queued (queue_work m) = if queued then work_enter ∷ [] else []
started queued p = []

-- The messages of addresses from `next` on have not been allocated yet.
pub record Threads : Type 0 where
  pub shared : Shared
  pub threads : List Pc
  pub next : ℕ

-- One step of the whole: a call arrives, the delay changes, or a thread takes a turn.
pub data Step (cap : ℕ) (s : Threads) : Threads → Type 0 where
  reads : Step cap s (record s { threads = read_enter ∷ s.threads })
  writes : Step cap s (record s { threads = write_enter s.next ∷ s.threads; next = s.next + 1 })
  revokes : Step cap s (record s { threads = flush_enter ∷ s.threads })
  delays : (j : ℕ) → Step cap s (record s { shared = record s.shared { delay = j } })
  takes_turn :
      (copied queued : Bool) (xs ys : List Pc) (p q : Pc) (t : Shared)
      → s.threads ≡ xs ++ p ∷ ys
      → turn cap copied p s.shared ≡ goes t q
      → Step cap s (record s { shared = t; threads = started queued p ++ (xs ++ q ∷ ys) })

pub data Reach (cap : ℕ) (s : Threads) : Threads → Type 0 where
  here : Reach cap s s
  next_step : {t u : Threads} → Reach cap s t → Step cap t u → Reach cap s u

-- A device without messages, on which no thread is in a call.
abbrev pub quiet : ℕ → Threads
quiet j = record {
  shared = record {
    messages_number = 0;
    message_sem = 1;
    message_list = [];
    delay = j;
    pending_sem = 1;
    pending_list = [];
    freed = [];
  };
  threads = [];
  next = 0;
}
