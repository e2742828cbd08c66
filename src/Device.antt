-- ===== src/Device.antt =====
-- kmodule/group_dev.h: `struct message`, `struct work`, `struct group_dev` and the state that the
-- operations of kmodule/group_dev.c share.
--
-- A `list_head` is a list, its first entry the one that `list_add` put in last. A semaphore is its
-- count; `down` is taken where the count is not 0. A `struct work` is its address: `delay_list`
-- holds the works that are linked there, `queued` those that the workqueue still has to run, which
-- are the works that are allocated. `live` counts the blocks that the device's calls have
-- allocated and not freed.
pub mod Flags
pub mod Messages
pub mod Works
pub mod Read
pub mod Write
pub mod Ioctl
pub mod Flush
pub mod Posting
pub mod Calls
pub mod Refinement
pub mod Histories
pub mod Blocks
pub mod Race
pub mod Barrier
pub mod Threads
pub mod Timers
pub mod Delays
use aosv_project.Prelude.{
  ℕ, ◌+◌, ◌-◌, ◌/◌, ◌%◌, ◌^◌, ◌≤◌, ◌<◌, ◌≡◌, Bool, true, false, List, [], ◌∷◌, ◌++◌, map, reverse,
  length, Distinct,
}
use aosv_project.Prelude.Bytes.{take}

-- `data` is the whole block, `data_size` the length of the message in it.
pub record Message : Type 0 where
  pub data_size : ℕ
  pub block : List ℕ

abbrev pub contents : Message → List ℕ
contents m = take m.data_size m.block

-- Which of the structure's pointers are set.
pub record Pointers : Type 0 where
  pub message_sem : Bool
  pub message_list : Bool
  pub pending_sem : Bool
  pub pending_list : Bool
  pub wq_sem : Bool
  pub delay_list : Bool
  pub delay_wq : Bool

pub record GroupDev : Type 0 where
  pub minor : ℕ
  pub flags : ℕ
  pub messages_number : ℕ
  pub message_sem : ℕ
  pub message_list : List Message
  pub delay : ℕ
  pub wq_sem : ℕ
  pub delay_list : List ℕ
  pub queued : List ℕ
  pub pending_sem : ℕ
  pub pending_list : List Message
  pub has : Pointers
  pub live : ℕ

-- A `struct file` argument: a null pointer, a file with no private data, or one whose private data
-- is the device.
pub data Filp : Type 0 where
  no_file no_device opened : Filp

abbrev pub down_message : GroupDev → GroupDev
down_message d = record d { message_sem = d.message_sem - 1 }

abbrev pub up_message : GroupDev → GroupDev
up_message d = record d { message_sem = d.message_sem + 1 }

abbrev pub down_pending : GroupDev → GroupDev
down_pending d = record d { pending_sem = d.pending_sem - 1 }

abbrev pub up_pending : GroupDev → GroupDev
up_pending d = record d { pending_sem = d.pending_sem + 1 }

abbrev pub down_wq : GroupDev → GroupDev
down_wq d = record d { wq_sem = d.wq_sem - 1 }

abbrev pub up_wq : GroupDev → GroupDev
up_wq d = record d { wq_sem = d.wq_sem + 1 }

-- The messages that a read can get, and those that wait for their delay, oldest first.
abbrev pub available : GroupDev → List (List ℕ)
available d = reverse (map contents d.message_list)

abbrev pub delayed : GroupDev → List (List ℕ)
delayed d = reverse (map contents d.pending_list)

-- Every pointer is set; only `delay_wq` may be null, since nobody checks `init_workqueue`.
abbrev pub all_set : Bool → Pointers
all_set wq = record {
  message_sem = true;
  message_list = true;
  pending_sem = true;
  pending_list = true;
  wq_sem = true;
  delay_list = true;
  delay_wq = wq;
}

-- Each message fits into its block.
abbrev pub AllWhole : List Message → Type 0
AllWhole [] = Unit {0}
AllWhole (m ∷ ms) = (m.data_size ≤ length m.block) × AllWhole ms

pub AllWhole-append : (xs ys : List Message) → AllWhole xs → AllWhole ys → AllWhole (xs ++ ys)
AllWhole-append [] ys hx hy = hy
AllWhole-append (x ∷ xs) ys hx hy = (hx.0, AllWhole-append xs ys hx.1 hy)

pub AllWhole-snoc :
    (xs : List Message) (m : Message)
    → AllWhole (xs ++ m ∷ [])
    → AllWhole xs × (m.data_size ≤ length m.block)
AllWhole-snoc [] m h = (tt, h.0)
AllWhole-snoc (x ∷ xs) m h = let r = AllWhole-snoc xs m h.1 in ((h.0, r.0), r.1)

-- A device between two calls: no semaphore is held, each work that is linked is queued and the
-- other way round, no flush is on, and the counter counts the messages.
pub record IsIdle (d : GroupDev) : Type 0 where
  pub pointers : d.has ≡ all_set d.has.delay_wq
  pub message_free : d.message_sem ≡ 1
  pub pending_free : d.pending_sem ≡ 1
  pub wq_free : d.wq_sem ≡ 1
  pub flags_byte : d.flags < 256
  pub not_flushing : d.flags / 2 % 2 ≡ 0
  pub small : d.messages_number < 2 ^ 32
  pub counted : d.messages_number ≡ length d.message_list + length d.pending_list
  pub linked : d.delay_list ≡ d.queued
  pub distinct : Distinct d.queued
  pub no_works : d.has.delay_wq ≡ false → d.queued ≡ []
  pub whole : AllWhole d.message_list
  pub whole_pending : AllWhole d.pending_list
