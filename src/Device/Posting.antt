-- ===== src/Device/Posting.antt =====
-- The exact effect of `group_write` and `group_read` on a device that is idle.
use aosv_project.Prelude.{
  ℕ, ◌+◌, ◌-◌, ◌≤◌, ◌<◌, ◌^◌, ◌≡◌, ◌≢◌, ap, ◌∙◌, Bool, true, false, List, [], ◌∷◌, none, some, inl,
  inr, ◌==◌, ltb, leb, arith, if◌then◌else◌, not, ◌&&◌, ◌++◌, unsnoc, unsnoc-snoc, length-append,
  length, has, Bool-cases, ℤ, pos, minus_one, Option-cases,
}
use aosv_project.Prelude.Bytes.{
  take, put, length-put, overwrite, replicate, store_in, store_out, length-overwrite,
  length-replicate, take-put, take-overwrite-take,
}
use aosv_project.Kernel.{done, oops, Outcomes, Services}
use aosv_project.Device.{GroupDev, Message, contents, IsIdle, AllWhole-snoc, opened}
use aosv_project.Device.Works.{add_delayed_work}
use aosv_project.Device.Read.{group_read, read_result}
use aosv_project.Device.Write.{Params, write_result, fill_message, group_write}

-- The length of the message that a write of `length` bytes stores.
abbrev pub clipped : Params → ℕ → ℕ
clipped p length = if ltb p.max_message_size length then p.max_message_size else length

abbrev pub message_of : Services → List ℕ → ℕ → Message
message_of k buf n = record {
  data_size = n;
  block = put (overwrite (take n buf) (replicate (k.ksize n) 0)) n 0;
}

-- Everything that `group_write` tests is in order.
abbrev pub accepts : Params → Outcomes → ℕ → GroupDev → Bool
accepts p o length d =
    not (length == 0)
    && (o.data_block
        && (o.msg_block && (ltb d.messages_number p.max_storage_size && (o.uncopied == 0))))

-- What it returns where something is not: 0 for a full device, -1 for all else.
abbrev pub refusal : Params → Outcomes → ℕ → GroupDev → ℤ
refusal p o length d =
    if not (length == 0)
      && (o.data_block && (o.msg_block && leb p.max_storage_size d.messages_number))
    then pos 0
    else minus_one

-- A new work is linked and queued, unless there is no workqueue or no memory.
abbrev pub with_work : Outcomes → GroupDev → GroupDev
with_work o d =
    if d.has.delay_wq
    then elim o.work_block [
      | none ↦ d
      | some w ↦ record d {
        queued = w ∷ d.queued;
        delay_list = w ∷ d.delay_list;
        live = d.live + 1;
      }
    ]
    else d

abbrev pub posted : Outcomes → Message → GroupDev → GroupDev
posted o m d =
    if d.delay == 0
    then record d {
      message_list = m ∷ d.message_list;
      messages_number = d.messages_number + 1;
      live = d.live + 1 + 1;
    }
    else with_work o (record d {
      pending_list = m ∷ d.pending_list;
      messages_number = d.messages_number + 1;
      live = d.live + 1 + 1;
    })

fill_message-done :
    (k : Services) (buf : List ℕ) (n : ℕ)
    → n < k.ksize n
    → fill_message k buf n ≡ done (message_of k buf n)
unfolding fill_message
fill_message-done k buf n h = ground (
  arith,
  store_in (overwrite (take n buf) (replicate (k.ksize n) 0)) n 0,
  length-overwrite (take n buf) (replicate (k.ksize n) 0),
  length-replicate {A = ℕ} (k.ksize n) 0,
)

fill_message-oops :
    (k : Services) (buf : List ℕ) (n : ℕ) → k.ksize n ≤ n → fill_message k buf n ≡ oops
unfolding fill_message
fill_message-oops k buf n h = ground (
  arith,
  store_out (overwrite (take n buf) (replicate (k.ksize n) 0)) n 0,
  length-overwrite (take n buf) (replicate (k.ksize n) 0),
  length-replicate {A = ℕ} (k.ksize n) 0,
)

-- What is stored is what the user passed, clipped.
pub contents-message_of :
    (k : Services) (buf : List ℕ) (n : ℕ)
    → n < k.ksize n
    → n ≤ length buf
    → contents (message_of k buf n) ≡ take n buf
contents-message_of k buf n h hb =
    take-put n (overwrite (take n buf) (replicate (k.ksize n) 0)) n 0 (omega arith)
    ∙ take-overwrite-take n n buf (replicate (k.ksize n) 0) (omega arith) hb
        (omega (arith, length-replicate {A = ℕ} (k.ksize n) 0))

pub message_of-whole :
    (k : Services) (buf : List ℕ) (n : ℕ)
    → n < k.ksize n
    → (message_of k buf n).data_size ≤ length (message_of k buf n).block
message_of-whole k buf n h = omega (
  arith,
  length-put (overwrite (take n buf) (replicate (k.ksize n) 0)) n 0,
  length-overwrite (take n buf) (replicate (k.ksize n) 0),
  length-replicate {A = ℕ} (k.ksize n) 0,
)

module _ (k : Services) (p : Params) (o : Outcomes) (buf : List ℕ) (length : ℕ) (d : GroupDev)
    (v : IsIdle d) (small : p.max_storage_size < 2 ^ 32) where
  abbrev size : ℕ
  size = clipped p length

  pub group_write-done :
      accepts p o length d ≡ true
      → size < k.ksize size
      → group_write k p o opened buf length d
        ≡ done (write_result (posted o (message_of k buf size) d) (pos size))
  unfolding group_write add_delayed_work
  group_write-done a room = ground (arith, fill_message-done k buf size room)

  pub group_write-oops :
      accepts p o length d ≡ true
      → k.ksize size ≤ size
      → group_write k p o opened buf length d ≡ oops
  unfolding group_write
  group_write-oops a full = ground (arith, fill_message-oops k buf size full)

  pub group_write-refused :
      accepts p o length d ≡ false
      → group_write k p o opened buf length d ≡ done (write_result d (refusal p o length d))
  unfolding group_write
  group_write-refused a = ground arith

  -- `group_write` on an idle device, with a `max_storage_size` below 2 ^ 32, on every branch. A call that fails leaves the device as it was
  -- and returns 0 if the device is full, -1 otherwise. One that passes all checks stores the clipped
  -- message and returns its length, if the allocator's block has a byte to spare for the
  -- terminator; otherwise `data[length] = 0` lands outside of the block.
  pub group_write-cases : group_write k p o opened buf length d ≡ (
      if accepts p o length d
      then (if ltb size (k.ksize size)
          then done (write_result (posted o (message_of k buf size) d) (pos size))
          else oops)
      else done (write_result d (refusal p o length d)))
  group_write-cases = elim (Bool-cases (accepts p o length d)) [
    | inr a ↦ rw a (group_write-refused a)
    | inl a ↦ rw a (elim (Bool-cases (ltb size (k.ksize size))) [
      | inl room ↦ rw room (group_write-done a (ground arith))
      | inr full ↦ rw full (group_write-oops a (ground arith))
    ])
  ]

  -- With `max_message_size` at a size that the allocator serves exactly (and `max_storage_size` below
  -- 2 ^ 32), each write of that many bytes or more to an idle device, if it passes all checks, puts
  -- its terminator outside of the block.
  pub write_overruns :
      k.ksize p.max_message_size ≡ p.max_message_size
      → p.max_message_size ≤ length
      → accepts p o length d ≡ true
      → group_write k p o opened buf length d ≡ oops
  write_overruns exact long a = group_write-oops a (ground arith)

with_work-IsIdle :
    (o : Outcomes) (d : GroupDev)
    → IsIdle d
    → ((w : ℕ) → o.work_block ≡ some w → has w d.queued ≡ false)
    → IsIdle (with_work o d)
with_work-IsIdle o d v fresh = elim (Option-cases o.work_block) [
  | inl e ↦ ground arith
  | inr (w, e) ↦ ground (arith, fresh w e)
]

pub posted-IsIdle :
    (o : Outcomes) (m : Message) (d : GroupDev)
    → IsIdle d
    → m.data_size ≤ length m.block
    → d.messages_number + 1 < 2 ^ 32
    → ((w : ℕ) → o.work_block ≡ some w → has w d.queued ≡ false)
    → IsIdle (posted o m d)
posted-IsIdle o m d v fits small fresh = elim (Bool-cases (d.delay == 0)) [
  | inl e ↦ ground arith
  | inr e ↦ rw e (
      with_work-IsIdle o
        (record d {
          pending_list = m ∷ d.pending_list;
          messages_number = d.messages_number + 1;
          live = d.live + 1 + 1;
        })
        (ground arith) fresh)
]

-- A read takes the oldest message off; its two blocks are freed if the copy succeeds.
abbrev pub taken : List Message → GroupDev → GroupDev
taken rest d = record d { message_list = rest; messages_number = d.messages_number - 1 }

abbrev pub shorter : ℕ → ℕ → ℕ
shorter n size = if ltb size n then size else n

module _ (o : Outcomes) (n : ℕ) (d : GroupDev) (v : IsIdle d) where
  pub group_read-empty :
      d.message_list ≡ [] → group_read o opened n d ≡ done (read_result d (pos 0) [])
  unfolding group_read
  group_read-empty e = ground arith

  module _ (rest : List Message) (m : Message) (e : d.message_list ≡ rest ++ m ∷ []) where
    pub group_read-done :
        o.uncopied ≡ 0
        → group_read o opened n d
          ≡ done (
              read_result
                (record (taken rest d) { live = d.live - 1 - 1 })
                (pos (shorter n m.data_size))
                (take (shorter n m.data_size) m.block))
    unfolding group_read
    group_read-done c =
        ground (arith, ap unsnoc e, unsnoc-snoc rest m, ap length e, length-append rest (m ∷ []))

    pub group_read-lost :
        o.uncopied ≢ 0
        → group_read o opened n d
          ≡ done (
              read_result
                (taken rest d)
                minus_one
                (take (shorter n m.data_size - o.uncopied) m.block))
    unfolding group_read
    group_read-lost c =
        ground (arith, ap unsnoc e, unsnoc-snoc rest m, ap length e, length-append rest (m ∷ []))

    pub taken-IsIdle : (l : ℕ) → IsIdle (record (taken rest d) { live = l })
    taken-IsIdle l =
        ground
          (arith, ap length e, length-append rest (m ∷ []), AllWhole-snoc rest m (rw e at v.whole))

    pub taken_whole : m.data_size ≤ length m.block
    taken_whole = (AllWhole-snoc rest m (rw e at v.whole)).1
