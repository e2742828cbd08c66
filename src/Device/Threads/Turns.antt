-- ===== src/Device/Threads/Turns.antt =====
-- What a single turn of a thread does to the sums, whatever the other threads hold.
use aosv_project.Prelude.{
  ◌∷◌, has, ℕ, ◌+◌, ◌^◌, ◌≤◌, ◌<◌, ◌≡◌, refl, Bool, inl, inr, arith, length, length-append,
  length-unsnoc, unsnoc-cases, leb, ◌==◌, Bool-cases, occurrences-append, occurrences-unsnoc,
}
use aosv_project.Device.Threads.{
  down_message, down_pending, log, Shared, Pc, away, write_enter, write_inside, pend_enter,
  pend_inside, queue_work, write_log, read_enter, read_inside, read_copy, work_enter, work_inside,
  publish_enter, publish_inside, work_log, flush_enter, flush_between, flush_inside, Turn, blocked,
  faults, goes, turn, write_turn, read_turn, work_turn, flush_turn,
}
use aosv_project.Device.Threads.Ownership.{holds_message, holds_pending, carries, owns, places}

-- `others` are the sums over the other threads, for each address the last two of them.
pub record Others : Type 0 where
  pub hold_message : ℕ
  pub hold_pending : ℕ
  pub carry : ℕ
  pub own : ℕ → ℕ
  pub next : ℕ

pub record Balanced (cap : ℕ) (o : Others) (s : Shared) (p : Pc) : Type 0 where
  pub message_held : s.message_sem + (o.hold_message + holds_message p) ≡ 1
  pub pending_held : s.pending_sem + (o.hold_pending + holds_pending p) ≡ 1
  pub counted :
      s.messages_number ≡ length s.message_list + length s.pending_list + (o.carry + carries p)
  pub room : s.messages_number ≤ cap
  pub unique : (a : ℕ) → places a s + (o.own a + owns a p) ≤ 1
  pub fresh : (a : ℕ) → o.next ≤ a → places a s + (o.own a + owns a p) ≡ 0

-- The state after the turn, if the thread goes on.
abbrev pub Keeps : (Shared → Pc → Type 0) → Turn → Type 0
Keeps P blocked = Unit {0}
Keeps P faults = Unit {0}
Keeps P (goes t q) = P t q

module _ (cap : ℕ) (o : Others) {s t : Shared} {p q : Pc} where
  -- It is enough that what the thread and the device have together stays the same.
  moved :
      Balanced cap o s p
      → t.message_sem + holds_message q ≡ s.message_sem + holds_message p
      → t.pending_sem + holds_pending q ≡ s.pending_sem + holds_pending p
      → t.messages_number + (length s.message_list + length s.pending_list + carries p)
        ≡ s.messages_number + (length t.message_list + length t.pending_list + carries q)
      → t.messages_number ≤ cap
      → ((a : ℕ) → places a t + owns a q ≡ places a s + owns a p)
      → Balanced cap o t q
  moved v em ep ec r eo = record {
    message_held = omega (arith, v.message_held);
    pending_held = omega (arith, v.pending_held);
    counted = omega (arith, v.counted);
    room = r;
    unique = λ a. omega (arith, v.unique a, eo a);
    fresh = λ a h. omega (arith, v.fresh a h, eo a);
  }

module _ (cap : ℕ) (small : cap < 2 ^ 32) (o : Others) (s : Shared) where
  write_turn-Balanced :
      (copied : Bool) (m : ℕ)
      → Balanced cap o s (write_inside m)
      → Keeps (Balanced cap o) (write_turn cap copied m s)
  unfolding write_turn
  write_turn-Balanced copied m v = elim (Bool-cases (leb cap s.messages_number)) [
    | inl full ↦ rw full (failed)
    | inr room ↦ rw room (elim (Bool-cases copied) [
      | inr bad ↦ rw bad failed
      | inl ok ↦ rw ok (elim (Bool-cases (s.delay == 0)) [
        | inl now ↦ rw now (
            moved cap o v (omega arith) (omega arith) (ground arith) (ground arith)
              λ a. omega arith)
        | inr later ↦ rw later (
            moved cap o v (omega arith) (omega arith) (ground arith) (ground arith)
              λ a. omega arith)
      ])
    ])
  ]
    where
      failed :
          Balanced cap o (record s { message_sem = s.message_sem + 1; freed = m ∷ s.freed }) away
      failed = moved cap o v (omega arith) (omega arith) (omega arith) v.room λ a. omega arith

  read_turn-Balanced : Balanced cap o s read_inside → Keeps (Balanced cap o) (read_turn s)
  unfolding read_turn
  read_turn-Balanced v = elim (unsnoc-cases s.message_list) [
    | inl (_, u) ↦
        rw (u, Keeps)
          (moved cap o v (omega arith) (omega arith) (omega arith) v.room λ a. omega arith)
    | inr (m, rest, _, u) ↦
        rw (u, Keeps)
          (moved cap o v (omega arith) (omega arith)
            (omega (arith, v.counted, v.room, length-unsnoc s.message_list m rest u))
            (omega (arith, v.counted, v.room, length-unsnoc s.message_list m rest u))
            λ a. omega (arith, occurrences-unsnoc a s.message_list m rest u))
  ]

  work_turn-Balanced : Balanced cap o s work_inside → Keeps (Balanced cap o) (work_turn s)
  unfolding work_turn
  work_turn-Balanced v = elim (unsnoc-cases s.pending_list) [
    | inl (_, u) ↦
        rw (u, Keeps)
          (moved cap o v (omega arith) (omega arith) (omega arith) v.room λ a. omega arith)
    | inr (m, rest, _, u) ↦
        rw (u, Keeps)
          (moved cap o v (omega arith) (omega arith)
            (omega (arith, length-unsnoc s.pending_list m rest u)) v.room
            λ a. omega (arith, occurrences-unsnoc a s.pending_list m rest u))
  ]

  flush_turn-Balanced : Balanced cap o s flush_inside → Keeps (Balanced cap o) (flush_turn s)
  unfolding flush_turn
  flush_turn-Balanced v =
      moved cap o v (omega arith) (omega arith)
        (omega (arith, length-append s.message_list s.pending_list)) v.room
        λ a. omega (arith, occurrences-append a s.message_list s.pending_list)

  down_message-Balanced :
      (p q : Pc)
      → Balanced cap o s p
      → holds_message q ≡ holds_message p + 1
      → holds_pending q ≡ holds_pending p
      → carries q ≡ carries p
      → ((a : ℕ) → owns a q ≡ owns a p)
      → Keeps (Balanced cap o) (down_message s q)
  down_message-Balanced p q v em ep ec eo = elim (Bool-cases (s.message_sem == 0)) [
    | inl e ↦ rw e tt
    | inr e ↦
        rw e
          (moved cap o v (ground arith) (omega arith) (omega arith) v.room λ a. omega (arith, eo a))
  ]

  down_pending-Balanced :
      (p q : Pc)
      → Balanced cap o s p
      → holds_message q ≡ holds_message p
      → holds_pending q ≡ holds_pending p + 1
      → carries q ≡ carries p
      → ((a : ℕ) → owns a q ≡ owns a p)
      → Keeps (Balanced cap o) (down_pending s q)
  down_pending-Balanced p q v em ep ec eo = elim (Bool-cases (s.pending_sem == 0)) [
    | inl e ↦ rw e tt
    | inr e ↦
        rw e
          (moved cap o v (omega arith) (ground arith) (omega arith) v.room λ a. omega (arith, eo a))
  ]

  log-Balanced :
      (m : ℕ) (p : Pc)
      → Balanced cap o s p
      → holds_message p ≡ 0
      → holds_pending p ≡ 0
      → carries p ≡ 0
      → ((a : ℕ) → owns a p ≡ 0)
      → Keeps (Balanced cap o) (log m s)
  log-Balanced m p v em ep ec eo = elim (Bool-cases (has m s.freed)) [
    | inl e ↦ rw e tt
    | inr e ↦
        rw e
          (moved cap o v (omega arith) (omega arith) (omega arith) v.room λ a. omega (arith, eo a))
  ]

  -- Every turn of a thread keeps the sums.
  pub turn-Balanced :
      (copied : Bool) (p : Pc) → Balanced cap o s p → Keeps (Balanced cap o) (turn cap copied p s)
  unfolding turn
  turn-Balanced copied away v = tt
  turn-Balanced copied (write_inside m) v = write_turn-Balanced copied m v
  turn-Balanced copied read_inside v = read_turn-Balanced v
  turn-Balanced copied work_inside v = work_turn-Balanced v
  turn-Balanced copied flush_inside v = flush_turn-Balanced v
  turn-Balanced copied (write_enter m) v = down_message-Balanced _ _ v refl refl refl λ a. refl
  turn-Balanced copied read_enter v = down_message-Balanced _ _ v refl refl refl λ a. refl
  turn-Balanced copied (publish_enter m) v = down_message-Balanced _ _ v refl refl refl λ a. refl
  turn-Balanced copied flush_between v = down_message-Balanced _ _ v refl refl refl λ a. refl
  turn-Balanced copied (pend_enter m) v = down_pending-Balanced _ _ v refl refl refl λ a. refl
  turn-Balanced copied work_enter v = down_pending-Balanced _ _ v refl refl refl λ a. refl
  turn-Balanced copied flush_enter v = down_pending-Balanced _ _ v refl refl refl λ a. refl
  turn-Balanced copied (write_log m) v = log-Balanced m _ v refl refl refl λ a. refl
  turn-Balanced copied (work_log m) v = log-Balanced m _ v refl refl refl λ a. refl
  turn-Balanced copied (queue_work m) v =
      moved cap o v (omega arith) (omega arith) (omega arith) v.room λ a. omega arith
  turn-Balanced copied (pend_inside m) v =
      moved cap o v (omega arith) (omega arith) (omega arith) v.room λ a. omega arith
  turn-Balanced copied (publish_inside m) v =
      moved cap o v (omega arith) (omega arith) (omega arith) v.room λ a. omega arith
  turn-Balanced copied (read_copy m) v = elim (Bool-cases copied) [
    | inl e ↦ rw e (moved cap o v (omega arith) (omega arith) (omega arith) v.room λ a. omega arith)
    | inr e ↦ rw e (record {
      message_held = v.message_held;
      pending_held = v.pending_held;
      counted = v.counted;
      room = v.room;
      unique = λ a. omega (arith, v.unique a);
      fresh = λ a h. omega (arith, v.fresh a h);
    })
  ]
