-- ===== src/Device/Threads/Consistency.antt =====
-- What holds of a device at every moment, however its threads interleave.
use aosv_project.Prelude.{
  ℕ, ◌+◌, ◌^◌, ◌<◌, ◌≡◌, refl, ap, ◌∙◌, Bool, List, ◌∷◌, ◌++◌, arith, Bool-cases, total,
  total-among, inl, inr,
}
use aosv_project.Device.Threads.{
  read_enter, flush_enter, Shared, Pc, queue_work, work_enter, Threads, Step, reads, writes,
  revokes, delays, takes_turn, Reach, here, next_step, started, quiet,
}
use aosv_project.Device.Threads.Ownership.{
  holds_message, holds_pending, carries, owns, IsConsistent,
}
use aosv_project.Device.Threads.Turns.{Others, Balanced, turn-Balanced}

-- A work that has just been queued holds nothing.
started-total :
    (weight : Pc → ℕ) (queued : Bool) (p : Pc) (ps : List Pc)
    → weight work_enter ≡ 0
    → total weight (started queued p ++ ps) ≡ total weight ps
started-total weight queued (queue_work m) ps e = elim (Bool-cases queued) [
  | inl q ↦ rw q (omega arith)
  | inr q ↦ rw q
]
started-total weight queued _ ps e = refl

others : List Pc → List Pc → ℕ → Others
others xs ys next = record {
  hold_message = total holds_message xs + total holds_message ys;
  hold_pending = total holds_pending xs + total holds_pending ys;
  carry = total carries xs + total carries ys;
  own = λ a. total (owns a) xs + total (owns a) ys;
  next = next;
}

after_turn :
    (weight : Pc → ℕ) (queued : Bool) (xs ys : List Pc) (p q : Pc)
    → weight work_enter ≡ 0
    → total weight (started queued p ++ (xs ++ q ∷ ys))
      ≡ total weight xs + total weight ys + weight q
after_turn weight queued xs ys p q e =
    started-total weight queued p (xs ++ q ∷ ys) e ∙ total-among weight xs ys q

module _ (cap : ℕ) where
  split-Balanced :
      (s : Threads) (xs ys : List Pc) (p : Pc)
      → s.threads ≡ xs ++ p ∷ ys
      → IsConsistent cap s
      → Balanced cap (others xs ys s.next) s.shared p
  unfolding others
  split-Balanced s xs ys p e v = record {
    message_held =
        omega
          (arith, v.message_held, ap (total holds_message) e, total-among holds_message xs ys p);
    pending_held =
        omega
          (arith, v.pending_held, ap (total holds_pending) e, total-among holds_pending xs ys p);
    counted = omega (arith, v.counted, ap (total carries) e, total-among carries xs ys p);
    room = v.room;
    unique = λ a. omega (arith, v.unique a, ap (total (owns a)) e, total-among (owns a) xs ys p);
    fresh = λ a h. omega (arith, v.fresh a h, ap (total (owns a)) e, total-among (owns a) xs ys p);
  }

  join-IsConsistent :
      (queued : Bool) (xs ys : List Pc) (p q : Pc) (t : Shared) (next : ℕ)
      → Balanced cap (others xs ys next) t q
      → IsConsistent cap
          (record { shared = t; threads = started queued p ++ (xs ++ q ∷ ys); next = next })
  unfolding others
  join-IsConsistent queued xs ys p q t next b = record {
    message_held = omega (arith, b.message_held, after_turn holds_message queued xs ys p q refl);
    pending_held = omega (arith, b.pending_held, after_turn holds_pending queued xs ys p q refl);
    counted = omega (arith, b.counted, after_turn carries queued xs ys p q refl);
    room = b.room;
    unique = λ a. omega (arith, b.unique a, after_turn (owns a) queued xs ys p q refl);
    fresh = λ a h. omega (arith, b.fresh a h, after_turn (owns a) queued xs ys p q refl);
  }

  -- A call that begins holds nothing.
  arrives :
      {s : Threads} (p : Pc)
      → IsConsistent cap s
      → holds_message p ≡ 0
      → holds_pending p ≡ 0
      → carries p ≡ 0
      → ((a : ℕ) → owns a p ≡ 0)
      → IsConsistent cap (record s { threads = p ∷ s.threads })
  arrives p v em ep ec eo = record {
    message_held = omega (arith, v.message_held);
    pending_held = omega (arith, v.pending_held);
    counted = omega (arith, v.counted);
    room = v.room;
    unique = λ a. omega (arith, v.unique a, eo a);
    fresh = λ a h. omega (arith, v.fresh a h, eo a);
  }

  module _ (small : cap < 2 ^ 32) where
    Step-IsConsistent : {s t : Threads} → Step cap s t → IsConsistent cap s → IsConsistent cap t
    Step-IsConsistent reads v = arrives read_enter v refl refl refl λ a. refl
    Step-IsConsistent revokes v = arrives flush_enter v refl refl refl λ a. refl
    Step-IsConsistent (delays j) v = record {
      message_held = v.message_held;
      pending_held = v.pending_held;
      counted = v.counted;
      room = v.room;
      unique = v.unique;
      fresh = v.fresh;
    }
    Step-IsConsistent {s} writes v = record {
      message_held = omega (arith, v.message_held);
      pending_held = omega (arith, v.pending_held);
      counted = omega (arith, v.counted);
      room = v.room;
      unique = λ a. ground (arith, v.unique a, v.fresh a);
      fresh = λ a h. ground (arith, v.fresh a);
    }
    Step-IsConsistent {s} (takes_turn copied queued xs ys p q t e f) v =
        join-IsConsistent queued xs ys p q t s.next (
          rw f at (
            turn-Balanced cap small (others xs ys s.next) s.shared copied p
              (split-Balanced s xs ys p e v)))

    -- However the steps of reads, writes, revocations and works of any number of threads interleave, from
    -- a device without messages on, and with a `max_storage_size` below 2 ^ 32: never two threads are
    -- inside of sections of one semaphore, the counter counts the messages that are listed or about to
    -- be, it stays within `max_storage_size`, and no message is in two places, listed twice, freed while
    -- it is listed, or freed twice.
    pub Reach-IsConsistent : (j : ℕ) {t : Threads} → Reach cap (quiet j) t → IsConsistent cap t
    Reach-IsConsistent j here = record {
      message_held = refl;
      pending_held = refl;
      counted = refl;
      room = omega arith;
      unique = λ a. omega arith;
      fresh = λ a h. refl;
    }
    Reach-IsConsistent j (next_step r s) = Step-IsConsistent s (Reach-IsConsistent j r)
