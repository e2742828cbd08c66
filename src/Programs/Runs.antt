-- ===== src/Programs/Runs.antt =====
-- lib/readwrite.c, revoke.c and exceed_messages.c on a group that behaves as a mail slot: their logs, and
-- what they leave in the slot.
use mathlib.Core.List.{append-nil}
use aosv_project.Prelude.{
  ℕ, ◌≤◌, ◌<◌, ◌≡◌, refl, ap, ◌-◌, ◌∙◌, min, true, false, List, [], ◌∷◌, ◌++◌, map, length, ℤ, pos,
  is_negative, arith, inl, inr,
}
use aosv_project.Mailbox.{Mailbox, held}
use aosv_project.Programs.{
  Library, Line, written, no_more, revoked, Stage, stage, before, and_next, write_loop, read_loop,
  short_text, long_text, msg_to_write, msg_to_read, e_msg_to_write, readwrite, revoke,
  exceed_messages, readwrite_body, revoke_body,
}
use aosv_project.Programs.Slot.{IsSlot}
use aosv_project.Programs.Exchange.{
  texts, got, posted_all, posted_all-now, posted_all-later, AllFull-texts, length-texts, Leaves,
  write_loop-Leaves,
}
use aosv_project.Programs.Stages.{
  empty_slot, in_group, with_group-Leaves, Leaves-and_next, Leaves-before, write_loop-empty,
  read_all,
}

abbrev pub five : (ℕ → List ℕ) → List (List ℕ)
five text = texts text msg_to_write 0

-- The lines of the three programs between opening and closing the group.
abbrev pub readwrite_lines : List Line
readwrite_lines = map written (five long_text) ++ ((map got (five long_text) ++ no_more ∷ []) ++ [])

abbrev pub revoke_lines : List Line
revoke_lines =
    map written (five short_text)
    ++ (no_more ∷ (revoked ∷ (map got (five short_text) ++ no_more ∷ [])))

abbrev pub exceed_messages_lines : List Line
exceed_messages_lines = map written (texts short_text e_msg_to_write 0)

module _ {S : Type 0} (lib : Library S) (fd : ℤ) (cap : ℕ) (slot : IsSlot lib fd cap) where
  module _ (s t : S) (opening : lib.open_group 0 s ≡ (fd, t)) (is_open : is_negative fd ≡ false)
      (v : slot.Valid t) (empty : slot.view t ≡ empty_slot 0) where
    readwrite_body-Leaves :
        ((i : ℕ) → i < msg_to_write → slot.Storable (long_text i))
        → msg_to_write ≤ cap
        → Leaves lib fd cap slot (readwrite_body lib fd t) readwrite_lines (empty_slot 0)
    unfolding readwrite_body
    readwrite_body-Leaves st room =
        let full : (i : ℕ) → i < msg_to_write → 0 < length (long_text i) =
          λ i h. slot.not_empty (long_text i) (st i h) in
        let w = write_loop-empty lib fd cap slot long_text msg_to_write 0 t st v empty room in
        let now = w.slots ∙ posted_all-now (empty_slot 0) (five long_text) refl in
        let z = (write_loop lib long_text fd msg_to_write 0 t).world in
        let slept = slot.sleeps 1 z w.valid (inr (ap (λ (q : Mailbox). q.delayed) now)) in
        let r =
          read_all lib fd cap slot (empty_slot 0) (five long_text) (lib.sleep 1 z)
            (AllFull-texts long_text msg_to_write 0 λ i h. full i (omega arith)) slept.0
            (slept.1 ∙ now) (omega (arith, length-texts long_text msg_to_write 0)) in
        let u = (read_loop lib fd msg_to_read 0 (lib.sleep 1 z)).world in
        let woken = slot.awakes u r.valid in
        let wake : S → Stage S = λ y. stage true [] (lib.awake_barrier fd y) in
        let reads : S → Stage S =
          λ y. and_next (read_loop lib fd msg_to_read 0 (lib.sleep 1 y)) wake in
        Leaves-and_next lib fd cap slot (write_loop lib long_text fd msg_to_write 0 t) reads w (
          Leaves-and_next lib fd cap slot (read_loop lib fd msg_to_read 0 (lib.sleep 1 z)) wake r
            (record { well = refl; lines = refl; valid = woken.0; slots = woken.1 ∙ r.slots }))

    -- If group 0 opens, its slot is empty, has no delay and room for five messages, and the texts can
    -- be stored, lib/readwrite.c logs the five texts as written, reads them in the same order, each
    -- cut to the buffer's size, and then finds no more; the slot is empty again before the group is
    -- closed.
    pub readwrite-returns :
        ((i : ℕ) → i < msg_to_write → slot.Storable (long_text i))
        → msg_to_write ≤ cap
        → (e : S) × (readwrite lib s
            ≡ stage true (in_group 0 fd readwrite_lines) (lib.close_group fd e))
          × slot.Valid e
          × (slot.view e ≡ empty_slot 0)
    unfolding readwrite
    readwrite-returns st room =
        with_group-Leaves lib fd cap slot 0 (readwrite_body lib) s t opening is_open
          (readwrite_body-Leaves st room)

    revoke_body-Leaves :
        ((i : ℕ) → i < msg_to_write → slot.Storable (short_text i))
        → msg_to_write ≤ cap
        → (j : ℕ) × (0 < j)
          × Leaves lib fd cap slot (revoke_body lib fd t) revoke_lines (empty_slot j)
    unfolding revoke_body
    revoke_body-Leaves st room =
        let full : (i : ℕ) → i < msg_to_write → 0 < length (short_text i) =
          λ i h. slot.not_empty (short_text i) (st i h) in
        let (v1, (j, pos_j, set)) = slot.delays 5000 t v (omega arith) (omega arith) in
        let t1 = (lib.set_send_delay fd (pos 5000) t).1 in
        let w =
          write_loop-empty lib fd cap slot short_text msg_to_write j t1 st v1
            (set ∙ ap (λ (q : Mailbox). record q { delay = j }) empty) room in
        let later = w.slots ∙ posted_all-later (empty_slot j) (five short_text) pos_j in
        let z = (write_loop lib short_text fd msg_to_write 0 t1).world in
        let r =
          read_all lib fd cap slot (record (empty_slot j) { delayed = five short_text }) [] z tt
            w.valid later (omega arith) in
        let u = (read_loop lib fd msg_to_read 0 z).world in
        let slept = slot.sleeps 0 u r.valid (inl refl) in
        let back = slot.revokes (lib.sleep 0 u) slept.0 in
        let ready =
          back.1
          ∙ ap (λ (q : Mailbox). record q { available = q.delayed ++ q.available; delayed = [] })
              (slept.1 ∙ r.slots)
          ∙ ap (λ l. record (empty_slot j) { available = l }) (append-nil (five short_text)) in
        let again =
          read_all lib fd cap slot (empty_slot j) (five short_text)
            (lib.revoke_delayed_messages fd (lib.sleep 0 u))
            (AllFull-texts short_text msg_to_write 0 λ i h. full i (omega arith)) back.0 ready
            (omega (arith, length-texts short_text msg_to_write 0)) in
        let last : S → Stage S = λ y.
          before (revoked ∷ [])
            (read_loop lib fd msg_to_read 0 (lib.revoke_delayed_messages fd (lib.sleep 0 y))) in
        let reads : S → Stage S = λ y. and_next (read_loop lib fd msg_to_read 0 y) last in
        (
          j,
          pos_j,
          Leaves-and_next lib fd cap slot (write_loop lib short_text fd msg_to_write 0 t1) reads w (
              Leaves-and_next lib fd cap slot (read_loop lib fd msg_to_read 0 z) last r (
                Leaves-before lib fd cap slot
                  (read_loop lib fd msg_to_read 0 (lib.revoke_delayed_messages fd (lib.sleep 0 u)))
                  (revoked ∷ []) again)),
        )

    -- If group 0 opens, its slot is empty, has no delay and room for five messages, and the texts can
    -- be stored, lib/revoke.c logs the five texts as written, finds no message to read while they wait
    -- for their delay, and after the call that revokes them reads all five in the order in which they
    -- were sent, each cut to the buffer's size, and then no more. The slot is empty again before the
    -- group is closed, and a delay is left in it.
    pub revoke-returns :
        ((i : ℕ) → i < msg_to_write → slot.Storable (short_text i))
        → msg_to_write ≤ cap
        → (e : S) × (j : ℕ) × (0 < j)
          × (revoke lib s ≡ stage true (in_group 0 fd revoke_lines) (lib.close_group fd e))
          × slot.Valid e
          × (slot.view e ≡ empty_slot j)
    unfolding revoke
    revoke-returns st room =
        let (j, pos_j, r) = revoke_body-Leaves st room in
        let (e, log, w, q) =
          with_group-Leaves lib fd cap slot 0 (revoke_body lib) s t opening is_open r in
        (e, j, pos_j, log, w, q)

    -- If group 0 opens, its slot is empty, has no delay and holds 128 messages at most, and the texts
    -- can be stored, lib/exceed_messages.c logs all 128 texts as written, though only as many of them,
    -- the first, are in the slot as it holds.
    pub exceed_messages-fills :
        ((i : ℕ) → i < e_msg_to_write → slot.Storable (short_text i))
        → cap ≤ e_msg_to_write
        → (e : S) × (exceed_messages lib s
            ≡ stage true (in_group 0 fd exceed_messages_lines) (lib.close_group fd e))
          × slot.Valid e
          × (slot.view e ≡ record (empty_slot 0) { available = texts short_text cap 0 })
    unfolding exceed_messages
    exceed_messages-fills st most =
        let r =
          write_loop-Leaves lib fd cap slot short_text e_msg_to_write 0 t
            (λ i h. st i (omega arith)) v in
        let fits : min e_msg_to_write (cap - held (slot.view t)) ≡ cap =
          omega (arith, ap held empty) in
        let (e, log, w, q) =
          with_group-Leaves lib fd cap slot 0 (λ f. write_loop lib short_text f e_msg_to_write 0) s
            t opening is_open r in
        (
          e,
          log,
          w,
          q
              ∙ ap (λ c. posted_all (slot.view t) (texts short_text c 0)) fits
              ∙ ap (λ w. posted_all w (texts short_text cap 0)) empty
              ∙ posted_all-now (empty_slot 0) (texts short_text cap 0) refl,
        )
