-- ===== src/Programs/Stages.antt =====
-- The stages of a program of lib one after the other, on a group that behaves as a mail slot.

use aosv_project.Prelude.{
  ℕ, ◌≤◌, ◌<◌, ◌≡◌, ap, ◌-◌, ◌∙◌, min, true, false, List, [], ◌∷◌, ◌++◌, map, length, ℤ,
  is_negative, arith,
}
use aosv_project.Mailbox.{Mailbox, held}
use aosv_project.Programs.{
  Library, Line, opened, closed, written, no_more, Stage, stage, before, and_next, write_loop,
  read_loop, with_group, msg_to_read,
}
use aosv_project.Programs.Slot.{IsSlot}
use aosv_project.Programs.Exchange.{
  texts, got, posted_all, AllFull, Leaves, write_loop-Leaves, read_loop-Leaves,
}

-- A program that opens a group and closes it.
abbrev pub in_group : (desc : ℕ) → ℤ → List Line → List Line
in_group desc fd ls = opened desc fd ∷ (ls ++ closed desc fd ∷ [])

with_group-opened :
    {S : Type 0} (lib : Library S) (desc : ℕ) (body : ℤ → S → Stage S) (fd : ℤ) (s t : S)
    → lib.open_group desc s ≡ (fd, t)
    → is_negative fd ≡ false
    → with_group lib desc body s
      ≡ stage true
          (opened desc fd ∷ ((body fd t).lines ++ closed desc fd ∷ []))
          (lib.close_group fd (body fd t).world)
unfolding with_group
with_group-opened {S = S} lib desc body fd s t e f =
    let ok : is_negative (lib.open_group desc s).0 ≡ false =
      ap (λ (r : ℤ × S). is_negative r.0) e ∙ f in
    rw (ok, with_group)
      (ap
        (λ (r : ℤ × S).
          stage true (opened desc r.0 ∷ ((body r.0 r.1).lines ++ closed desc r.0 ∷ []))
            (lib.close_group r.0 (body r.0 r.1).world))
        e)

abbrev pub empty_slot : ℕ → Mailbox
empty_slot j = record { available = []; delayed = []; delay = j }

module _ {S : Type 0} (lib : Library S) (fd : ℤ) (cap : ℕ) (slot : IsSlot lib fd cap) where
  pub Leaves-and_next :
      (r : Stage S) (next : S → Stage S) {ls ms : List Line} {q w : Mailbox}
      → Leaves lib fd cap slot r ls q
      → Leaves lib fd cap slot (next r.world) ms w
      → Leaves lib fd cap slot (and_next r next) (ls ++ ms) w
  Leaves-and_next r next {ls} {ms} a b = rw a.well (record {
    well = b.well;
    lines = ap (λ l. l ++ (next r.world).lines) a.lines ∙ ap (λ l. ls ++ l) b.lines;
    valid = b.valid;
    slots = b.slots;
  })

  pub Leaves-before :
      (r : Stage S) (ls : List Line) {ms : List Line} {q : Mailbox}
      → Leaves lib fd cap slot r ms q
      → Leaves lib fd cap slot (before ls r) (ls ++ ms) q
  Leaves-before r ls a = record {
    well = a.well;
    lines = ap (λ l. ls ++ l) a.lines;
    valid = a.valid;
    slots = a.slots;
  }

  -- A stage that goes well is what its lines and its world say.
  pub with_group-Leaves :
      (desc : ℕ) (body : ℤ → S → Stage S) (s t : S) {ls : List Line} {q : Mailbox}
      → lib.open_group desc s ≡ (fd, t)
      → is_negative fd ≡ false
      → Leaves lib fd cap slot (body fd t) ls q
      → (e : S) × (with_group lib desc body s
          ≡ stage true (opened desc fd ∷ (ls ++ closed desc fd ∷ [])) (lib.close_group fd e))
        × slot.Valid e
        × (slot.view e ≡ q)
  with_group-Leaves desc body s t e f r = (
    (body fd t).world,
    with_group-opened lib desc body fd s t e f
        ∙ ap
            (λ l.
              stage true (opened desc fd ∷ (l ++ closed desc fd ∷ []))
                (lib.close_group fd (body fd t).world))
            r.lines,
    r.valid,
    r.slots,
  )

  -- What is posted to a slot that holds nothing.
  pub write_loop-empty :
      (text : ℕ → List ℕ) (n j : ℕ) (s : S)
      → ((i : ℕ) → i < n → slot.Storable (text i))
      → slot.Valid s
      → slot.view s ≡ empty_slot j
      → n ≤ cap
      → Leaves lib fd cap slot
          (write_loop lib text fd n 0 s)
          (map written (texts text n 0))
          (posted_all (empty_slot j) (texts text n 0))
  write_loop-empty text n j s t v e room =
      let r = write_loop-Leaves lib fd cap slot text n 0 s (λ i h. t i (omega arith)) v in
      let all : min n (cap - held (slot.view s)) ≡ n = omega (arith, ap held e) in
      record {
        well = r.well;
        lines = r.lines;
        valid = r.valid;
        slots =
            r.slots
            ∙ ap (λ c. posted_all (slot.view s) (texts text c 0)) all
            ∙ ap (λ w. posted_all w (texts text n 0)) e;
      }

  -- A read of the slot in a state, with what its lines and the slot are afterwards.
  pub read_all :
      (q : Mailbox) (ms : List (List ℕ)) (s : S)
      → AllFull ms
      → slot.Valid s
      → slot.view s ≡ record q { available = ms }
      → length ms < msg_to_read
      → Leaves lib fd cap slot
          (read_loop lib fd msg_to_read 0 s)
          (map got ms ++ no_more ∷ [])
          (record q { available = [] })
  read_all q ms s f v e h =
      let r =
        read_loop-Leaves lib fd cap slot ms msg_to_read 0 s f v
          (ap (λ (w : Mailbox). w.available) e) h in
      record {
        well = r.well;
        lines = r.lines;
        valid = r.valid;
        slots = r.slots ∙ ap (λ (w : Mailbox). record w { available = [] }) e;
      }
