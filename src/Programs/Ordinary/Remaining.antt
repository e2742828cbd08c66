-- ===== src/Programs/Ordinary/Remaining.antt =====
-- The count that lib/mt_ordinary.c keeps of the messages that remain, on a group that behaves as a mail slot.
use aosv_project.Prelude.{
  leb, ℕ, ◌+◌, ◌-◌, ◌≤◌, ◌≡◌, refl, ap, ◌∙◌, min, true, false, List, [], ◌∷◌, ◌++◌, map, length,
  length-append, some, ℤ, is_negative, inr, arith,
}
use aosv_project.Mailbox.{Mailbox, held}
use aosv_project.Programs.{Library, Line, opened, closed, Stage, stage, write_loop, read_loop}
use aosv_project.Programs.Slot.{IsSlot}
use aosv_project.Programs.Exchange.{
  texts, got, posted_all, posted_all-now, AllFull, AllFull-texts, length-texts, write_loop-Leaves,
}
use aosv_project.Programs.Workers.{here_text, children}
use aosv_project.Programs.Workers.Posts.{AllFull-append}
use aosv_project.Programs.Ordinary.{
  Choice, total_write, total_read, remaining_messages, thread_section, sections, read_remaining,
  ordinary_opened, mt_ordinary,
}
use aosv_project.Programs.Ordinary.Finds.{holding, Keeps, Finds, read_loop-Finds, wake}

mt_ordinary-opened :
    {S : Type 0} (lib : Library S) (created whole calls : ℕ) (cs : List Choice) (fd : ℤ) (s t : S)
    → lib.open_group 0 s ≡ (fd, t)
    → is_negative fd ≡ false
    → children ≤ created
    → mt_ordinary lib created whole calls cs s ≡ ordinary_opened lib fd cs t
unfolding mt_ordinary
mt_ordinary-opened {S = S} lib created whole calls cs fd s t e f enough =
    let ok : is_negative (lib.open_group 0 s).0 ≡ false =
      ap (λ (r : ℤ × S). is_negative r.0) e ∙ f in
    let all : leb children created ≡ true = ground arith in
    rw (ok, all, mt_ordinary) (ap (λ (r : ℤ × S). ordinary_opened lib r.0 cs r.1) e)

ordinary_opened-well :
    {S : Type 0} (lib : Library S) (fd : ℤ) (cs : List Choice) (t : S)
    → (sections lib fd cs t).well ≡ true
    → ordinary_opened lib fd cs t
      ≡ some (
          stage true
            (opened 0 fd
              ∷ (((sections lib fd cs t).lines
                    ++ (read_remaining lib fd cs (sections lib fd cs t).world).lines)
                  ++ closed 0 fd ∷ []))
            (lib.close_group fd (read_remaining lib fd cs (sections lib fd cs t).world).world))
unfolding ordinary_opened
ordinary_opened-well lib fd cs t e = rw e refl

module _ {S : Type 0} (lib : Library S) (fd : ℤ) (cap : ℕ) (slot : IsSlot lib fd cap) where
  -- A stage that writes `w` messages and reads at most `d`.
  pub record Adds (r : Stage S) (ms : List (List ℕ)) (w d : ℕ) : Type 0 where
    pub keeps : Keeps lib fd cap slot r
    pub at_least : length ms + w ≤ length keeps.messages + d
    pub at_most : length keeps.messages ≤ length ms + w

  -- The texts of the threads can be sent.
  abbrev pub AllSendable : List Choice → Type 0
  AllSendable [] = Unit {0}
  AllSendable (c ∷ cs) = slot.Storable (here_text c.tid) × AllSendable cs

  thread_section-Adds :
      (c : Choice) (ms : List (List ℕ)) (s : S)
      → slot.Storable (here_text c.tid)
      → AllFull ms
      → slot.Valid s
      → slot.view s ≡ holding ms
      → length ms + c.to_write ≤ cap
      → Adds (thread_section lib fd c s) ms c.to_write c.to_read
  unfolding thread_section
  thread_section-Adds c ms s st f v e room =
      let text : ℕ → List ℕ = λ i. here_text c.tid in
      let new = texts text c.to_write 0 in
      let w = write_loop-Leaves lib fd cap slot text c.to_write 0 s (λ j h. st) v in
      let all : min c.to_write (cap - held (slot.view s)) ≡ c.to_write = omega (arith, ap held e) in
      let t = (write_loop lib text fd c.to_write 0 s).world in
      let there : slot.view t ≡ holding (ms ++ new) =
        w.slots
        ∙ ap (λ n. posted_all (slot.view s) (texts text n 0)) all
        ∙ ap (λ (q : Mailbox). posted_all q new) e
        ∙ posted_all-now (holding ms) new refl in
      let full =
        AllFull-append ms new f
          (AllFull-texts text c.to_write 0 λ j h. slot.not_empty (text j) st) in
      let r = read_loop-Finds lib fd cap slot (ms ++ new) c.to_read 0 t full w.valid there in
      let u = (read_loop lib fd c.to_read 0 t).world in
      let woken = wake lib fd cap slot c.to_awake u r.keeps.valid in
      let size : length (ms ++ new) ≡ length ms + c.to_write =
        omega (arith, length-append ms new, length-texts text c.to_write 0) in
      rw (w.well, r.keeps.well)
        (record {
          keeps = record {
            messages = r.keeps.messages;
            full = r.keeps.full;
            well = refl;
            valid = woken.0;
            slots = woken.1 ∙ r.keeps.slots;
          };
          at_least = omega (arith, r.counts, r.at_most, size);
          at_most = omega (arith, r.counts, size);
        })

  sections-Adds :
      (cs : List Choice) (ms : List (List ℕ)) (s : S)
      → AllSendable cs
      → AllFull ms
      → slot.Valid s
      → slot.view s ≡ holding ms
      → length ms + total_write cs ≤ cap
      → Adds (sections lib fd cs s) ms (total_write cs) (total_read cs)
  unfolding sections
  sections-Adds [] ms s st f v e room = record {
    keeps = record { messages = ms; full = f; well = refl; valid = v; slots = e };
    at_least = omega arith;
    at_most = omega arith;
  }
  sections-Adds (c ∷ cs) ms s st f v e room =
      let a = thread_section-Adds c ms s st.0 f v e (omega arith) in
      let k = a.keeps in
      let b =
        sections-Adds cs k.messages (thread_section lib fd c s).world st.1 k.full k.valid k.slots
          (omega (arith, a.at_most)) in
      rw k.well (record {
        keeps = record {
          messages = b.keeps.messages;
          full = b.keeps.full;
          well = b.keeps.well;
          valid = b.keeps.valid;
          slots = b.keeps.slots;
        };
        at_least = omega (arith, a.at_least, b.at_least);
        at_most = omega (arith, a.at_most, b.at_most);
      })

  read_remaining-Finds :
      (cs : List Choice) (ms : List (List ℕ)) (s : S)
      → AllFull ms
      → slot.Valid s
      → slot.view s ≡ holding ms
      → Finds lib fd cap slot (read_remaining lib fd cs s) (remaining_messages cs) ms
  unfolding read_remaining
  read_remaining-Finds cs ms s f v e =
      let a = slot.sleeps 8 s v (inr (ap (λ (w : Mailbox). w.delayed) e)) in
      let b = slot.awakes (lib.sleep 8 s) a.0 in
      let there = b.1 ∙ a.1 ∙ e in
      let c =
        slot.sleeps 1 (lib.awake_barrier fd (lib.sleep 8 s)) b.0
          (inr (ap (λ (w : Mailbox). w.delayed) there)) in
      read_loop-Finds lib fd cap slot ms (remaining_messages cs) 0
        (lib.sleep 1 (lib.awake_barrier fd (lib.sleep 8 s))) f c.0 (c.1 ∙ there)

  -- If group 0 opens, all threads can be created, the slot is empty, has no delay and room for all that
  -- the threads write, and their texts can be stored: in whatever order the threads take the semaphore,
  -- lib/mt_ordinary.c ends. After the lines of the threads it reads as many messages as
  -- `remaining_messages` says, and finds each; what was written and is not read by then is left.
  pub mt_ordinary-ends :
      (created whole calls : ℕ) (cs : List Choice) (s t : S)
      → AllSendable cs
      → children ≤ created
      → lib.open_group 0 s ≡ (fd, t)
      → is_negative fd ≡ false
      → slot.Valid t
      → slot.view t ≡ holding []
      → total_write cs ≤ cap
      → (e : S) × (ms kept : List (List ℕ)) × (mt_ordinary lib created whole calls cs s
          ≡ some (
              stage true
                (opened 0 fd ∷ (((sections lib fd cs t).lines ++ map got ms) ++ closed 0 fd ∷ []))
                (lib.close_group fd e)))
        × (length ms ≡ remaining_messages cs)
        × (total_write cs ≤ length ms + length kept + total_read cs)
        × slot.Valid e
        × (slot.view e ≡ holding kept)
  mt_ordinary-ends created whole calls cs s t st enough opening is_open v e room =
      let a = sections-Adds cs [] t st tt v e (omega arith) in
      let u = (sections lib fd cs t).world in
      let r = read_remaining-Finds cs a.keeps.messages u a.keeps.full a.keeps.valid a.keeps.slots in
      let (count, log) = r.lines (omega (arith, a.at_least)) in
      (
        (read_remaining lib fd cs u).world,
        r.found,
        r.keeps.messages,
        mt_ordinary-opened lib created whole calls cs fd s t opening is_open enough
            ∙ ordinary_opened-well lib fd cs t a.keeps.well
            ∙ ap
                (λ (l : List Line). some (
                  stage true
                    (opened 0 fd ∷ (((sections lib fd cs t).lines ++ l) ++ closed 0 fd ∷ []))
                    (lib.close_group fd (read_remaining lib fd cs u).world)))
                log,
        count,
        omega (arith, r.counts, a.at_least),
        r.keeps.valid,
        r.keeps.slots,
      )
