-- ===== src/Programs/Ordinary/Finds.antt =====
-- A loop that reads from a group that behaves as a mail slot, and finds what there is.
use aosv_project.Prelude.{
  ℕ, zero, suc, ◌+◌, ◌≤◌, ◌≡◌, refl, ap, ◌∙◌, true, List, [], ◌∷◌, map, length, ℤ, if◌then◌else◌,
  ◌==◌, Bool-cases, inl, inr, arith,
}
use aosv_project.Mailbox.{Mailbox}
use aosv_project.Programs.{Library, Line, Stage, read_loop, message_size}
use aosv_project.Programs.Slot.{IsSlot}
use aosv_project.Programs.Exchange.{got, got_line, AllFull, read_loop-none, read_loop-suc}

-- A slot without delay, with these messages.
abbrev pub holding : List (List ℕ) → Mailbox
holding ms = record { available = ms; delayed = []; delay = 0 }

module _ {S : Type 0} (lib : Library S) (fd : ℤ) (cap : ℕ) (slot : IsSlot lib fd cap) where
  -- A stage goes well and leaves messages in the slot.
  pub record Keeps (r : Stage S) : Type 0 where
    pub messages : List (List ℕ)
    pub full : AllFull messages
    pub well : r.well ≡ true
    pub valid : slot.Valid r.world
    pub slots : slot.view r.world ≡ holding messages

  -- A loop that reads at most `n` messages, and finds them all where there are so many.
  pub record Finds (r : Stage S) (n : ℕ) (ms : List (List ℕ)) : Type 0 where
    pub found : List (List ℕ)
    pub keeps : Keeps r
    pub counts : length found + length keeps.messages ≡ length ms
    pub at_most : length found ≤ n
    pub lines : n ≤ length ms → (length found ≡ n) × (r.lines ≡ map got found)

  pub read_loop-Finds :
      (ms : List (List ℕ)) (n i : ℕ) (s : S)
      → AllFull ms
      → slot.Valid s
      → slot.view s ≡ holding ms
      → Finds (read_loop lib fd n i s) n ms
  unfolding read_loop
  read_loop-Finds ms zero i s f v e = record {
    found = [];
    keeps = record { messages = ms; full = f; well = refl; valid = v; slots = e };
    counts = omega arith;
    at_most = omega arith;
    lines = λ h. (refl, refl);
  }
  read_loop-Finds [] (suc n) i s f v e =
      let (v', ret, q) = slot.finds_none message_size s v (ap (λ (w : Mailbox). w.available) e) in
      rw (read_loop-none lib fd cap slot n i s ret) (record {
        found = [];
        keeps = record { messages = []; full = tt; well = refl; valid = v'; slots = q ∙ e };
        counts = refl;
        at_most = omega arith;
        lines = λ h. absurd (omega arith);
      })
  read_loop-Finds (m ∷ ms) (suc n) i s f v e =
      let (v', ret, q) =
        slot.retrieves message_size s m ms v (ap (λ (w : Mailbox). w.available) e) in
      let t = (lib.retrieve_message fd message_size s).1 in
      let r =
        read_loop-Finds ms n (i + 1) t f.1 v'
          (q ∙ ap (λ (w : Mailbox). record w { available = ms }) e) in
      let (k, positive, line) = got_line (lib.retrieve_message fd message_size s).0 m f.0 ret in
      rw (read_loop-suc lib fd cap slot n i k s positive) (record {
        found = m ∷ r.found;
        keeps = record {
          messages = r.keeps.messages;
          full = r.keeps.full;
          well = r.keeps.well;
          valid = r.keeps.valid;
          slots = r.keeps.slots;
        };
        counts = omega (arith, r.counts);
        at_most = omega (arith, r.at_most);
        lines = λ h.
            let (c, ls) = r.lines (omega arith) in
            (
              omega (arith, c),
              ap (λ (l : Line). l ∷ (read_loop lib fd n (i + 1) t).lines) line
                  ∙ ap (λ (l : List Line). got m ∷ l) ls,
            );
      })

  pub wake :
      (to_awake : ℕ) (u : S)
      → slot.Valid u
      → slot.Valid (if to_awake == 0 then lib.awake_barrier fd u else u)
        × (slot.view (if to_awake == 0 then lib.awake_barrier fd u else u) ≡ slot.view u)
  wake to_awake u v = elim (Bool-cases (to_awake == 0)) [
    | inl e ↦ rw e (slot.awakes u v)
    | inr e ↦ rw e (v, refl)
  ]
