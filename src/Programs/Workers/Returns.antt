-- ===== src/Programs/Workers/Returns.antt =====
-- What the parent of lib/mp_readwrite.c and lib/mt_readwrite.c reads of what its children wrote, on a group
-- that behaves as a mail slot.
use aosv_project.Prelude.{
  ℕ, zero, suc, ◌+◌, ◌≤◌, ◌≡◌, refl, sym, ap, ◌∙◌, true, List, [], ◌∷◌, ◌++◌, map, length,
  length-append, ℤ, pos, leb, arith,
}
use aosv_project.Prelude.Bytes.{take-whole}
use aosv_project.Mailbox.{Mailbox, held}
use aosv_project.Programs.{Library, Line, written, bytes_read, Stage, before, message_size}
use aosv_project.Programs.Slot.{IsSlot}
use aosv_project.Programs.Exchange.{got, got_line, posted_all, posted_all-now, AllFull, Leaves}
use aosv_project.Programs.Stages.{empty_slot}
use aosv_project.Programs.Workers.{children, Child, interleave, read_on, parent}
use mathlib.Core.List.{Perm}
use aosv_project.Programs.Workers.Deliveries.{AllStorable, due, all_left, interleave-Delivers}

-- The first so many of a list, and the rest.
record Split (l : List (List ℕ)) (n : ℕ) : Type 0 where
  first : List (List ℕ)
  rest : List (List ℕ)
  whole : l ≡ first ++ rest
  count : length first ≡ n

split : (n : ℕ) (l : List (List ℕ)) → n ≤ length l → Split l n
split zero l h = record { first = []; rest = l; whole = refl; count = refl }
split (suc n) [] h = absurd (omega arith)
split (suc n) (m ∷ l) h =
    let s = split n l (omega arith) in
    record {
      first = m ∷ s.first;
      rest = s.rest;
      whole = ap (λ t. m ∷ t) s.whole;
      count = ap suc s.count;
    }

AllFull-first : (ms ns : List (List ℕ)) → AllFull (ms ++ ns) → AllFull ms
AllFull-first [] ns f = tt
AllFull-first (m ∷ ms) ns f = (f.0, AllFull-first ms ns f.1)

module _ {S : Type 0} (lib : Library S) (fd : ℤ) (cap : ℕ) (slot : IsSlot lib fd cap) where
  read_on-suc :
      (n i k : ℕ) (s : S)
      → (lib.retrieve_message fd message_size s).0.0 ≡ pos (suc k)
      → read_on lib fd (suc n) i s
        ≡ before
            (bytes_read (pos (suc k)) (lib.retrieve_message fd message_size s).0.1 ∷ [])
            (read_on lib fd n (i + 1) (lib.retrieve_message fd message_size s).1)
  unfolding read_on
  read_on-suc n i k s e = rw (e, read_on)

  -- A loop that reads as often as there are messages, or less often, finds the oldest of them in order.
  read_on-Leaves :
      (ms rest : List (List ℕ)) (i : ℕ) (s : S)
      → AllFull ms
      → slot.Valid s
      → (slot.view s).available ≡ ms ++ rest
      → Leaves lib fd cap slot
          (read_on lib fd (length ms) i s)
          (map got ms)
          (record (slot.view s) { available = rest })
  unfolding read_on
  read_on-Leaves [] rest i s f v e = record {
    well = refl;
    lines = refl;
    valid = v;
    slots = ap (λ l. record (slot.view s) { available = l }) e;
  }
  read_on-Leaves (m ∷ ms) rest i s f v e =
      let (v', ret, q) = slot.retrieves message_size s m (ms ++ rest) v e in
      let t = (lib.retrieve_message fd message_size s).1 in
      let r = read_on-Leaves ms rest (i + 1) t f.1 v' (ap (λ (w : Mailbox). w.available) q) in
      let (k, positive, line) = got_line (lib.retrieve_message fd message_size s).0 m f.0 ret in
      rw (read_on-suc (length ms) i k s positive) (record {
        well = r.well;
        lines =
            ap (λ (l : Line). l ∷ (read_on lib fd (length ms) (i + 1) t).lines) line
            ∙ ap (λ (ls : List Line). got m ∷ ls) r.lines;
        valid = r.valid;
        slots = r.slots ∙ ap (λ (w : Mailbox). record w { available = rest }) q;
      })

  -- What the parent's run comes to: the messages that it reads, and those that it leaves.
  pub record Returns (r : Stage S) (cs : List Child) (to_read : ℕ) : Type 0 where
    pub read : List (List ℕ)
    pub kept : List (List ℕ)
    pub reads : length read ≡ to_read
    pub keeps : length kept + to_read ≡ all_left cs
    pub all : Perm (read ++ kept) (due cs)
    pub leaves :
        Leaves lib fd cap slot r
          (map written (read ++ kept) ++ map got read)
          (record (empty_slot 0) { available = kept })

  pub parent-Returns :
      (created : ℕ) (schedule : List ℕ) (cs : List Child) (to_read : ℕ) (s : S)
      → AllStorable lib fd cap slot cs
      → children ≤ created
      → length cs ≤ created
      → all_left cs ≤ cap
      → to_read ≤ all_left cs
      → slot.Valid s
      → slot.view s ≡ empty_slot 0
      → Returns (parent lib fd created schedule cs to_read s) cs to_read
  unfolding parent
  parent-Returns created schedule cs to_read s st all_created so_many room enough v e =
      let d = interleave-Delivers lib fd cap slot schedule cs s st v (omega (arith, ap held e)) in
      let t = interleave lib fd schedule cs s in
      let l = split to_read d.messages (omega (arith, d.count)) in
      let there : slot.view t.world ≡ record (empty_slot 0) { available = l.first ++ l.rest } =
        d.slots
        ∙ ap (λ (w : Mailbox). posted_all w d.messages) e
        ∙ posted_all-now (empty_slot 0) d.messages refl
        ∙ ap (λ (ms : List (List ℕ)). record (empty_slot 0) { available = ms }) l.whole in
      let full : AllFull (l.first ++ l.rest) = rw l.whole at d.full in
      let r =
        read_on-Leaves l.first l.rest 0 t.world (AllFull-first l.first l.rest full) d.valid
          (ap (λ (w : Mailbox). w.available) there) in
      let no_failure : leb children created ≡ true = ground arith in
      rw (take-whole created cs so_many, no_failure, sym l.count)
        (record {
          read = l.first;
          kept = l.rest;
          reads = refl;
          keeps = omega (arith, l.count, d.count, ap length l.whole, length-append l.first l.rest);
          all = rw l.whole at d.all;
          leaves = record {
            well = r.well;
            lines =
                ap (λ (ls : List Line). ls ++ (read_on lib fd (length l.first) 0 t.world).lines)
                  (d.lines ∙ ap (map written) l.whole)
                ∙ ap (λ (ls : List Line). map written (l.first ++ l.rest) ++ ls) r.lines;
            valid = r.valid;
            slots = r.slots ∙ ap (λ (w : Mailbox). record w { available = l.rest }) there;
          };
        })
