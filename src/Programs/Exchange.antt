-- ===== src/Programs/Exchange.antt =====
-- What the programs of lib see of a group that behaves as a mail slot.
use mathlib.Core.List.{append_assoc, append-nil}
use aosv_project.Prelude.{
  ℕ, zero, suc, ◌+◌, ◌<◌, ◌≡◌, refl, sym, ap, ◌-◌, ◌∙◌, min, true, List, [], ◌∷◌, ◌++◌, map, length,
  ℤ, pos, arith, inl, inr, Bool-cases, ltb, length-append,
}
use aosv_project.Prelude.Bytes.{take}
use aosv_project.Mailbox.{Mailbox, held}
use aosv_project.Programs.{
  Library, Line, written, bytes_read, no_more, Stage, stage, before, message_size, write_loop,
  read_loop,
}
use aosv_project.Programs.Slot.{posted, IsSlot}

-- The texts of the numbers from `i` on.
abbrev pub texts : (ℕ → List ℕ) → (n i : ℕ) → List (List ℕ)
texts text zero i = []
texts text (suc n) i = text i ∷ texts text n (i + 1)

-- What the log says of a message that is read.
abbrev pub got : List ℕ → Line
got m = bytes_read (pos (min message_size (length m))) (take message_size m)

abbrev pub posted_all : Mailbox → List (List ℕ) → Mailbox
posted_all q [] = q
posted_all q (m ∷ ms) = posted_all (posted q m) ms

pub held-posted : (q : Mailbox) (m : List ℕ) → held (posted q m) ≡ held q + 1
held-posted q m =
    ground (arith, length-append q.available (m ∷ []), length-append q.delayed (m ∷ []))

pub posted_all-now :
    (q : Mailbox) (ms : List (List ℕ))
    → q.delay ≡ 0
    → posted_all q ms ≡ record q { available = q.available ++ ms }
posted_all-now q [] z = ap (λ l. record q { available = l }) (sym (append-nil q.available))
posted_all-now q (m ∷ ms) z =
    let now : posted q m ≡ record q { available = q.available ++ m ∷ [] } = ground arith in
    ap (λ w. posted_all w ms) now
    ∙ posted_all-now (record q { available = q.available ++ m ∷ [] }) ms z
    ∙ ap (λ l. record q { available = l }) (append_assoc q.available (m ∷ []) ms)

pub posted_all-later :
    (q : Mailbox) (ms : List (List ℕ))
    → 0 < q.delay
    → posted_all q ms ≡ record q { delayed = q.delayed ++ ms }
posted_all-later q [] z = ap (λ l. record q { delayed = l }) (sym (append-nil q.delayed))
posted_all-later q (m ∷ ms) z =
    let later : posted q m ≡ record q { delayed = q.delayed ++ m ∷ [] } = ground arith in
    ap (λ w. posted_all w ms) later
    ∙ posted_all-later (record q { delayed = q.delayed ++ m ∷ [] }) ms z
    ∙ ap (λ l. record q { delayed = l }) (append_assoc q.delayed (m ∷ []) ms)

-- No message is empty.
abbrev pub AllFull : List (List ℕ) → Type 0
AllFull [] = Unit {0}
AllFull (m ∷ ms) = (0 < length m) × AllFull ms

pub AllFull-texts :
    (text : ℕ → List ℕ) (n i : ℕ)
    → ((j : ℕ) → j < i + n → 0 < length (text j))
    → AllFull (texts text n i)
AllFull-texts text zero i f = tt
AllFull-texts text (suc n) i f =
    (f i (omega arith), AllFull-texts text n (i + 1) λ j h. f j (omega arith))

pub length-texts : (text : ℕ → List ℕ) (n i : ℕ) → length (texts text n i) ≡ n
length-texts text zero i = refl
length-texts text (suc n) i = ap suc (length-texts text n (i + 1))

-- What a read of a message returns is positive, and its line says so.
pub got_line :
    (r : ℤ × List ℕ) (m : List ℕ)
    → 0 < length m
    → r ≡ (pos (min message_size (length m)), take message_size m)
    → (k : ℕ) × (r.0 ≡ pos (suc k)) × (bytes_read (pos (suc k)) r.1 ≡ got m)
got_line r m f e =
    let n = min message_size (length m) in
    let more : n ≡ suc (n - 1) = omega (arith, f) in
    (
      n - 1,
      ap (λ (a : ℤ × List ℕ). a.0) e ∙ ap pos more,
      ap (λ k. bytes_read (pos k) r.1) (sym more)
          ∙ ap (λ (a : ℤ × List ℕ). bytes_read (pos n) a.1) e,
    )

module _ {S : Type 0} (lib : Library S) (fd : ℤ) (cap : ℕ) (slot : IsSlot lib fd cap) where
  -- A stage goes well, with these lines, and leaves the slot so.
  pub record Leaves (r : Stage S) (ls : List Line) (q : Mailbox) : Type 0 where
    pub well : r.well ≡ true
    pub lines : r.lines ≡ ls
    pub valid : slot.Valid r.world
    pub slots : slot.view r.world ≡ q

  write_loop-suc :
      (text : ℕ → List ℕ) (n i k : ℕ) (s : S)
      → (lib.send_message fd (text i) s).0 ≡ pos k
      → write_loop lib text fd (suc n) i s
        ≡ before
            (written (text i) ∷ [])
            (write_loop lib text fd n (i + 1) (lib.send_message fd (text i) s).1)
  unfolding write_loop
  write_loop-suc text n i k s e = rw (e, write_loop)

  -- The log says that every text is written, and the slot has as many of them as it has room for.
  pub write_loop-Leaves :
      (text : ℕ → List ℕ) (n i : ℕ) (s : S)
      → ((j : ℕ) → j < i + n → slot.Storable (text j))
      → slot.Valid s
      → Leaves
          (write_loop lib text fd n i s)
          (map written (texts text n i))
          (posted_all (slot.view s) (texts text (min n (cap - held (slot.view s))) i))
  unfolding write_loop
  write_loop-Leaves text zero i s t v =
      let none_left : 0 ≡ min 0 (cap - held (slot.view s)) = omega arith in
      record {
        well = refl;
        lines = refl;
        valid = v;
        slots = ap (λ c. posted_all (slot.view s) (texts text c i)) none_left;
      }
  write_loop-Leaves text (suc n) i s t v = elim (Bool-cases (ltb (held (slot.view s)) cap)) [
    | inl e ↦
        let (v', ret, q) = slot.sends (text i) s v (t i (omega arith)) (ground arith) in
        let s' = (lib.send_message fd (text i) s).1 in
        let r = write_loop-Leaves text n (i + 1) s' (λ j h. t j (omega arith)) v' in
        let more : suc (min n (cap - held (slot.view s')))
            ≡ min (suc n) (cap - held (slot.view s)) =
          ground (arith, ap held q, held-posted (slot.view s) (text i)) in
        rw (write_loop-suc text n i (length (text i)) s ret) (record {
          well = r.well;
          lines = ap (λ ls. written (text i) ∷ ls) r.lines;
          valid = r.valid;
          slots =
              r.slots
              ∙ ap (λ w. posted_all w (texts text (min n (cap - held (slot.view s'))) (i + 1))) q
              ∙ ap (λ c. posted_all (slot.view s) (texts text c i)) more;
        })
    | inr e ↦
        let (v', ret, q) = slot.sends_full (text i) s v (t i (omega arith)) (ground arith) in
        let s' = (lib.send_message fd (text i) s).1 in
        let r = write_loop-Leaves text n (i + 1) s' (λ j h. t j (omega arith)) v' in
        let none_fits : min n (cap - held (slot.view s')) ≡ 0 = ground (arith, ap held q) in
        let none_more : 0 ≡ min (suc n) (cap - held (slot.view s)) = ground arith in
        rw (write_loop-suc text n i 0 s ret) (record {
          well = r.well;
          lines = ap (λ ls. written (text i) ∷ ls) r.lines;
          valid = r.valid;
          slots =
              r.slots
              ∙ ap (λ c. posted_all (slot.view s') (texts text c (i + 1))) none_fits
              ∙ q
              ∙ ap (λ c. posted_all (slot.view s) (texts text c i)) none_more;
        })
  ]

  pub read_loop-none :
      (n i : ℕ) (s : S)
      → (lib.retrieve_message fd message_size s).0.0 ≡ pos 0
      → read_loop lib fd (suc n) i s
        ≡ stage true (no_more ∷ []) (lib.retrieve_message fd message_size s).1
  unfolding read_loop
  read_loop-none n i s e = rw (e, read_loop)

  pub read_loop-suc :
      (n i k : ℕ) (s : S)
      → (lib.retrieve_message fd message_size s).0.0 ≡ pos (suc k)
      → read_loop lib fd (suc n) i s
        ≡ before
            (bytes_read (pos (suc k)) (lib.retrieve_message fd message_size s).0.1 ∷ [])
            (read_loop lib fd n (i + 1) (lib.retrieve_message fd message_size s).1)
  unfolding read_loop
  read_loop-suc n i k s e = rw (e, read_loop)

  -- A loop that reads more often than there are messages finds each, oldest first, and no more.
  pub read_loop-Leaves :
      (ms : List (List ℕ)) (n i : ℕ) (s : S)
      → AllFull ms
      → slot.Valid s
      → (slot.view s).available ≡ ms
      → length ms < n
      → Leaves
          (read_loop lib fd n i s)
          (map got ms ++ no_more ∷ [])
          (record (slot.view s) { available = [] })
  read_loop-Leaves ms zero i s f v e h = absurd (omega arith)
  read_loop-Leaves [] (suc n) i s f v e h =
      let (v', ret, q) = slot.finds_none message_size s v e in
      rw (read_loop-none n i s ret) (record {
        well = refl;
        lines = refl;
        valid = v';
        slots = q ∙ ap (λ l. record (slot.view s) { available = l }) e;
      })
  read_loop-Leaves (m ∷ ms) (suc n) i s f v e h =
      let (v', ret, q) = slot.retrieves message_size s m ms v e in
      let t = (lib.retrieve_message fd message_size s).1 in
      let r =
        read_loop-Leaves ms n (i + 1) t f.1 v' (ap (λ (w : Mailbox). w.available) q)
          (omega arith) in
      let (k, positive, line) = got_line (lib.retrieve_message fd message_size s).0 m f.0 ret in
      rw (read_loop-suc n i k s positive) (record {
        well = r.well;
        lines =
            ap (λ (l : Line). l ∷ (read_loop lib fd n (i + 1) t).lines) line
            ∙ ap (λ (ls : List Line). got m ∷ ls) r.lines;
        valid = r.valid;
        slots = r.slots ∙ ap (λ (w : Mailbox). record w { available = [] }) q;
      })
