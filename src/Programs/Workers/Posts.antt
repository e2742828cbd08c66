-- ===== src/Programs/Workers/Posts.antt =====
-- Stages that post messages to a group that behaves as a mail slot, one after the other.
use mathlib.Core.List.{map-append, Perm}
use mathlib.Core.List.Perm
use aosv_project.Prelude.{
  ℕ, ◌+◌, ◌≤◌, ◌<◌, ◌≡◌, refl, sym, ap, ◌∙◌, true, false, List, [], ◌∷◌, ◌++◌, map, length,
  length-append, ℤ, is_negative, arith,
}
use aosv_project.Mailbox.{Mailbox, held}
use aosv_project.Programs.{Library, Line, written, Stage, stage, before}
use aosv_project.Programs.Slot.{posted, IsSlot}
use aosv_project.Programs.Exchange.{posted_all, held-posted, AllFull}
use aosv_project.Programs.Workers.{here_text}

posted_all-append :
    (q : Mailbox) (ms ns : List (List ℕ))
    → posted_all q (ms ++ ns) ≡ posted_all (posted_all q ms) ns
posted_all-append q [] ns = refl
posted_all-append q (m ∷ ms) ns = posted_all-append (posted q m) ms ns

held-posted_all : (q : Mailbox) (ms : List (List ℕ)) → held (posted_all q ms) ≡ held q + length ms
held-posted_all q [] = omega arith
held-posted_all q (m ∷ ms) = omega (arith, held-posted_all (posted q m) ms, held-posted q m)

pub AllFull-append : (ms ns : List (List ℕ)) → AllFull ms → AllFull ns → AllFull (ms ++ ns)
AllFull-append [] ns f g = g
AllFull-append (m ∷ ms) ns f g = (f.0, AllFull-append ms ns f.1 g)

module _ {S : Type 0} (lib : Library S) (fd : ℤ) (cap : ℕ) (slot : IsSlot lib fd cap) where
  -- A stage posts these messages, so many, to the slot in some order, and its lines say in which.
  pub record Delivers (r : Stage S) (q : Mailbox) (n : ℕ) (ds : List (List ℕ)) : Type 0 where
    pub messages : List (List ℕ)
    pub count : length messages ≡ n
    pub all : Perm messages ds
    pub full : AllFull messages
    pub well : r.well ≡ true
    pub lines : r.lines ≡ map written messages
    pub valid : slot.Valid r.world
    pub slots : slot.view r.world ≡ posted_all q messages

  pub counted :
      {r : Stage S} {q : Mailbox} {m n : ℕ} {ds es : List (List ℕ)}
      → m ≡ n
      → Perm ds es
      → Delivers r q m ds
      → Delivers r q n es
  counted e swaps d = record {
    messages = d.messages;
    count = d.count ∙ e;
    all = Perm.trans d.all swaps;
    full = d.full;
    well = d.well;
    lines = d.lines;
    valid = d.valid;
    slots = d.slots;
  }

  pub nothing : (s : S) → slot.Valid s → Delivers (stage true [] s) (slot.view s) 0 []
  nothing s v = record {
    messages = [];
    count = refl;
    all = Perm.refl [];
    full = tt;
    well = refl;
    lines = refl;
    valid = v;
    slots = refl;
  }

  -- One stage after another.
  pub followed_by :
      (a b : Stage S) (q : Mailbox) (m n : ℕ) (ds es : List (List ℕ))
      → Delivers a q m ds
      → Delivers b (slot.view a.world) n es
      → Delivers (before a.lines b) q (m + n) (ds ++ es)
  followed_by a b q m n ds es d e = record {
    messages = d.messages ++ e.messages;
    count = omega (arith, length-append d.messages e.messages, d.count, e.count);
    all = Perm.trans (Perm.append_right e.messages d.all) (Perm.append_left ds e.all);
    full = AllFull-append d.messages e.messages d.full e.full;
    well = e.well;
    lines =
        ap (λ (l : List Line). l ++ b.lines) d.lines
        ∙ ap (λ (l : List Line). map written d.messages ++ l) e.lines
        ∙ sym (map-append written d.messages e.messages);
    valid = e.valid;
    slots =
        e.slots
        ∙ ap (λ (w : Mailbox). posted_all w e.messages) d.slots
        ∙ sym (posted_all-append q d.messages e.messages);
  }

  pub room_left :
      (a : Stage S) (q : Mailbox) (m n : ℕ) (ds : List (List ℕ))
      → Delivers a q m ds
      → held q + (m + n) ≤ cap
      → held (slot.view a.world) + n ≤ cap
  room_left a q m n ds d h = omega (arith, ap held d.slots, held-posted_all q d.messages, d.count)

  pub one :
      (tid : ℕ) (s : S)
      → slot.Storable (here_text tid)
      → slot.Valid s
      → held (slot.view s) < cap
      → Delivers
          (stage true (written (here_text tid) ∷ []) (lib.send_message fd (here_text tid) s).1)
          (slot.view s)
          1
          (here_text tid ∷ [])
  one tid s st v room =
      let (v', ret, q) = slot.sends (here_text tid) s v st room in
      record {
        messages = here_text tid ∷ [];
        count = refl;
        all = Perm.refl (here_text tid ∷ []);
        full = (slot.not_empty (here_text tid) st, tt);
        well = refl;
        lines = refl;
        valid = v';
        slots = q;
      }

  pub sent_well :
      (tid : ℕ) (s : S)
      → slot.Storable (here_text tid)
      → slot.Valid s
      → held (slot.view s) < cap
      → is_negative (lib.send_message fd (here_text tid) s).0 ≡ false
  sent_well tid s st v room = ap is_negative (slot.sends (here_text tid) s v st room).1
