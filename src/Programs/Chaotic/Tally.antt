-- ===== src/Programs/Chaotic/Tally.antt =====
-- However the threads of lib/mt_ordinary_chaotic.c interleave on a group that behaves as a mail slot,
-- each message that they write is read or is in the slot.
use aosv_project.Prelude.{
  ◌==◌, Bool-cases, inl, inr, true, false, ℕ, zero, suc, ◌+◌, ◌≤◌, ◌<◌, ◌≡◌, ap, ◌∙◌, List, [], ◌∷◌,
  ◌++◌, length, length-append, total, total-append, ℤ, pos, arith, Bool, Bool-cases,
}
use aosv_project.Mailbox.{Mailbox, held}
use aosv_project.Programs.{Library, Line, written, bytes_read, no_more, message_size}
use aosv_project.Programs.Slot.{IsSlot, posted}
use aosv_project.Programs.Exchange.{got_line, AllFull}
use aosv_project.Programs.Workers.{here_text}
use aosv_project.Programs.Workers.Posts.{AllFull-append}
use aosv_project.Programs.Ordinary.Finds.{holding}
use aosv_project.Programs.Chaotic.{
  Drawn, Doing, loads, stores, writes, reads, wakes, beds, asleep, ended, Turned, turned, Runner,
  Chaos, send_one, read_one, run_turn, turn_at, chaos_turn, chaos_turns,
}

-- How many lines are of messages that are read.
abbrev pub is_read : Line → ℕ
is_read (bytes_read n m) = 1
is_read _ = 0

abbrev pub reads_in : List Line → ℕ
reads_in ls = total is_read ls

-- What a thread, and what all have left to write.
abbrev pub left_of : Drawn → Doing → ℕ
left_of c loads = c.to_write
left_of c (stores q) = c.to_write
left_of c (writes left i) = left
left_of c _ = 0

abbrev pub all_left_of : List Runner → ℕ
all_left_of [] = 0
all_left_of (a ∷ others) = left_of a.drawn a.doing + all_left_of others

module _ {S : Type 0} (lib : Library S) (fd : ℤ) (cap : ℕ) (slot : IsSlot lib fd cap) where
  -- The texts of the threads can be sent.
  abbrev pub AllSendable : List Runner → Type 0
  AllSendable [] = Unit {0}
  AllSendable (a ∷ others) = slot.Storable (here_text a.drawn.tid) × AllSendable others

  -- After a turn the slot holds messages, so many that none is lost.
  record Turns (t : Turned S) (c : Drawn) (before : ℕ) : Type 0 where
    messages : List (List ℕ)
    full : AllFull messages
    valid : slot.Valid t.world
    slots : slot.view t.world ≡ holding messages
    counted : left_of c t.doing + length messages + reads_in t.lines ≡ before

  -- The message list as it was before the turn.
  same :
      (t : Turned S) (c : Drawn) (ms : List (List ℕ)) (before : ℕ)
      → AllFull ms
      → slot.Valid t.world
      → slot.view t.world ≡ holding ms
      → left_of c t.doing + length ms + reads_in t.lines ≡ before
      → Turns t c before
  same t c ms before f v e h = record { messages = ms; full = f; valid = v; slots = e; counted = h }

  module _ (c : Drawn) (r : ℤ) (b : Bool) (s : S) (ms : List (List ℕ)) (f : AllFull ms)
      (v : slot.Valid s) (e : slot.view s ≡ holding ms) where
    send_one-suc :
        (left i n : ℕ)
        → (lib.send_message fd (here_text c.tid) s).0 ≡ pos n
        → send_one lib fd c left i r b s
          ≡ turned
              (writes left (i + 1))
              r
              b
              (written (here_text c.tid) ∷ [])
              (lib.send_message fd (here_text c.tid) s).1
    unfolding send_one
    send_one-suc left i n h = rw (h, send_one)

    send_one-Turns :
        (left i : ℕ)
        → slot.Storable (here_text c.tid)
        → length ms < cap
        → Turns (send_one lib fd c left i r b s) c (suc left + length ms)
    send_one-Turns left i st room =
        let text = here_text c.tid in
        let (v', ret, q) = slot.sends text s v st (omega (arith, ap held e)) in
        rw (send_one-suc left i (length text) ret) (
          same _ c (ms ++ text ∷ []) (suc left + length ms)
            (AllFull-append ms (text ∷ []) f (slot.not_empty text st, tt)) v'
            (q ∙ ap (λ (w : Mailbox). posted w text) e)
            (omega (arith, length-append ms (text ∷ []))))

    read_one-none :
        (left i : ℕ)
        → (lib.retrieve_message fd message_size s).0.0 ≡ pos 0
        → read_one lib fd c left i r b s
          ≡ turned wakes r b (no_more ∷ []) (lib.retrieve_message fd message_size s).1
    unfolding read_one
    read_one-none left i h = rw (h, read_one)

    read_one-suc :
        (left i k : ℕ)
        → (lib.retrieve_message fd message_size s).0.0 ≡ pos (suc k)
        → read_one lib fd c left i r b s
          ≡ turned
              (reads left (i + 1))
              r
              b
              (bytes_read (pos (suc k)) (lib.retrieve_message fd message_size s).0.1 ∷ [])
              (lib.retrieve_message fd message_size s).1
    unfolding read_one
    read_one-suc left i k h = rw (h, read_one)

  read_one-Turns :
      (c : Drawn) (r : ℤ) (b : Bool) (s : S) (ms : List (List ℕ)) (left i : ℕ)
      → AllFull ms
      → slot.Valid s
      → slot.view s ≡ holding ms
      → Turns (read_one lib fd c left i r b s) c (0 + length ms)
  read_one-Turns c r b s [] left i f v e =
      let (v', ret, q) = slot.finds_none message_size s v (ap (λ (w : Mailbox). w.available) e) in
      rw (read_one-none c r b s [] f v e left i ret) (same _ c [] _ tt v' (q ∙ e) (omega arith))
  read_one-Turns c r b s (m ∷ ms) left i f v e =
      let (v', ret, q) =
        slot.retrieves message_size s m ms v (ap (λ (w : Mailbox). w.available) e) in
      let (k, positive, line) = got_line (lib.retrieve_message fd message_size s).0 m f.0 ret in
      rw (read_one-suc c r b s (m ∷ ms) f v e left i k positive) (
        same _ c ms _ f.1 v' (q ∙ ap (λ (w : Mailbox). record w { available = ms }) e)
          (omega arith))

  run_turn-Turns :
      (c : Drawn) (d : Doing) (r : ℤ) (b : Bool) (s : S) (ms : List (List ℕ))
      → slot.Storable (here_text c.tid)
      → AllFull ms
      → slot.Valid s
      → slot.view s ≡ holding ms
      → left_of c d + length ms ≤ cap
      → Turns (run_turn lib fd c d r b s) c (left_of c d + length ms)
  unfolding run_turn
  run_turn-Turns c loads r b s ms st f v e room = same _ c ms _ f v e (omega arith)
  run_turn-Turns c (stores q) r b s ms st f v e room = same _ c ms _ f v e (omega arith)
  run_turn-Turns c (writes zero i) r b s ms st f v e room = same _ c ms _ f v e (omega arith)
  run_turn-Turns c (writes (suc left) i) r b s ms st f v e room =
      send_one-Turns c r b s ms f v e left i st (omega arith)
  run_turn-Turns c (reads zero i) r b s ms st f v e room = same _ c ms _ f v e (omega arith)
  run_turn-Turns c (reads (suc left) i) r b s ms st f v e room =
      read_one-Turns c r b s ms left i f v e
  run_turn-Turns c wakes r b s ms st f v e room = elim (Bool-cases (c.to_awake == 0)) [
    | inl now ↦ let w = slot.awakes s v in rw now (same _ c ms _ f w.0 (w.1 ∙ e) (omega arith))
    | inr later ↦ rw later (same _ c ms _ f v e (omega arith))
  ]
  run_turn-Turns c beds r b s ms st f v e room = elim (Bool-cases (c.to_sleep == 0)) [
    | inl stays ↦ rw stays (same _ c ms _ f v e (omega arith))
    | inr sleeps ↦ rw sleeps (same _ c ms _ f v e (omega arith))
  ]
  run_turn-Turns c asleep r true s ms st f v e room = same _ c ms _ f v e (omega arith)
  run_turn-Turns c asleep r false s ms st f v e room = same _ c ms _ f v e (omega arith)
  run_turn-Turns c ended r b s ms st f v e room = same _ c ms _ f v e (omega arith)

  -- One thread's turn among the others'.
  record TurnsAt (others : List Runner) (t : Turned S) (before : ℕ) : Type 0 where
    messages : List (List ℕ)
    full : AllFull messages
    valid : slot.Valid t.world
    slots : slot.view t.world ≡ holding messages
    counted : all_left_of others + length messages + reads_in t.lines ≡ before

  turn_at-TurnsAt :
      (i : ℕ) (rs : List Runner) (r : ℤ) (b : Bool) (s : S) (ms : List (List ℕ))
      → AllSendable rs
      → AllFull ms
      → slot.Valid s
      → slot.view s ≡ holding ms
      → all_left_of rs + length ms ≤ cap
      → TurnsAt
          (turn_at lib fd i rs r b s).0
          (turn_at lib fd i rs r b s).1
          (all_left_of rs + length ms)
  unfolding turn_at
  turn_at-TurnsAt i [] r b s ms st f v e room = record {
    messages = ms;
    full = f;
    valid = v;
    slots = e;
    counted = omega arith;
  }
  turn_at-TurnsAt zero (a ∷ rs) r b s ms st f v e room =
      let t = run_turn-Turns a.drawn a.doing r b s ms st.0 f v e (omega arith) in
      record {
        messages = t.messages;
        full = t.full;
        valid = t.valid;
        slots = t.slots;
        counted = omega (arith, t.counted);
      }
  turn_at-TurnsAt (suc i) (a ∷ rs) r b s ms st f v e room =
      let t = turn_at-TurnsAt i rs r b s ms st.1 f v e (omega arith) in
      record {
        messages = t.messages;
        full = t.full;
        valid = t.valid;
        slots = t.slots;
        counted = omega (arith, t.counted);
      }

  turn_at-AllSendable :
      (i : ℕ) (rs : List Runner) (r : ℤ) (b : Bool) (s : S)
      → AllSendable rs
      → AllSendable (turn_at lib fd i rs r b s).0
  unfolding turn_at
  turn_at-AllSendable i [] r b s st = tt
  turn_at-AllSendable zero (a ∷ rs) r b s st = st
  turn_at-AllSendable (suc i) (a ∷ rs) r b s st = (st.0, turn_at-AllSendable i rs r b s st.1)

  -- All messages that the threads have to write in the beginning are still to be written, in the slot,
  -- or read.
  pub record Tallies (c : Chaos S) (all : ℕ) : Type 0 where
    pub messages : List (List ℕ)
    pub sendable : AllSendable c.runners
    pub full : AllFull messages
    pub valid : slot.Valid c.world
    pub slots : slot.view c.world ≡ holding messages
    pub counted : all_left_of c.runners + length messages + reads_in c.lines ≡ all

  chaos_turn-Tallies :
      (i : ℕ) (c : Chaos S) (all : ℕ)
      → all ≤ cap
      → Tallies c all
      → Tallies (chaos_turn lib fd i c) all
  unfolding chaos_turn
  chaos_turn-Tallies i c all room v =
      let t =
        turn_at-TurnsAt i c.runners c.remaining c.barrier c.world v.messages v.sendable v.full
          v.valid v.slots (omega (arith, v.counted)) in
      record {
        messages = t.messages;
        sendable = turn_at-AllSendable i c.runners c.remaining c.barrier c.world v.sendable;
        full = t.full;
        valid = t.valid;
        slots = t.slots;
        counted = omega (
          arith,
          t.counted,
          v.counted,
          total-append is_read c.lines
              (turn_at lib fd i c.runners c.remaining c.barrier c.world).1.lines,
        );
      }

  pub chaos_turns-Tallies :
      (is : List ℕ) (c : Chaos S) (all : ℕ)
      → all ≤ cap
      → Tallies c all
      → Tallies (chaos_turns lib fd is c) all
  unfolding chaos_turns
  chaos_turns-Tallies [] c all room v = v
  chaos_turns-Tallies (i ∷ is) c all room v =
      chaos_turns-Tallies is (chaos_turn lib fd i c) all room (chaos_turn-Tallies i c all room v)
