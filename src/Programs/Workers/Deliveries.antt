-- ===== src/Programs/Workers/Deliveries.antt =====
-- The children of lib/mp_readwrite.c and lib/mt_readwrite.c on a group that behaves as a mail slot: in
-- whatever order they take their turns, the slot holds what the log says is written, in the log's order.
use mathlib.Core.List.{append_assoc, append-nil, Perm}
use mathlib.Core.List.Perm
use aosv_project.Mailbox.Receipt.{eq-perm, append_comm}
use aosv_project.Prelude.Bytes.{replicate}
use aosv_project.Prelude.{
  refl, ℕ, zero, suc, ◌+◌, ◌≤◌, ◌≡◌, sym, true, List, [], ◌∷◌, ◌++◌, ℤ, arith,
}
use aosv_project.Mailbox.{Mailbox, held}
use aosv_project.Programs.{Library, written, Stage, stage}
use aosv_project.Programs.Slot.{IsSlot}
use aosv_project.Programs.Workers.{
  Child, here_text, child_turn, send_next, turn_of, finish, finish_all, interleave,
}
use aosv_project.Programs.Workers.Posts.{
  Delivers, counted, nothing, followed_by, room_left, one, sent_well,
}

-- What the children have left to send.
abbrev pub all_left : List Child → ℕ
all_left [] = 0
all_left (c ∷ cs) = c.left + all_left cs

-- The texts that they have left to send.
abbrev pub due : List Child → List (List ℕ)
due [] = []
due (c ∷ cs) = replicate c.left (here_text c.tid) ++ due cs

append_swap : (xs ys zs : List (List ℕ)) → Perm (xs ++ (ys ++ zs)) (ys ++ (xs ++ zs))
append_swap xs ys zs =
    Perm.trans (eq-perm (sym (append_assoc xs ys zs)))
      (Perm.trans (Perm.append_right zs (append_comm xs ys)) (eq-perm (append_assoc ys xs zs)))

module _ {S : Type 0} (lib : Library S) (fd : ℤ) (cap : ℕ) (slot : IsSlot lib fd cap) where
  -- The texts of the children can be sent.
  abbrev pub AllStorable : List Child → Type 0
  AllStorable [] = Unit {0}
  AllStorable (c ∷ cs) = slot.Storable (here_text c.tid) × AllStorable cs

  send_next-tid : (c : Child) (left : ℕ) (s : S) → (send_next lib fd c left s).0.tid ≡ c.tid
  unfolding send_next
  send_next-tid c zero s = refl
  send_next-tid c (suc left) s = ground arith

  turn_of-AllStorable :
      (i : ℕ) (cs : List Child) (s : S) → AllStorable cs → AllStorable (turn_of lib fd i cs s).0
  unfolding turn_of child_turn
  turn_of-AllStorable i [] s st = tt
  turn_of-AllStorable zero (c ∷ cs) s st = (rw (send_next-tid c c.left s) st.0, st.1)
  turn_of-AllStorable (suc i) (c ∷ cs) s st = (st.0, turn_of-AllStorable i cs s st.1)

  finish-Delivers :
      (tid left i : ℕ) (s : S)
      → slot.Storable (here_text tid)
      → slot.Valid s
      → held (slot.view s) + left ≤ cap
      → Delivers lib fd cap slot
          (finish lib fd tid left i s)
          (slot.view s)
          left
          (replicate left (here_text tid))
  unfolding finish
  finish-Delivers tid zero i s st v room = nothing lib fd cap slot s v
  finish-Delivers tid (suc left) i s st v room =
      let t = (lib.send_message fd (here_text tid) s).1 in
      let a : Stage S = stage true (written (here_text tid) ∷ []) t in
      let d = one lib fd cap slot tid s st v (omega arith) in
      let e =
        finish-Delivers tid left (i + 1) t st d.valid
          (room_left lib fd cap slot a (slot.view s) 1 left (here_text tid ∷ []) d (omega arith)) in
      rw (sent_well lib fd cap slot tid s st v (omega arith), finish)
        (counted lib fd cap slot (omega arith) (Perm.refl (replicate (suc left) (here_text tid))) (
          followed_by lib fd cap slot a (finish lib fd tid left (i + 1) t) (slot.view s) 1 left
            (here_text tid ∷ []) (replicate left (here_text tid)) d e))

  finish_all-Delivers :
      (cs : List Child) (s : S)
      → AllStorable cs
      → slot.Valid s
      → held (slot.view s) + all_left cs ≤ cap
      → Delivers lib fd cap slot (finish_all lib fd cs s) (slot.view s) (all_left cs) (due cs)
  unfolding finish_all
  finish_all-Delivers [] s st v room = nothing lib fd cap slot s v
  finish_all-Delivers (c ∷ cs) s st v room =
      let a = finish lib fd c.tid c.left c.sent s in
      let d = finish-Delivers c.tid c.left c.sent s st.0 v (omega arith) in
      followed_by lib fd cap slot a (finish_all lib fd cs a.world) (slot.view s) c.left
        (all_left cs) (replicate c.left (here_text c.tid)) (due cs) d
        (finish_all-Delivers cs a.world st.1 d.valid (
          room_left lib fd cap slot a (slot.view s) c.left (all_left cs)
            (replicate c.left (here_text c.tid)) d (omega arith)))

  -- A turn posts what its child then has less to send.
  pub record Advances (cs es : List Child) (r : Stage S) (q : Mailbox) : Type 0 where
    pub now : ℕ
    pub messages : List (List ℕ)
    pub adds_up : now + all_left es ≡ all_left cs
    pub all : Perm (messages ++ due es) (due cs)
    pub delivers : Delivers lib fd cap slot r q now messages

  send_next-Advances :
      (c : Child) (left : ℕ) (s : S)
      → slot.Storable (here_text c.tid)
      → slot.Valid s
      → held (slot.view s) + left ≤ cap
      → Advances
          (record c { left = left } ∷ [])
          ((send_next lib fd c left s).0 ∷ [])
          (send_next lib fd c left s).1
          (slot.view s)
  unfolding send_next
  send_next-Advances c zero s st v room = record {
    now = 0;
    messages = [];
    adds_up = omega arith;
    all = Perm.refl [];
    delivers = nothing lib fd cap slot s v;
  }
  send_next-Advances c (suc left) s st v room =
      rw (sent_well lib fd cap slot c.tid s st v (omega arith), send_next)
        (record {
          now = 1;
          messages = here_text c.tid ∷ [];
          adds_up = omega arith;
          all = Perm.refl (replicate (suc left) (here_text c.tid) ++ []);
          delivers = one lib fd cap slot c.tid s st v (omega arith);
        })

  -- The children behind one of them wait.
  with_others :
      (c e : Child) (cs : List Child) (r : Stage S) (q : Mailbox)
      → Advances (c ∷ []) (e ∷ []) r q
      → Advances (c ∷ cs) (e ∷ cs) r q
  with_others c e cs r q a =
      let mine = replicate c.left (here_text c.tid) in
      let left = replicate e.left (here_text e.tid) in
      let swaps : Perm (a.messages ++ left) mine = rw (append-nil left, append-nil mine) at a.all in
      record {
        now = a.now;
        messages = a.messages;
        adds_up = omega (arith, a.adds_up);
        all =
            Perm.trans (eq-perm (sym (append_assoc a.messages left (due cs))))
              (Perm.append_right (due cs) swaps);
        delivers = a.delivers;
      }

  turn_of-Advances :
      (i : ℕ) (cs : List Child) (s : S)
      → AllStorable cs
      → slot.Valid s
      → held (slot.view s) + all_left cs ≤ cap
      → Advances cs (turn_of lib fd i cs s).0 (turn_of lib fd i cs s).1 (slot.view s)
  unfolding turn_of child_turn
  turn_of-Advances i [] s st v room = record {
    now = 0;
    messages = [];
    adds_up = omega arith;
    all = Perm.refl [];
    delivers = nothing lib fd cap slot s v;
  }
  turn_of-Advances zero (c ∷ cs) s st v room =
      let r = send_next lib fd c c.left s in
      with_others c r.0 cs r.1 (slot.view s) (send_next-Advances c c.left s st.0 v (omega arith))
  turn_of-Advances (suc i) (c ∷ cs) s st v room =
      let a = turn_of-Advances i cs s st.1 v (omega arith) in
      let es = (turn_of lib fd i cs s).0 in
      let mine = replicate c.left (here_text c.tid) in
      record {
        now = a.now;
        messages = a.messages;
        adds_up = omega (arith, a.adds_up);
        all = Perm.trans (append_swap a.messages mine (due es)) (Perm.append_left mine a.all);
        delivers = a.delivers;
      }

  -- With room for all messages, the children deliver them all, whatever the schedule.
  pub interleave-Delivers :
      (schedule : List ℕ) (cs : List Child) (s : S)
      → AllStorable cs
      → slot.Valid s
      → held (slot.view s) + all_left cs ≤ cap
      → Delivers lib fd cap slot
          (interleave lib fd schedule cs s)
          (slot.view s)
          (all_left cs)
          (due cs)
  unfolding interleave
  interleave-Delivers [] cs s st v room = finish_all-Delivers cs s st v room
  interleave-Delivers (i ∷ schedule) cs s st v room =
      let a = turn_of-Advances i cs s st v room in
      let r = turn_of lib fd i cs s in
      counted lib fd cap slot a.adds_up a.all (
        followed_by lib fd cap slot r.1 (interleave lib fd schedule r.0 r.1.world) (slot.view s)
          a.now (all_left r.0) a.messages (due r.0) a.delivers
          (interleave-Delivers schedule r.0 r.1.world (turn_of-AllStorable i cs s st)
            a.delivers.valid
            (room_left lib fd cap slot r.1 (slot.view s) a.now (all_left r.0) a.messages a.delivers
              (omega (arith, a.adds_up)))))
