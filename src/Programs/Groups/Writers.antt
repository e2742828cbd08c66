-- ===== src/Programs/Groups/Writers.antt =====
-- The children of lib/mp_multigroup.c do not touch each other's groups: in whatever order they take their
-- turns, each group holds the messages of its child when all are gone.
use aosv_project.Prelude.{
  ℕ, zero, suc, ◌+◌, ◌-◌, ◌≤◌, ◌≡◌, refl, ap, ◌∙◌, false, List, [], ◌∷◌, ◌++◌, is_negative, has,
  Distinct, arith,
}
use aosv_project.Prelude.Bytes.{replicate, length-replicate}
use aosv_project.Mailbox.{Mailbox, held}
use aosv_project.Programs.{Library, Stage}
use aosv_project.Programs.Slot.{posted}
use aosv_project.Programs.Workers.{here_text}
use aosv_project.Programs.Ordinary.Finds.{holding}
use aosv_project.Programs.Groups.{
  Place, opens, sends, closes, gone, Writer, Moved, open_own, send_here, writer_turn, turn_in,
  run_out,
}
use aosv_project.Programs.Groups.Laws.{IsSlots, Outside}

replicate-snoc {ℓ} : {A : Type ℓ} (n : ℕ) (a : A) → replicate n a ++ a ∷ [] ≡ replicate (suc n) a
replicate-snoc zero a = refl
replicate-snoc (suc n) a = ap (λ l. a ∷ l) (replicate-snoc n a)

abbrev pub descs : List Writer → List ℕ
descs [] = []
descs (w ∷ ws) = w.desc ∷ descs ws

-- The children's numbers, each with the one that `gettid` gives.
abbrev pub ids : List Writer → List (ℕ × ℕ)
ids [] = []
ids (w ∷ ws) = (w.desc, w.tid) ∷ ids ws

-- How many turns a child has left at most.
abbrev pub left_turns : ℕ → Place → ℕ
left_turns desc opens = desc + 2
left_turns desc (sends fd left i) = left + 1
left_turns desc (closes fd) = 1
left_turns desc gone = 0

module _ {S : Type 0} (lib : Library S) (cap : ℕ) (slots : IsSlots lib cap) where
  -- The group has room for the messages of its child, whose text can be sent.
  abbrev pub Fits : (desc tid : ℕ) → Type 0
  Fits desc tid = (desc ≤ cap) × slots.Storable (here_text tid)

  -- What a child has done to its group, by its place.
  abbrev pub Standing : (desc tid : ℕ) → Place → S → Type 0
  Standing desc tid opens s = slots.view desc s ≡ holding []
  Standing desc tid (sends fd left i) s =
      (fd ≡ slots.file_of desc)
      × ((n : ℕ) × (n + left ≡ desc) × (slots.view desc s ≡ holding (replicate n (here_text tid))))
  Standing desc tid (closes fd) s = ⊥
  Standing desc tid gone s = slots.view desc s ≡ holding (replicate desc (here_text tid))

  -- After a turn: the child stands as it should, has a turn less, and no other group has changed.
  record Advances (desc tid turns : ℕ) (s : S) (r : Moved S) : Type 0 where
    valid : slots.Valid r.world
    stands : Standing desc tid r.place r.world
    fewer : left_turns desc r.place ≤ turns - 1
    outside : Outside slots.view (desc ∷ []) s r.world

  open_own-Advances :
      (desc tid : ℕ) (s : S)
      → slots.Valid s
      → slots.view desc s ≡ holding []
      → Advances desc tid (desc + 2) s (open_own lib desc s)
  unfolding open_own
  open_own-Advances desc tid s v e =
      let (v', file, same) = slots.starts desc s v in
      let ok : is_negative (lib.open_group desc s).0 ≡ false =
        ap is_negative file ∙ slots.file_open desc in
      rw (ok, open_own)
        (record {
          valid = v';
          stands = (file, (0, omega arith, same desc refl ∙ e));
          fewer = omega arith;
          outside = λ i h. same i refl;
        })

  send_here-Advances :
      (desc tid left i n : ℕ) (s : S)
      → slots.Valid s
      → Fits desc tid
      → n + suc left ≡ desc
      → slots.view desc s ≡ holding (replicate n (here_text tid))
      → Advances desc tid (suc left + 1) s (send_here lib tid (slots.file_of desc) left i s)
  unfolding send_here
  send_here-Advances desc tid left i n s v room count e =
      let text = here_text tid in
      let (v', ret, q, same) =
        slots.sends desc text s v room.1
          (omega (arith, room.0, ap held e, length-replicate n text)) in
      let ok : is_negative (lib.send_message (slots.file_of desc) text s).0 ≡ false =
        ap is_negative ret in
      rw (ok, send_here)
        (record {
          valid = v';
          stands = (
            refl,
            (
              suc n,
              omega (arith, count),
              q ∙ ap (λ (w : Mailbox). posted w text) e ∙ ap holding (replicate-snoc n text),
            ),
          );
          fewer = omega arith;
          outside = same;
        })

  writer_turn-Advances :
      (desc tid : ℕ) (p : Place) (s : S)
      → slots.Valid s
      → Fits desc tid
      → Standing desc tid p s
      → Advances desc tid (left_turns desc p) s (writer_turn lib desc tid p s)
  unfolding writer_turn
  writer_turn-Advances desc tid opens s v room e = open_own-Advances desc tid s v e
  writer_turn-Advances desc tid (sends fd zero i) s v room (file, (n, count, e)) =
      let (v', same) = slots.ends desc s v in
      let all : n ≡ desc = omega (arith, count) in
      rw file (record {
        valid = v';
        stands = same desc refl ∙ e ∙ ap (λ m. holding (replicate m (here_text tid))) all;
        fewer = omega arith;
        outside = λ i h. same i refl;
      })
  writer_turn-Advances desc tid (sends fd (suc left) i) s v room (file, (n, count, e)) =
      rw file (send_here-Advances desc tid left i n s v room count e)
  writer_turn-Advances desc tid (closes fd) s v room e = absurd e
  writer_turn-Advances desc tid gone s v room e = record {
    valid = v;
    stands = e;
    fewer = omega arith;
    outside = λ i h. refl;
  }

  -- A child that has left its messages.
  pub record Delivered (desc tid : ℕ) (s : S) (r : Stage S) : Type 0 where
    pub valid : slots.Valid r.world
    pub holds : slots.view desc r.world ≡ holding (replicate desc (here_text tid))
    pub outside : Outside slots.view (desc ∷ []) s r.world

  pub run_out-Delivered :
      (turns desc tid : ℕ) (p : Place) (s : S)
      → slots.Valid s
      → Fits desc tid
      → Standing desc tid p s
      → left_turns desc p ≤ turns
      → Delivered desc tid s (run_out lib turns desc tid p s)
  unfolding run_out
  run_out-Delivered zero desc tid opens s v room e h = absurd (omega arith)
  run_out-Delivered zero desc tid (sends fd left i) s v room e h = absurd (omega arith)
  run_out-Delivered zero desc tid (closes fd) s v room e h = absurd e
  run_out-Delivered zero desc tid gone s v room e h = record {
    valid = v;
    holds = e;
    outside = λ i h. refl;
  }
  run_out-Delivered (suc turns) desc tid p s v room e h =
      let a = writer_turn-Advances desc tid p s v room e in
      let r = writer_turn lib desc tid p s in
      let d =
        run_out-Delivered turns desc tid r.place r.world a.valid room a.stands
          (omega (arith, a.fewer)) in
      record { valid = d.valid; holds = d.holds; outside = λ i g. d.outside i g ∙ a.outside i g }

  -- All children, each by its place.
  abbrev pub AllStanding : List Writer → S → Type 0
  AllStanding [] s = Unit {0}
  AllStanding (w ∷ ws) s = Standing w.desc w.tid w.place s × AllStanding ws s

  abbrev pub AllSmall : List Writer → Type 0
  AllSmall [] = Unit {0}
  AllSmall (w ∷ ws) = Fits w.desc w.tid × AllSmall ws

  -- What a child has done is untouched by what happens in other groups.
  pub Standing-Outside :
      (desc tid : ℕ) (p : Place) (s t : S)
      → slots.view desc t ≡ slots.view desc s
      → Standing desc tid p s
      → Standing desc tid p t
  Standing-Outside desc tid opens s t q e = q ∙ e
  Standing-Outside desc tid (sends fd left i) s t q (file, (n, count, e)) =
      (file, (n, count, q ∙ e))
  Standing-Outside desc tid (closes fd) s t q e = e
  Standing-Outside desc tid gone s t q e = q ∙ e

  pub AllStanding-Outside :
      (ws : List Writer) (desc : ℕ) (s t : S)
      → has desc (descs ws) ≡ false
      → Outside slots.view (desc ∷ []) s t
      → AllStanding ws s
      → AllStanding ws t
  AllStanding-Outside [] desc s t h o e = tt
  AllStanding-Outside (w ∷ ws) desc s t h o (e, es) = (
    Standing-Outside w.desc w.tid w.place s t (o w.desc (ground arith)) e,
    AllStanding-Outside ws desc s t (ground arith) o es,
  )

  pub record AllAdvance (ws : List Writer) (s : S) (r : List Writer × Stage S) : Type 0 where
    pub valid : slots.Valid r.1.world
    pub stand : AllStanding r.0 r.1.world
    pub small : AllSmall r.0
    pub same_descs : descs r.0 ≡ descs ws
    pub same_ids : ids r.0 ≡ ids ws
    pub outside : Outside slots.view (descs ws) s r.1.world

  pub turn_in-AllAdvance :
      (i : ℕ) (ws : List Writer) (s : S)
      → slots.Valid s
      → AllSmall ws
      → Distinct (descs ws)
      → AllStanding ws s
      → AllAdvance ws s (turn_in lib i ws s)
  unfolding turn_in
  turn_in-AllAdvance i [] s v m d e = record {
    valid = v;
    stand = tt;
    small = tt;
    same_descs = refl;
    same_ids = refl;
    outside = λ j h. refl;
  }
  turn_in-AllAdvance zero (w ∷ ws) s v m d e =
      let a = writer_turn-Advances w.desc w.tid w.place s v m.0 e.0 in
      let t = (writer_turn lib w.desc w.tid w.place s).world in
      record {
        valid = a.valid;
        stand = (a.stands, AllStanding-Outside ws w.desc s t d.0 a.outside e.1);
        small = m;
        same_descs = refl;
        same_ids = refl;
        outside = λ j h. a.outside j (ground arith);
      }
  turn_in-AllAdvance (suc i) (w ∷ ws) s v m d e =
      let a = turn_in-AllAdvance i ws s v m.1 d.1 e.1 in
      record {
        valid = a.valid;
        stand = (
          Standing-Outside w.desc w.tid w.place s (turn_in lib i ws s).1.world
              (a.outside w.desc d.0) e.0,
          a.stand,
        );
        small = (m.0, a.small);
        same_descs = ap (λ l. w.desc ∷ l) a.same_descs;
        same_ids = ap (λ (l : List (ℕ × ℕ)). (w.desc, w.tid) ∷ l) a.same_ids;
        outside = λ j h. a.outside j (ground arith);
      }
