-- ===== src/Programs/Groups/Waiting.antt =====
-- All children of lib/mp_multigroup.c, until they are gone.
use aosv_project.Prelude.{ℕ, ◌+◌, ◌≤◌, ◌≡◌, refl, ◌∙◌, List, [], ◌∷◌, Distinct, arith}
use aosv_project.Prelude.Bytes.{replicate}
use aosv_project.Programs.{Library, Stage}
use aosv_project.Programs.Workers.{here_text}
use aosv_project.Programs.Ordinary.Finds.{holding}
use aosv_project.Programs.Groups.{
  Place, opens, sends, closes, gone, Writer, turn_in, run_out, wait_for, write_groups,
}
use aosv_project.Programs.Groups.Laws.{IsSlots, Outside}
use aosv_project.Programs.Groups.Writers.{
  descs, ids, left_turns, Standing, AllStanding, AllSmall, run_out-Delivered, turn_in-AllAdvance,
  AllStanding-Outside,
}

module _ {S : Type 0} (lib : Library S) (cap : ℕ) (slots : IsSlots lib cap) where
  -- Each group holds the messages of its child.
  abbrev pub AllHold : List (ℕ × ℕ) → S → Type 0
  AllHold [] s = Unit {0}
  AllHold (c ∷ cs) s = (slots.view c.0 s ≡ holding (replicate c.0 (here_text c.1))) × AllHold cs s

  pub record AllDelivered (ws : List Writer) (s : S) (r : Stage S) : Type 0 where
    pub valid : slots.Valid r.world
    pub hold : AllHold (ids ws) r.world
    pub outside : Outside slots.view (descs ws) s r.world

  enough :
      (w : Writer) (s : S)
      → Standing lib cap slots w.desc w.tid w.place s
      → left_turns w.desc w.place ≤ w.desc + 2
  enough w s e = at_most w.place e
    where
      at_most :
          (p : Place) → Standing lib cap slots w.desc w.tid p s → left_turns w.desc p ≤ w.desc + 2
      at_most opens e = omega arith
      at_most (sends fd left i) (file, (n, count, e)) = omega (arith, count)
      at_most (closes fd) e = absurd e
      at_most gone e = omega arith

  wait_for-AllDelivered :
      (ws : List Writer) (s : S)
      → slots.Valid s
      → AllSmall lib cap slots ws
      → Distinct (descs ws)
      → AllStanding lib cap slots ws s
      → AllDelivered ws s (wait_for lib ws s)
  unfolding wait_for
  wait_for-AllDelivered [] s v m d e = record { valid = v; hold = tt; outside = λ i h. refl }
  wait_for-AllDelivered (w ∷ ws) s v m d e =
      let a =
        run_out-Delivered lib cap slots (w.desc + 2) w.desc w.tid w.place s v m.0 e.0
          (enough w s e.0) in
      let t = (run_out lib (w.desc + 2) w.desc w.tid w.place s).world in
      let b =
        wait_for-AllDelivered ws t a.valid m.1 d.1
          (AllStanding-Outside lib cap slots ws w.desc s t d.0 a.outside e.1) in
      record {
        valid = b.valid;
        hold = (b.outside w.desc d.0 ∙ a.holds, b.hold);
        outside = λ i h. b.outside i (ground arith) ∙ a.outside i (ground arith);
      }

  pub write_groups-AllDelivered :
      (schedule : List ℕ) (ws : List Writer) (s : S)
      → slots.Valid s
      → AllSmall lib cap slots ws
      → Distinct (descs ws)
      → AllStanding lib cap slots ws s
      → AllDelivered ws s (write_groups lib schedule ws s)
  unfolding write_groups
  write_groups-AllDelivered [] ws s v m d e = wait_for-AllDelivered ws s v m d e
  write_groups-AllDelivered (i ∷ schedule) ws s v m d e =
      let a = turn_in-AllAdvance lib cap slots i ws s v m d e in
      let r = turn_in lib i ws s in
      let b =
        write_groups-AllDelivered schedule r.0 r.1.world a.valid a.small (rw a.same_descs d)
          a.stand in
      record {
        valid = b.valid;
        hold = rw⁻¹ a.same_ids b.hold;
        outside = λ j h. b.outside j (rw a.same_descs h) ∙ a.outside j h;
      }
