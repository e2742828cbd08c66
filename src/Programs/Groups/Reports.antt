-- ===== src/Programs/Groups/Reports.antt =====
-- The reads of lib/mp_multigroup.c, group by group.
use aosv_project.Prelude.{
  ℕ, zero, suc, ◌+◌, ◌≤◌, ◌<◌, ◌≡◌, refl, sym, ap, ◌∙◌, true, false, List, [], ◌∷◌, ◌++◌, map,
  length, ℤ, pos, is_negative, ◌==◌, arith, Bool-cases, inl, inr,
}
use aosv_project.Mailbox.{Mailbox}
use aosv_project.Programs.{
  Library, Line, opened, closed, no_more, bytes_read, Stage, stage, before, message_size,
}
use aosv_project.Programs.Exchange.{got, got_line, AllFull}
use aosv_project.Programs.Stages.{in_group}
use aosv_project.Programs.Workers.{children}
use aosv_project.Programs.Ordinary.Finds.{holding}
use aosv_project.Programs.Groups.{read_group, read_groups}
use aosv_project.Programs.Groups.Laws.{IsSlots, Outside}

-- What the program logs of a group with these messages.
abbrev pub report : (desc : ℕ) → ℤ → List (List ℕ) → List Line
report desc fd ms = in_group desc fd (map got ms ++ no_more ∷ [])

-- The same of `left` groups from `desc` on.
abbrev pub reports : (ℕ → ℤ) → (ℕ → List (List ℕ)) → (left desc : ℕ) → List Line
reports file_of texts zero desc = []
reports file_of texts (suc left) desc =
    report desc (file_of desc) (texts desc) ++ reports file_of texts left (desc + 1)

module _ {S : Type 0} (lib : Library S) (cap : ℕ) (slots : IsSlots lib cap) where
  read_group-none :
      (desc : ℕ) (fd : ℤ) (left j : ℕ) (s : S)
      → (lib.retrieve_message fd message_size s).0.0 ≡ pos 0
      → read_group lib desc fd (suc left) j s
        ≡ stage true (no_more ∷ []) (lib.retrieve_message fd message_size s).1
  unfolding read_group
  read_group-none desc fd left j s e = rw (e, read_group)

  read_group-suc :
      (desc : ℕ) (fd : ℤ) (left j k : ℕ) (s : S)
      → (lib.retrieve_message fd message_size s).0.0 ≡ pos (suc k)
      → read_group lib desc fd (suc left) j s
        ≡ before
            (bytes_read (pos (suc k)) (lib.retrieve_message fd message_size s).0.1 ∷ [])
            (read_group lib desc fd left (j + 1) (lib.retrieve_message fd message_size s).1)
  unfolding read_group
  read_group-suc desc fd left j k s e = rw (e, read_group)

  -- All messages of a group have been read.
  record Emptied (desc : ℕ) (ms : List (List ℕ)) (s : S) (r : Stage S) : Type 0 where
    well : r.well ≡ true
    lines : r.lines ≡ map got ms ++ no_more ∷ []
    valid : slots.Valid r.world
    empties : slots.view desc r.world ≡ holding []
    outside : Outside slots.view (desc ∷ []) s r.world

  read_group-Emptied :
      (desc : ℕ) (ms : List (List ℕ)) (left j : ℕ) (s : S)
      → slots.Valid s
      → slots.view desc s ≡ holding ms
      → AllFull ms
      → length ms < left
      → Emptied desc ms s (read_group lib desc (slots.file_of desc) left j s)
  read_group-Emptied desc ms zero j s v e f h = absurd (omega arith)
  read_group-Emptied desc [] (suc left) j s v e f h =
      let (v', ret, q, same) =
        slots.finds_none desc message_size s v (ap (λ (w : Mailbox). w.available) e) in
      rw (read_group-none desc (slots.file_of desc) left j s ret)
        (record { well = refl; lines = refl; valid = v'; empties = q ∙ e; outside = same })
  read_group-Emptied desc (m ∷ ms) (suc left) j s v e f h =
      let fd = slots.file_of desc in
      let (v', ret, q, same) =
        slots.retrieves desc message_size s m ms v (ap (λ (w : Mailbox). w.available) e) in
      let t = (lib.retrieve_message fd message_size s).1 in
      let (k, positive, line) = got_line (lib.retrieve_message fd message_size s).0 m f.0 ret in
      let r =
        read_group-Emptied desc ms left (j + 1) t v'
          (q ∙ ap (λ (w : Mailbox). record w { available = ms }) e) f.1 (omega arith) in
      rw (read_group-suc desc fd left j k s positive) (record {
        well = r.well;
        lines =
            ap (λ (l : Line). l ∷ (read_group lib desc fd left (j + 1) t).lines) line
            ∙ ap (λ (l : List Line). got m ∷ l) r.lines;
        valid = r.valid;
        empties = r.empties;
        outside = λ i o. r.outside i o ∙ same i o;
      })

  module _ (texts : ℕ → List (List ℕ)) (full : (i : ℕ) → AllFull (texts i)) where
    -- All messages of these groups have been read, and no group before them has changed.
    pub record AllEmptied (left desc : ℕ) (s : S) (r : Stage S) : Type 0 where
      pub well : r.well ≡ true
      pub lines : r.lines ≡ reports slots.file_of texts left desc
      pub valid : slots.Valid r.world
      pub empties : (i : ℕ) → desc ≤ i → i < desc + left → slots.view i r.world ≡ holding []
      pub earlier : (i : ℕ) → i < desc → slots.view i r.world ≡ slots.view i s

    read_groups-suc :
        (left desc : ℕ) (fd : ℤ) (s : S)
        → (lib.open_group desc s).0 ≡ fd
        → is_negative fd ≡ false
        → read_groups lib (suc left) desc s
          ≡ before
              (opened desc fd
                ∷ ((read_group lib desc fd children 0 (lib.open_group desc s).1).lines
                    ++ closed desc fd ∷ []))
              (read_groups lib left (desc + 1) (
                lib.close_group fd
                  (read_group lib desc fd children 0 (lib.open_group desc s).1).world))
    unfolding read_groups
    read_groups-suc left desc fd s e f =
        let ok : is_negative (lib.open_group desc s).0 ≡ false = ap is_negative e ∙ f in
        rw (ok, read_groups)
          (ap
            (λ (x : ℤ).
              before
                (opened desc x
                  ∷ ((read_group lib desc x children 0 (lib.open_group desc s).1).lines
                      ++ closed desc x ∷ []))
                (read_groups lib left (desc + 1) (
                  lib.close_group x
                    (read_group lib desc x children 0 (lib.open_group desc s).1).world)))
            e)

    pub read_groups-AllEmptied :
        (left desc : ℕ) (s : S)
        → slots.Valid s
        → ((i : ℕ) → desc ≤ i → i < desc + left → slots.view i s ≡ holding (texts i))
        → ((i : ℕ) → desc ≤ i → i < desc + left → length (texts i) < children)
        → AllEmptied left desc s (read_groups lib left desc s)
    unfolding read_groups
    read_groups-AllEmptied zero desc s v h few = record {
      well = refl;
      lines = refl;
      valid = v;
      empties = λ i a b. absurd (omega arith);
      earlier = λ i a. refl;
    }
    read_groups-AllEmptied (suc left) desc s v h few =
        let fd = slots.file_of desc in
        let (v1, file, same) = slots.starts desc s v in
        let t = (lib.open_group desc s).1 in
        let r =
          read_group-Emptied desc (texts desc) children 0 t v1
            (same desc refl ∙ h desc (omega arith) (omega arith)) (full desc)
            (few desc (omega arith) (omega arith)) in
        let u = (read_group lib desc fd children 0 t).world in
        let (v2, same2) = slots.ends desc u r.valid in
        let w = lib.close_group fd u in
        let elsewhere : (i : ℕ) → (desc == i) ≡ false → slots.view i w ≡ slots.view i s =
          λ i n. same2 i refl ∙ r.outside i (ground arith) ∙ same i refl in
        let rest =
          read_groups-AllEmptied left (desc + 1) w v2
            (λ i a b. elsewhere i (ground arith) ∙ h i (omega arith) (omega arith))
            λ i a b. few i (omega arith) (omega arith) in
        rw (read_groups-suc left desc fd s file (slots.file_open desc)) (record {
          well = rest.well;
          lines =
              ap
                (λ (l : List Line). in_group desc fd l ++ (read_groups lib left (desc + 1) w).lines)
                r.lines
              ∙ ap (λ (l : List Line). report desc fd (texts desc) ++ l) rest.lines;
          valid = rest.valid;
          empties = λ i a b. elim (Bool-cases (desc == i)) [
            | inl e ↦
                let here : desc ≡ i = ground arith in
                ap (λ k. slots.view k (read_groups lib left (desc + 1) w).world) (sym here)
                ∙ rest.earlier desc (omega arith)
                ∙ same2 desc refl
                ∙ r.empties
            | inr e ↦ rest.empties i (ground arith) (omega arith)
          ];
          earlier = λ i a. rest.earlier i (omega arith) ∙ elsewhere i (ground arith);
        })
