-- ===== src/Programs/Groups.antt =====
-- lib/mp_multigroup.c: children that each open a group of their own, write to it and close it, and a
-- program that waits for them and then opens and reads the groups one after the other.
--
-- A call of the library is one turn; a schedule names the child whose turn it is, and the program then
-- waits for the children, which take the turns that they have left, at most as many as their number and
-- two (Groups/Writers). Where a child cannot be created the program ends, and those that were go on.
pub mod Laws
pub mod Writers
pub mod Waiting
pub mod Reports
pub mod Devices
pub mod Logs
use aosv_project.Prelude.{
  ℕ, zero, suc, ◌+◌, true, false, List, [], ◌∷◌, ◌++◌, ℤ, pos, negsuc, is_negative, leb,
  if◌then◌else◌,
}
use aosv_project.Prelude.Bytes.{take}
use aosv_project.Programs.{
  Library, Line, opened, closed, open_error, child_error, written, write_error, read_error,
  bytes_read, no_more, Stage, stage, before, message_size,
}
use aosv_project.Programs.Workers.{here_text, children}

-- Where a child is in its `child_fun`.
pub data Place : Type 0 where
  opens : Place
  sends : (fd : ℤ) (left i : ℕ) → Place
  closes : (fd : ℤ) → Place
  gone : Place

-- A child with its number, which is also its group, and the number that `gettid` gives it.
pub record Writer : Type 0 where
  pub desc : ℕ
  pub tid : ℕ
  pub place : Place

-- A child after a turn, and what the turn logs and does.
pub record Moved (S : Type 0) : Type 0 where
  pub place : Place
  pub lines : List Line
  pub world : S

abbrev pub moved : {S : Type 0} → Place → List Line → S → Moved S
moved p ls s = record { place = p; lines = ls; world = s }

module _ {S : Type 0} (lib : Library S) where
  unfoldable pub open_own : (desc : ℕ) → S → Moved S
  open_own desc s =
      let r = lib.open_group desc s in
      if is_negative r.0
      then moved gone (open_error ∷ []) r.1
      else moved (sends r.0 desc 0) (opened desc r.0 ∷ []) r.1

  unfoldable pub send_here : (tid : ℕ) (fd : ℤ) (left i : ℕ) → S → Moved S
  send_here tid fd left i s =
      let r = lib.send_message fd (here_text tid) s in
      if is_negative r.0
      then moved (closes fd) (write_error i ∷ []) r.1
      else moved (sends fd left (i + 1)) (written (here_text tid) ∷ []) r.1

  unfoldable pub writer_turn : (desc tid : ℕ) → Place → S → Moved S
  unfolding open_own send_here
  writer_turn desc tid opens s = open_own desc s
  writer_turn desc tid (sends fd zero i) s = moved gone [] (lib.close_group fd s)
  writer_turn desc tid (sends fd (suc left) i) s = send_here tid fd left i s
  writer_turn desc tid (closes fd) s = moved gone [] (lib.close_group fd s)
  writer_turn desc tid gone s = moved gone [] s

  unfoldable pub turn_in : ℕ → List Writer → S → List Writer × Stage S
  unfolding writer_turn
  turn_in i [] s = ([], stage true [] s)
  turn_in zero (w ∷ ws) s =
      let r = writer_turn w.desc w.tid w.place s in
      (record w { place = r.place } ∷ ws, stage true r.lines r.world)
  turn_in (suc i) (w ∷ ws) s = let r = turn_in i ws s in (w ∷ r.0, r.1)

  -- So many turns of a child on its own.
  unfoldable pub run_out : (turns desc tid : ℕ) → Place → S → Stage S
  unfolding writer_turn
  run_out zero desc tid p s = stage true [] s
  run_out (suc turns) desc tid p s =
      let r = writer_turn desc tid p s in before r.lines (run_out turns desc tid r.place r.world)

  unfoldable pub wait_for : List Writer → S → Stage S
  unfolding run_out
  wait_for [] s = stage true [] s
  wait_for (w ∷ ws) s =
      let r = run_out (w.desc + 2) w.desc w.tid w.place s in before r.lines (wait_for ws r.world)

  unfoldable pub write_groups : (schedule : List ℕ) → List Writer → S → Stage S
  unfolding turn_in wait_for
  write_groups [] ws s = wait_for ws s
  write_groups (i ∷ schedule) ws s =
      let r = turn_in i ws s in before r.1.lines (write_groups schedule r.0 r.1.world)

  -- The loop that reads at most `left` messages of a group; at an error it closes the group and goes on.
  unfoldable pub read_group : (desc : ℕ) (fd : ℤ) (left j : ℕ) → S → Stage S
  read_group desc fd zero j s = stage true [] s
  read_group desc fd (suc left) j s =
      let r = lib.retrieve_message fd message_size s in
      elim r.0.0 [
        | negsuc n ↦
            before (read_error j ∷ closed desc fd ∷ [])
              (read_group desc fd left (j + 1) (lib.close_group fd r.1))
        | pos zero ↦ stage true (no_more ∷ []) r.1
        | pos (suc n) ↦
            before (bytes_read (pos (suc n)) r.0.1 ∷ []) (read_group desc fd left (j + 1) r.1)
      ]

  -- The `left` groups from `desc` on, up to one that cannot be opened.
  unfoldable pub read_groups : (left desc : ℕ) → S → Stage S
  unfolding read_group
  read_groups zero desc s = stage true [] s
  read_groups (suc left) desc s =
      let r = lib.open_group desc s in
      elim (is_negative r.0) [
        | true ↦ stage false (open_error ∷ []) r.1
        | false ↦
            let b = read_group desc r.0 children 0 r.1 in
            before (opened desc r.0 ∷ (b.lines ++ closed desc r.0 ∷ []))
              (read_groups left (desc + 1) (lib.close_group r.0 b.world))
      ]

-- The child with the number `i` has the group `i`.
abbrev pub writer : (tids : ℕ → ℕ) (i : ℕ) → Writer
writer tids i = record { desc = i; tid = tids i; place = opens }

abbrev pub writers : (tids : ℕ → ℕ) → List Writer
writers tids = writer tids 0 ∷ writer tids 1 ∷ writer tids 2 ∷ []

unfoldable pub mp_multigroup :
    {S : Type 0} → Library S → (created : ℕ) (schedule : List ℕ) (tids : ℕ → ℕ) → S → Stage S
unfolding write_groups read_groups
mp_multigroup lib created schedule tids s =
    let r = write_groups lib schedule (take created (writers tids)) s in
    if leb children created
    then before r.lines (read_groups lib children 0 r.world)
    else stage false (child_error ∷ r.lines) r.world
