-- ===== src/Device/Threads/Alone.antt =====
-- A thread that takes all its turns with no other in between does what the whole call of
-- Device/Read, Device/Write, Device/Works and Device/Messages does.
use mathlib.Core.List.{map-append}
use aosv_project.Prelude.{
  ℕ, zero, suc, ◌+◌, ◌-◌, ◌%◌, ◌^◌, ◌<◌, ◌≡◌, ap, ◌∙◌, Bool, true, false, List, [], ◌∷◌, ◌++◌, map,
  arith, length, ◌==◌, if◌then◌else◌, Bool-cases, inl, inr, has, unsnoc-cases, unsnoc, some, none,
  length-append, leb, unsnoc-snoc,
}
use aosv_project.Kernel.{Services, Outcomes, Ends}
use aosv_project.Device.{GroupDev, Message, IsIdle, opened}
use aosv_project.Device.Read.{group_read}
use aosv_project.Device.Write.{Params, group_write}
use aosv_project.Device.Works.{publish_oldest}
use aosv_project.Device.Messages.{flush_pending}
use aosv_project.Device.Posting.{
  clipped, message_of, group_write-cases, group_read-empty, group_read-done, group_read-lost,
}
use aosv_project.Device.Threads.{
  Shared, Pc, away, write_enter, read_enter, work_enter, flush_enter, Turn, blocked, faults, goes,
  turn, write_turn, read_turn, work_turn, flush_turn,
}

-- At most so many turns.
abbrev pub solo : ℕ → (cap : ℕ) → Bool → Pc → Shared → Turn
solo zero cap copied p s = goes s p
solo (suc n) cap copied p s = elim (turn cap copied p s) [
  | goes t q ↦ solo n cap copied q t
  | blocked ↦ goes s p
  | faults ↦ faults
]

-- The device, if `memory` is what lies at each message's address.
pub record Represents (memory : ℕ → Message) (d : GroupDev) (s : Shared) : Type 0 where
  pub messages_number : d.messages_number ≡ s.messages_number
  pub message_sem : d.message_sem ≡ s.message_sem
  pub message_list : d.message_list ≡ map memory s.message_list
  pub delay : d.delay ≡ s.delay
  pub pending_sem : d.pending_sem ≡ s.pending_sem
  pub pending_list : d.pending_list ≡ map memory s.pending_list

-- The turns end with the thread away, on a device that the call's device describes.
abbrev pub EndsAs : (ℕ → Message) → GroupDev → Turn → Type 0
EndsAs memory d (goes t away) = Represents memory d t
EndsAs memory d _ = ⊥

module _ (cap : ℕ) (copied : Bool) (s : Shared) where
  -- The state after a read that took a message.
  abbrev read_state : ℕ → List ℕ → Shared
  read_state m rest = record s {
    message_sem = s.message_sem - 1 + 1;
    message_list = rest;
    messages_number = (s.messages_number + 2 ^ 32 - 1) % 2 ^ 32;
    freed = if copied then m ∷ s.freed else s.freed;
  }

  solo_read-empty :
      s.message_sem ≡ 1
      → unsnoc s.message_list ≡ none
      → solo 3 cap copied read_enter s
        ≡ goes (record s { message_sem = s.message_sem - 1 + 1 }) away
  unfolding turn read_turn
  solo_read-empty e u = ground arith

  solo_read-some :
      (m : ℕ) (rest : List ℕ)
      → s.message_sem ≡ 1
      → unsnoc s.message_list ≡ some (m, rest)
      → solo 3 cap copied read_enter s ≡ goes (read_state m rest) away
  unfolding turn read_turn
  solo_read-some m rest e u = ground arith

  solo_work-empty :
      s.pending_sem ≡ 1
      → unsnoc s.pending_list ≡ none
      → solo 5 cap copied work_enter s
        ≡ goes (record s { pending_sem = s.pending_sem - 1 + 1 }) away
  unfolding turn work_turn
  solo_work-empty e u = ground arith

  solo_work-some :
      (m : ℕ) (rest : List ℕ)
      → s.pending_sem ≡ 1
      → s.message_sem ≡ 1
      → unsnoc s.pending_list ≡ some (m, rest)
      → has m s.freed ≡ false
      → solo 5 cap copied work_enter s
        ≡ goes
            (record s {
              pending_sem = s.pending_sem - 1 + 1;
              pending_list = rest;
              message_sem = s.message_sem - 1 + 1;
              message_list = m ∷ s.message_list;
            })
            away
  unfolding turn work_turn
  solo_work-some m rest e f u h = ground arith

  solo_flush-done :
      s.pending_sem ≡ 1
      → s.message_sem ≡ 1
      → solo 3 cap copied flush_enter s
        ≡ goes
            (record s {
              pending_sem = s.pending_sem - 1 + 1;
              pending_list = [];
              message_sem = s.message_sem - 1 + 1;
              message_list = s.message_list ++ s.pending_list;
            })
            away
  unfolding turn flush_turn
  solo_flush-done e f = ground arith

  abbrev write_state : ℕ → Shared
  write_state m =
      if leb cap s.messages_number
      then record s { message_sem = s.message_sem - 1 + 1; freed = m ∷ s.freed }
      else (if copied
          then (let counted : Shared = record s {
            messages_number = (s.messages_number + 1) % 2 ^ 32;
            message_sem = s.message_sem - 1 + 1;
          } in
              if s.delay == 0
              then record counted { message_list = m ∷ s.message_list }
              else record counted {
                pending_sem = s.pending_sem - 1 + 1;
                pending_list = m ∷ s.pending_list;
              })
          else record s { message_sem = s.message_sem - 1 + 1; freed = m ∷ s.freed })

  solo_write-done :
      (m : ℕ)
      → s.pending_sem ≡ 1
      → s.message_sem ≡ 1
      → has m s.freed ≡ false
      → solo 6 cap copied (write_enter m) s ≡ goes (write_state m) away
  unfolding turn write_turn
  solo_write-done m e f h = ground arith

-- An entry of the list of messages stands for an entry of the list of addresses.
map-snoc :
    (memory : ℕ → Message) (xs : List ℕ) (x : ℕ) (ms : List Message)
    → ms ≡ map memory (xs ++ x ∷ [])
    → ms ≡ map memory xs ++ memory x ∷ []
map-snoc memory xs x ms e = e ∙ map-append _ _ _

module _ (memory : ℕ → Message) (d : GroupDev) (s : Shared) (v : IsIdle d)
    (r : Represents memory d s) where
  message_sem-one : s.message_sem ≡ 1
  message_sem-one = ground arith

  pending_sem-one : s.pending_sem ≡ 1
  pending_sem-one = ground arith

  -- `group_read`, whether a message is there or not and whether it can be copied or not.
  pub solo-read :
      (cap n : ℕ) (o : Outcomes)
      → Ends
          (λ e. EndsAs memory e.dev (solo 3 cap (o.uncopied == 0) read_enter s))
          (group_read o opened n d)
  solo-read cap n o = elim (unsnoc-cases s.message_list) [
    | inl (e, u) ↦
        rw
          (
            group_read-empty o n d v (ground (arith, ap (map memory) e)),
            solo_read-empty cap (o.uncopied == 0) s message_sem-one u,
          )
          (ground arith)
    | inr (m, rest, e, u) ↦ rw (solo_read-some cap (o.uncopied == 0) s m rest message_sem-one u) (
        let l : d.message_list ≡ map memory rest ++ memory m ∷ [] =
          map-snoc memory rest m d.message_list (r.message_list ∙ ap (map memory) e) in
        elim (Bool-cases (o.uncopied == 0)) [
          | inl c ↦ rw (group_read-done o n d v (map memory rest) (memory m) l (ground arith)) (
              ground (
                arith,
                ap (length {A = Message}) l,
                length-append (map memory rest) (memory m ∷ []),
              ))
          | inr c ↦ rw (group_read-lost o n d v (map memory rest) (memory m) l (ground arith)) (
              ground (
                arith,
                ap (length {A = Message}) l,
                length-append (map memory rest) (memory m ∷ []),
              ))
        ])
  ]

  -- `group_write` from its critical section on, if no allocation fails and the message fits its block.
  pub solo-write :
      (k : Services) (p : Params) (o : Outcomes) (buf : List ℕ) (n m : ℕ)
      → p.max_storage_size < 2 ^ 32
      → 0 < n
      → o.data_block ≡ true
      → o.msg_block ≡ true
      → clipped p n < k.ksize (clipped p n)
      → memory m ≡ message_of k buf (clipped p n)
      → has m s.freed ≡ false
      → Ends
          (λ e. EndsAs memory e.dev (solo 6 p.max_storage_size (o.uncopied == 0) (write_enter m) s))
          (group_write k p o opened buf n d)
  solo-write k p o buf n m small pos_n got_data got_msg fits at_m live =
      rw
        (
          solo_write-done p.max_storage_size (o.uncopied == 0) s m pending_sem-one message_sem-one
              live,
          group_write-cases k p o buf n d v small,
        )
        (ground (arith, at_m))

  -- `delayed_work_fun` up to the works' own list.
  solo-work :
      (cap : ℕ) (copied : Bool)
      → ((m : ℕ) (rest : List ℕ) → s.pending_list ≡ rest ++ m ∷ [] → has m s.freed ≡ false)
      → EndsAs memory (publish_oldest d) (solo 5 cap copied work_enter s)
  unfolding publish_oldest
  solo-work cap copied live = elim (unsnoc-cases s.pending_list) [
    | inl (e, u) ↦
        rw (solo_work-empty cap copied s pending_sem-one u)
          (ground (arith, r.pending_list ∙ ap (map memory) e))
    | inr (m, rest, e, u) ↦
        rw (solo_work-some cap copied s m rest pending_sem-one message_sem-one u (live m rest e)) (
          ground (
            arith,
            ap (unsnoc {A = Message})
                  (map-snoc memory rest m d.pending_list (r.pending_list ∙ ap (map memory) e))
                ∙ unsnoc-snoc (map memory rest) (memory m),
          ))
  ]

  -- `_fflush_workqueue`
  solo-flush :
      (cap : ℕ) (copied : Bool) → EndsAs memory (flush_pending d) (solo 3 cap copied flush_enter s)
  unfolding flush_pending
  solo-flush cap copied =
      rw (solo_flush-done cap copied s pending_sem-one message_sem-one)
        (ground (arith, map-append memory s.message_list s.pending_list))
