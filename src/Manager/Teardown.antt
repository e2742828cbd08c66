-- ===== src/Manager/Teardown.antt =====
-- Freeing one group and all groups.
use mathlib.Core.List.{map-append, reverse-reverse, reverse-cons}
use aosv_project.Prelude.{
  list_del-reverse, has, has-reverse, Distinct, reverse-Distinct, ℕ, ◌-◌, ◌*◌, ◌%◌, ◌≡◌, ◌≢◌, refl,
  ap, sym, ◌∙◌, Bool, true, false, List, [], ◌∷◌, ◌++◌, reverse, Bool-cases, inl, inr, arith,
  length, length-append, length-reverse, list_del, if◌then◌else◌, ◌==◌, pos,
}
use aosv_project.Kernel.{Run, done, oops, ◌>>=◌, Ends}
use aosv_project.Device.{GroupDev, Message, IsIdle, all_set}
use aosv_project.Device.Flags.{is_barrier_up, clear_barrier, clear_barrier_lem, check_barrier_lem}
use aosv_project.Device.Flush.{revoked, fflush_workqueue-done}
use aosv_project.Device.Blocks.{blocks}
use aosv_project.Manager.{Manager, Part, good, GroupDevices}
use aosv_project.Manager.Free.{
  decrement, sweep_up, Remains, free_messages, free_lists, group_free, Sweep, free_groups,
  group_free_all,
}
use aosv_project.Manager.Cleanup.{device_parts}
use aosv_project.Manager.Catalogue.{minors, IsCatalogue}

free_messages_lem : (ms : List Message) (live : ℕ) → free_messages ms live ≡ live - 2 * length ms
unfolding free_messages
free_messages_lem [] live = omega arith
free_messages_lem (m ∷ ms) live = omega (arith, free_messages_lem ms (live - 1 - 1))

clear_barrier-IsIdle : (d : GroupDev) → IsIdle d → IsIdle (clear_barrier d)
unfolding clear_barrier
clear_barrier-IsIdle d v = ground (arith, clear_barrier_lem d.flags v.flags_byte)

-- Nothing is left, and the threads of the barrier are awake.
abbrev pub nothing_left : List ℕ → GroupDev → Remains
nothing_left queue d = record {
  live = 0;
  held = [];
  woken = if d.flags % 2 == 0 then [] else queue;
}

free_lists-done :
    (d : GroupDev) (woken : List ℕ) (wq : Bool)
    → d.pending_list ≡ []
    → d.has ≡ all_set wq
    → d.live ≡ 2 * length d.message_list
    → free_lists d (device_parts false) woken ≡ done (record { live = 0; held = []; woken = woken })
unfolding free_lists
free_lists-done d woken wq p h l =
    ground (arith, free_messages_lem (reverse d.message_list) d.live, length-reverse d.message_list)

free_revoked :
    (d : GroupDev) (woken : List ℕ)
    → IsIdle d
    → d.live ≡ blocks d
    → d.has.delay_wq ≡ true
    → free_lists (revoked d) (device_parts false) woken
      ≡ done (record { live = 0; held = []; woken = woken })
free_revoked d woken v l wq =
    free_lists-done (revoked d) woken true refl (ground arith)
      (omega (arith, length-append d.message_list d.pending_list))

module _ (queue : List ℕ) (d : GroupDev) (v : IsIdle d) (l : d.live ≡ blocks d) where
  -- An idle device with a workqueue, which accounts for its blocks, is freed with all its messages, works
  -- and parts; if its barrier is up, whoever is in its wait queue is woken, and otherwise
  -- nobody is.
  pub group_free-done :
      d.has.delay_wq ≡ true → group_free queue (device_parts true) d ≡ done (nothing_left queue d)
  unfolding group_free is_barrier_up clear_barrier
  group_free-done wq = elim (Bool-cases (d.flags % 2 == 0)) [
    | inl down ↦ ground (
      arith,
      check_barrier_lem d.flags v.flags_byte,
      fflush_workqueue-done d v,
      free_revoked d [] v l wq,
    )
    | inr up ↦ ground (
      arith,
      check_barrier_lem d.flags v.flags_byte,
      fflush_workqueue-done (clear_barrier d) (clear_barrier-IsIdle d v),
      free_revoked (clear_barrier d) queue (clear_barrier-IsIdle d v) l wq,
    )
  ]

  -- On an idle device that accounts for its blocks, but has no workqueue, a delayed message makes
  -- `group_free` take the list's head for a message.
  pub group_free-oops :
      d.has.delay_wq ≡ false → d.pending_list ≢ [] → group_free queue (device_parts false) d ≡ oops
  unfolding group_free free_lists is_barrier_up clear_barrier
  group_free-oops wq p = ground (arith, check_barrier_lem d.flags v.flags_byte)

-- Every device of the list is idle, has a workqueue, and accounts for its blocks.
abbrev pub AllAccounted : List GroupDev → Type 0
AllAccounted [] = Unit {0}
AllAccounted (d ∷ ds) = (IsIdle d × (d.has.delay_wq ≡ true) × (d.live ≡ blocks d)) × AllAccounted ds

-- Each device of the list has all its blocks.
abbrev pub AllHeld : (ℕ → List Part) → List ℕ → Type 0
AllHeld parts l = (i : ℕ) → has i l ≡ true → parts i ≡ device_parts true

-- No device leaves a block.
abbrev pub NoneLeft : List Remains → Type 0
NoneLeft [] = Unit {0}
NoneLeft (r ∷ rs) = (r.live ≡ 0) × (r.held ≡ []) × NoneLeft rs

AllAccounted-snoc :
    (ds : List GroupDev) (d : GroupDev)
    → AllAccounted ds
    → IsIdle d × (d.has.delay_wq ≡ true) × (d.live ≡ blocks d)
    → AllAccounted (ds ++ d ∷ [])
AllAccounted-snoc [] d a h = (h, tt)
AllAccounted-snoc (x ∷ ds) d a h = (a.0, AllAccounted-snoc ds d a.1 h)

AllAccounted-reverse : (ds : List GroupDev) → AllAccounted ds → AllAccounted (reverse ds)
AllAccounted-reverse [] a = tt
AllAccounted-reverse (d ∷ ds) a =
    rw (reverse-cons d ds) (AllAccounted-snoc (reverse ds) d (AllAccounted-reverse ds a.1) a.0)

free_groups-done :
    (waiting : ℕ → List ℕ) (parts : ℕ → List Part) (ds : List GroupDev) (s : Sweep)
    → AllAccounted ds
    → AllHeld parts (minors ds)
    → s.to_free ≡ pos (length ds)
    → s.nodes ≡ reverse (minors ds)
    → Distinct (minors ds)
    → NoneLeft s.remains
    → Ends
        (λ r. (r.to_free ≡ pos 0) × (r.nodes ≡ []) × NoneLeft r.remains)
        (free_groups waiting parts ds s)
unfolding free_groups
free_groups-done waiting parts [] s a held e f u r = (e, f, r)
free_groups-done waiting parts (d ∷ ds) s a held e f u r =
    rw (held d.minor (ground arith), group_free-done (waiting d.minor) d a.0.0 a.0.2 a.0.1)
      (free_groups-done waiting parts ds
        (record {
          nodes = list_del d.minor s.nodes;
          to_free = decrement s.to_free;
          remains = nothing_left (waiting d.minor) d ∷ s.remains;
        })
        a.1 (λ i h. held i (ground arith)) (rw e)
        (list_del-reverse d.minor (minors ds) s.nodes u.0 f) u.1 (refl, refl, r))

minors-reverse : (ds : List GroupDev) → minors (reverse ds) ≡ reverse (minors ds)
minors-reverse [] = refl
minors-reverse (d ∷ ds) =
    ap minors (reverse-cons d ds)
    ∙ map-append _ _ _
    ∙ ap (λ (l : List ℕ). l ++ d.minor ∷ []) (minors-reverse ds)
    ∙ sym (reverse-cons d.minor (minors ds))

after_sweep :
    (m : Manager) (r : Run Sweep)
    → Ends (λ r. (r.to_free ≡ pos 0) × (r.nodes ≡ []) × NoneLeft r.remains) r
    → Ends
        (λ r. (r.survived ≡ pos 0) × (r.manager.nodes ≡ []) × NoneLeft r.remains)
        (r >>= λ s. done (sweep_up m s))
after_sweep m (done s) h = h
after_sweep m oops h = h

-- The removal of the module frees every group: if the nodes are those of the list, and each device is
-- idle, has a workqueue, all its parts, and accounts for its blocks, then all nodes go, no device leaves a block, and
-- the log counts no survivor.
pub group_free_all-done :
    (waiting : ℕ → List ℕ) (m : Manager) (gs : GroupDevices)
    → m.group_devs ≡ good gs
    → IsCatalogue gs
    → m.nodes ≡ minors gs.group_devs_list
    → AllAccounted gs.group_devs_list
    → AllHeld m.parts (minors gs.group_devs_list)
    → Ends
        (λ r. (r.survived ≡ pos 0) × (r.manager.nodes ≡ []) × NoneLeft r.remains)
        (group_free_all waiting m)
unfolding group_free_all
group_free_all-done waiting m gs e v n a held = rw e (after_sweep m _ swept)
  where
    l : List GroupDev
    l = gs.group_devs_list

    swept :
        Ends
          (λ r. (r.to_free ≡ pos 0) × (r.nodes ≡ []) × NoneLeft r.remains)
          (free_groups waiting m.parts
            (reverse l)
            (record { nodes = m.nodes; to_free = pos gs.used; remains = [] }))
    swept =
        free_groups-done waiting m.parts (reverse l) _ (AllAccounted-reverse l a)
          (λ i h. held i (sym (has-reverse i (minors l)) ∙ ap (has i) (sym (minors-reverse l)) ∙ h))
          (ap pos (v.counted ∙ sym (length-reverse l)))
          (n ∙ ap minors (sym (reverse-reverse l)) ∙ minors-reverse (reverse l))
          (rw (minors-reverse l) (reverse-Distinct (minors l) v.distinct)) tt
