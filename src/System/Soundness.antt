-- ===== src/System/Soundness.antt =====
-- What holds of the groups throughout the life of the module, and that every call keeps it.
use aosv_project.Prelude.{
  ℕ, ◌<◌, ◌^◌, ◌≡◌, refl, sym, ◌∙◌, ap, true, false, List, [], ◌∷◌, some, none, arith, Bool-cases,
  inl, inr, ◌==◌, leb, has, length, ◌+◌, ◌++◌, ◌&&◌, if◌then◌else◌,
}
use aosv_project.Kernel.{Ends-result, Ends-bind, done, ◌>>=◌, Ends, Services, IsLinux}
use aosv_project.Device.{GroupDev, IsIdle}
use aosv_project.Device.Write.{Params}
use aosv_project.Device.Calls.{Call, step}
use aosv_project.Device.Refinement.{IsProper, Implements}
use aosv_project.Device.Histories.{step-Implements}
use aosv_project.Device.Blocks.{blocks, leaks, step-blocks, step-keeps}
use aosv_project.Manager.{
  Manager, Part, delay_wq, Global, unset, dangling, good, GroupDevices, group_dev_count,
}
use aosv_project.Manager.Install.{Setup, new_device}
use aosv_project.Manager.Cleanup.{allocates}
use aosv_project.Manager.Registry.{install_group}
use aosv_project.Manager.Catalogue.{minors, IsCatalogue, length-minors}
use aosv_project.Manager.Installation.{install_group-cases, sets_up, with_groups, new_device-IsIdle}
use aosv_project.Manager.Teardown.{AllAccounted, AllHeld}
use aosv_project.Tsm.{install_group_command, max_message_size_command, other_command, tsm_dev_ioctl}
use aosv_project.System.{Action, on_tsm, on_group, on_device, on_groups, act, live_on}

-- Nothing but workqueues.
abbrev pub AllWorkqueues : List Part → Type 0
AllWorkqueues [] = Unit {0}
AllWorkqueues (delay_wq ∷ parts) = AllWorkqueues parts
AllWorkqueues (_ ∷ parts) = ⊥

-- One device for each number, a node for each device, and each device idle, with all its parts, a
-- workqueue among them, and accounting for its blocks; all other blocks that an installation left
-- are workqueues.
abbrev pub SoundWith : Manager → Global → Type 0
SoundWith m unset = (m.nodes ≡ []) × AllWorkqueues m.lost
SoundWith m dangling = ⊥
SoundWith m (good gs) =
    IsCatalogue gs
    × (m.nodes ≡ minors gs.group_devs_list)
    × AllAccounted gs.group_devs_list
    × AllHeld m.parts (minors gs.group_devs_list)
    × AllWorkqueues m.lost

abbrev pub IsSound : Manager → Type 0
IsSound m = SoundWith m m.group_devs

-- The call is proper for the device with the number, and no copy of a message to a user fails.
abbrev pub ProperCall : Services → Params → ℕ → Call → List GroupDev → Type 0
ProperCall k p minor c [] = Unit {0}
ProperCall k p minor c (d ∷ ds) =
    ((d.minor == minor) ≡ true → IsProper k p c d × (leaks c d ≡ 0)) × ProperCall k p minor c ds

abbrev pub ProperOn : Services → Params → ℕ → Call → Global → Type 0
ProperOn k p minor c (good gs) = ProperCall k p minor c gs.group_devs_list
ProperOn k p minor c _ = Unit {0}

-- An installation gets the memory for the list of groups, and for a workqueue.
abbrev pub ProperAction : Services → Params → Action → Manager → Type 0
ProperAction k p (on_tsm o c) m =
    (o.struct_block ≡ true) × (o.list_block ≡ true) × (o.setup.workqueue ≡ true)
ProperAction k p (on_group minor c) m = ProperOn k p minor c m.group_devs

abbrev pub AllProperActions : Services → Params → List Action → Manager → Type 0
AllProperActions k p [] m = Unit {0}
AllProperActions k p (a ∷ as') m =
    ProperAction k p a m × Ends (AllProperActions k p as') (act k p a m)

abbrev no_groups : GroupDevices
no_groups = record { used = 0; major = 0; group_devs_list = [] }

-- The manager before the first call.
abbrev pub fresh : Manager
fresh = record {
  group_devs = unset;
  group_dev_class = false;
  nodes = [];
  parts = λ i. [];
  lost = [];
}

module _ (k : Services) (p : Params) (linux : IsLinux k) (small : p.max_storage_size < 2 ^ 32) where
  step-Accounted :
      (c : Call) (d : GroupDev)
      → IsIdle d × (d.has.delay_wq ≡ true) × (d.live ≡ blocks d)
      → IsProper k p c d
      → leaks c d ≡ 0
      → Ends
          (λ r.
            (r.0.minor ≡ d.minor)
            × (IsIdle r.0 × (r.0.has.delay_wq ≡ true) × (r.0.live ≡ blocks r.0)))
          (step k p c d)
  step-Accounted c d a h z =
      let one : Implements k p c d (step k p c d) = step-Implements k p linux small c d a.0 h in
      let b : one.dev.live ≡ blocks one.dev + (0 + leaks c d) =
        rw one.ends at (step-blocks k p linux small c d a.0 h 0 (ground arith)) in
      let s : (one.dev.minor ≡ d.minor) × (one.dev.has ≡ d.has) =
        rw one.ends at (step-keeps k p linux small c d a.0 h) in
      rw one.ends (s.0, (one.idle, ground arith, omega arith))

  on_device-Accounted :
      (minor : ℕ) (c : Call) (ds : List GroupDev)
      → AllAccounted ds
      → ProperCall k p minor c ds
      → Ends (λ es. AllAccounted es × (minors es ≡ minors ds)) (on_device k p minor c ds)
  unfolding on_device
  on_device-Accounted minor c [] a h = (tt, refl)
  on_device-Accounted minor c (d ∷ ds) a h = elim (Bool-cases (d.minor == minor)) [
    | inl e ↦ rw e (
        Ends-bind _ _ (step k p c d) _ (step-Accounted c d a.0 (h.0 e).0 (h.0 e).1)
          λ r s. ((s.1, a.1), ap (λ n. n ∷ minors ds) s.0))
    | inr e ↦ rw e (
        Ends-bind _ _ (on_device k p minor c ds) _ (on_device-Accounted minor c ds a.1 h.1)
          λ es s. ((a.0, s.0), ap (λ ns. d.minor ∷ ns) s.1))
  ]

  on_groups-IsSound :
      (minor : ℕ) (c : Call) (m : Manager) (g : Global)
      → SoundWith m g
      → ProperOn k p minor c g
      → m.group_devs ≡ g
      → Ends IsSound (on_groups k p minor c m g)
  unfolding on_groups
  on_groups-IsSound minor c m unset v h e = rw e v
  on_groups-IsSound minor c m dangling v h e = absurd v
  on_groups-IsSound minor c m (good gs) v h e =
      (Ends-bind _ _ (on_device k p minor c gs.group_devs_list) _
        (on_device-Accounted minor c gs.group_devs_list v.2 h)
        λ es s. (
          record {
            counted = omega (
              arith,
              v.0.counted,
              ap (length {A = ℕ}) s.1,
              length-minors es,
              length-minors gs.group_devs_list,
            );
            distinct = rw s.1 v.0.distinct;
            below = rw s.1 v.0.below;
          },
          v.1 ∙ sym s.1,
          s.0,
          rw s.1 v.3,
          v.4,
        ))

  -- The first installation makes the list.
  install_first :
      (u : Setup) (desc : ℕ) (m : Manager)
      → m.group_devs ≡ unset
      → desc < group_dev_count
      → install_group true true u (some desc) m
        ≡ install_group true true u (some desc) (with_groups m no_groups)
  unfolding install_group
  install_first u desc m e h = ground arith

  left_over :
      (u : Setup) (lost : List Part)
      → AllWorkqueues lost
      → AllWorkqueues ((if allocates u && u.workqueue then delay_wq ∷ [] else []) ++ lost)
  left_over u lost w = elim (Bool-cases (allocates u && u.workqueue)) [
    | inl made ↦ rw made w
    | inr unmade ↦ rw unmade w
  ]

  unset_parts :
      (m : Manager) → m.group_devs ≡ unset → IsSound m → (m.nodes ≡ []) × AllWorkqueues m.lost
  unset_parts m e v = rw e at v

  install_group-IsSound :
      (u : Setup) (desc : ℕ) (m : Manager) (gs : GroupDevices)
      → m.group_devs ≡ good gs
      → u.workqueue ≡ true
      → IsSound m
      → Ends (λ r. IsSound r.0) (install_group true true u (some desc) m)
  unfolding new_device
  install_group-IsSound u desc m gs e w v =
      let s : SoundWith m (good gs) = rw e at v in
      rw (install_group-cases true true u m gs e s.0 desc)
        (elim (Bool-cases (leb group_dev_count desc)) [
          | inl out ↦ rw out v
          | inr within ↦ rw within (elim (Bool-cases (has desc (minors gs.group_devs_list))) [
            | inl old ↦ rw old v
            | inr new ↦ rw new (elim (Bool-cases (sets_up u gs.major)) [
              | inl ok ↦ rw ok (
                record {
                  counted = ground arith;
                  distinct = (new, s.0.distinct);
                  below = (ground arith, s.0.below);
                },
                ap (λ ns. desc ∷ ns) s.1,
                (((new_device-IsIdle desc u.workqueue).0, w, refl), s.2),
                λ i h. ground (arith, s.3 i),
                s.4,
              )
              | inr bad ↦ rw bad (
                record { counted = s.0.counted; distinct = s.0.distinct; below = s.0.below },
                s.1,
                s.2,
                s.3,
                left_over u m.lost s.4,
              )
            ])
          ])
        ])

  -- On either state that the list of groups can be in.
  install_any-IsSound :
      (u : Setup) (desc : ℕ) (m : Manager) (g : Global)
      → m.group_devs ≡ g
      → u.workqueue ≡ true
      → IsSound m
      → Ends (λ r. IsSound r.0) (install_group true true u (some desc) m)
  unfolding install_group
  install_any-IsSound u desc m (good gs) e w v = install_group-IsSound u desc m gs e w v
  install_any-IsSound u desc m dangling e w v = absurd (rw e at v)
  install_any-IsSound u desc m unset e w v = elim (Bool-cases (leb group_dev_count desc)) [
    | inl out ↦ rw out v
    | inr within ↦ rw (install_first u desc m e (ground arith)) (
        install_group-IsSound u desc (with_groups m no_groups) no_groups refl w (
          record { counted = refl; distinct = tt; below = tt },
          (unset_parts m e v).0,
          tt,
          λ i h. ground arith,
          (unset_parts m e v).1,
        ))
  ]

  act-IsSound :
      (a : Action) (m : Manager) → IsSound m → ProperAction k p a m → Ends IsSound (act k p a m)
  unfolding act tsm_dev_ioctl
  act-IsSound (on_group minor c) m v h = on_groups-IsSound minor c m m.group_devs v h refl
  act-IsSound (on_tsm o (install_group_command desc)) m v h = elim (Bool-cases (o.uncopied == 0)) [
    | inl ok ↦
        rw (ok, h.0, h.1)
          (Ends-bind (λ q. IsSound q.manager) _
            (install_group true true o.setup (some desc) m >>= λ r.
              done (record { manager = r.0; ret = r.1; copied = none }))
            _
            (Ends-bind _ _ (install_group true true o.setup (some desc) m) _
              (install_any-IsSound o.setup desc m m.group_devs refl h.2 v) λ r s. s)
            λ r s. s)
    | inr bad ↦ rw bad v
  ]
  act-IsSound (on_tsm o max_message_size_command) m v h = elim (Bool-cases (o.uncopied == 0)) [
    | inl ok ↦ rw ok v
    | inr bad ↦ rw bad v
  ]
  act-IsSound (on_tsm o other_command) m v h = v

  -- The groups are sound throughout (services and `max_storage_size` as documented): if there is one
  -- device for each number and one node for each device, and each device is idle, has all its parts, a
  -- workqueue among them, and accounts for its blocks, and all other blocks that installations left are
  -- workqueues, or there is no list of groups yet, then any history of calls on the
  -- control device and of proper calls and timers on the groups, in which the list of groups and each
  -- workqueue could be made and no copy of a message to a user failed, ends in such a state.
  pub live_on-IsSound :
      (as' : List Action) (m : Manager)
      → IsSound m
      → AllProperActions k p as' m
      → Ends IsSound (live_on k p as' m)
  unfolding live_on
  live_on-IsSound [] m v h = v
  live_on-IsSound (a ∷ as') m v h =
      let (m', e, s) = Ends-result IsSound (act k p a m) (act-IsSound a m v h.0) in
      rw e (live_on-IsSound as' m' s (rw e at h.1))
