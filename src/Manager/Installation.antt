-- ===== src/Manager/Installation.antt =====
-- What `install_group` does to the list of installed groups, and where it fails.
use aosv_project.Prelude.{
  refl, ℕ, ◌+◌, ◌≤◌, ◌<◌, ◌≡◌, Bool, true, false, [], ◌∷◌, ◌++◌, some, arith, has, ◌==◌,
  if◌then◌else◌, pos, minus_one, is_negative, ◌&&◌, not, leb, ◌≢◌, Bool-cases, inl, inr,
}
use aosv_project.Kernel.{done, Ends, oops}
use aosv_project.Device.{available, delayed, GroupDev, IsIdle}
use aosv_project.Manager.{Manager, delay_wq, good, GroupDevices, group_dev_count, unset}
use aosv_project.Manager.Install.{Setup, new_device}
use aosv_project.Manager.Registry.{install_group}
use aosv_project.Manager.Cleanup.{allocates, registration, device_parts, install_device-cases}
use aosv_project.Manager.Catalogue.{
  has-AllBelow, minors, IsCatalogue, used_lt, get_group-none, get_group-some,
}

-- The manager with other group devices.
abbrev pub with_groups : Manager → GroupDevices → Manager
with_groups m gs = record m { group_devs = good gs }

-- The group devices after a new one is entered.
abbrev pub entered : GroupDev → ℕ → GroupDevices → GroupDevices
entered d major gs = record {
  used = gs.used + 1;
  major = major;
  group_devs_list = d ∷ gs.group_devs_list;
}

abbrev pub next_major : Setup → ℕ → ℕ
next_major u major = if major == 0 then u.region_major else major

-- The allocations succeed, and the value tested after the registration is not negative.
abbrev pub sets_up : Setup → ℕ → Bool
sets_up u major = allocates u && not (is_negative (registration u major))

-- The manager with a new device, which has its blocks.
abbrev pub with_device : Manager → Setup → (desc : ℕ) → GroupDevices → Manager
with_device m u desc gs = record m {
  group_devs = good (entered (new_device desc u.workqueue) (next_major u gs.major) gs);
  group_dev_class = true;
  nodes = desc ∷ m.nodes;
  parts = λ i. if i == desc then device_parts u.workqueue else m.parts i;
}

-- The manager after a failure: the blocks are freed, but a registration that fails leaves the workqueue.
abbrev pub without_device : Manager → Setup → GroupDevices → Manager
without_device m u gs = record m {
  group_devs = good (record gs { major = if allocates u then next_major u gs.major else gs.major });
  lost = (if allocates u && u.workqueue then delay_wq ∷ [] else []) ++ m.lost;
}

module _ (sb lb : Bool) (u : Setup) (m : Manager) (gs : GroupDevices) (e : m.group_devs ≡ good gs)
    (v : IsCatalogue gs) where
  install_out_of_range :
      (desc : ℕ)
      → group_dev_count ≤ desc
      → install_group sb lb u (some desc) m ≡ done (m, minus_one)
  unfolding install_group
  install_out_of_range desc h = ground arith

  module _ (desc : ℕ) (h : desc < group_dev_count) where
    -- A group that is there is found, and nothing changes: no second device for one descriptor.
    pub install_again :
        has desc (minors gs.group_devs_list) ≡ true
        → install_group sb lb u (some desc) m ≡ done (m, pos 0)
    unfolding install_group
    install_again old = let (d, f) = get_group-some desc gs old in ground (arith, f)

    -- A group that is not there is installed if the blocks can be allocated and the value tested
    -- after the registration is not negative; it never fails for want of room.
    pub install_new :
        has desc (minors gs.group_devs_list) ≡ false
        → sets_up u gs.major ≡ true
        → install_group sb lb u (some desc) m ≡ done (with_device m u desc gs, pos 0)
    unfolding install_group
    install_new new ok = ground (
      arith,
      get_group-none desc gs new,
      install_device-cases u desc gs.major,
      used_lt gs desc v h new,
    )

    pub install_fails :
        has desc (minors gs.group_devs_list) ≡ false
        → sets_up u gs.major ≡ false
        → install_group sb lb u (some desc) m ≡ done (without_device m u gs, minus_one)
    unfolding install_group
    install_fails new bad = ground (
      arith,
      get_group-none desc gs new,
      install_device-cases u desc gs.major,
      used_lt gs desc v h new,
    )

  -- `install_group` with a group's number, on a good list of groups, on every branch: a descriptor out of range is refused,
  -- a group that is there is found and nothing changes, a missing one is entered if it can be set
  -- up, with all its blocks, and otherwise only the major may change, and the workqueue is left behind
  -- where the registration fails after it was made. No branch fails for want of room.
  pub install_group-cases :
      (desc : ℕ)
      → install_group sb lb u (some desc) m
        ≡ done (
            if leb group_dev_count desc
            then (m, minus_one)
            else (if has desc (minors gs.group_devs_list)
                then (m, pos 0)
                else (if sets_up u gs.major
                    then (with_device m u desc gs, pos 0)
                    else (without_device m u gs, minus_one))))
  install_group-cases desc = elim (Bool-cases (leb group_dev_count desc)) [
    | inl out ↦ rw out (install_out_of_range desc (ground arith))
    | inr within ↦ rw within (elim (Bool-cases (has desc (minors gs.group_devs_list))) [
      | inl old ↦ rw old (install_again desc (ground arith) old)
      | inr new ↦ rw new (elim (Bool-cases (sets_up u gs.major)) [
        | inl ok ↦ rw ok (install_new desc (ground arith) new ok)
        | inr bad ↦ rw bad (install_fails desc (ground arith) new bad)
      ])
    ])
  ]

  -- On a good list of groups, `install_group` ends, the list stays one device for each number, 256 at
  -- most, and `install_group` returns 0 exactly if the group is on it at
  -- the end, -1 otherwise.
  pub install_group-IsCatalogue :
      (desc : ℕ)
      → Ends
          (λ r.
            (gs' : GroupDevices) × (r.0.group_devs ≡ good gs')
            × IsCatalogue gs'
            × (r.1 ≡ (if has desc (minors gs'.group_devs_list) then pos 0 else minus_one)))
          (install_group sb lb u (some desc) m)
  unfolding new_device
  install_group-IsCatalogue desc =
      rw (install_group-cases desc) (elim (Bool-cases (leb group_dev_count desc)) [
        | inl out ↦ rw out (
          gs,
          e,
          v,
          ground (arith, has-AllBelow group_dev_count desc (minors gs.group_devs_list) v.below),
        )
        | inr within ↦ rw within (elim (Bool-cases (has desc (minors gs.group_devs_list))) [
          | inl old ↦ rw old (gs, e, v, rw old)
          | inr new ↦ rw new (elim (Bool-cases (sets_up u gs.major)) [
            | inl ok ↦ rw ok (
              entered (new_device desc u.workqueue) (next_major u gs.major) gs,
              refl,
              record {
                counted = ground arith;
                distinct = (new, v.distinct);
                below = (ground arith, v.below);
              },
              ground arith,
            )
            | inr bad ↦ rw bad (
              record gs { major = if allocates u then next_major u gs.major else gs.major },
              refl,
              record { counted = v.counted; distinct = v.distinct; below = v.below },
              rw new,
            )
          ])
        ])
      ])

  -- On a good list of groups: from the second group on the code tests a variable that it has not set: if that happens to be
  -- negative, a missing group is refused though every allocation succeeds.
  pub install_stale :
      (desc : ℕ)
      → desc < group_dev_count
      → has desc (minors gs.group_devs_list) ≡ false
      → allocates u ≡ true
      → gs.major ≢ 0
      → is_negative u.stale_err ≡ true
      → install_group sb lb u (some desc) m ≡ done (without_device m u gs, minus_one)
  install_stale desc h new all later stale = install_fails desc h new (ground arith)

-- If one of the two allocations of `init_group_devs` fails, the first installation of a number below
-- 256 uses the null or freed structure.
pub install_unset :
    (sb lb : Bool) (u : Setup) (m : Manager) (desc : ℕ)
    → desc < group_dev_count
    → m.group_devs ≡ unset
    → sb && lb ≡ false
    → install_group sb lb u (some desc) m ≡ oops
unfolding install_group
install_unset sb lb u m desc h e f = ground arith

-- A new device is idle, empty and without delay, whether its workqueue could be made or not.
pub new_device-IsIdle :
    (minor : ℕ) (wq : Bool)
    → IsIdle (new_device minor wq)
      × (available (new_device minor wq) ≡ [])
      × (delayed (new_device minor wq) ≡ [])
      × ((new_device minor wq).delay ≡ 0)
unfolding new_device
new_device-IsIdle minor wq = (
  record {
    pointers = refl;
    message_free = refl;
    pending_free = refl;
    wq_free = refl;
    flags_byte = omega arith;
    not_flushing = refl;
    small = omega arith;
    counted = refl;
    linked = refl;
    distinct = tt;
    no_works = λ e. refl;
    whole = tt;
    whole_pending = tt;
  },
  refl,
  refl,
  refl,
)
