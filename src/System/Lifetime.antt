-- ===== src/System/Lifetime.antt =====
-- The life of the module from its first call to its removal.
use aosv_project.Prelude.{ℕ, ◌<◌, ◌^◌, ◌≡◌, refl, List, [], pos, reverse}
use aosv_project.Kernel.{Run, done, oops, Ends-bind, ◌>>=◌, Ends, Services, IsLinux}
use aosv_project.Device.Write.{Params}
use aosv_project.Manager.{Manager, Global, unset, dangling, good}
use aosv_project.Manager.Free.{group_free_all, free_groups, sweep_up, Sweep, Swept}
use aosv_project.Manager.Teardown.{NoneLeft, group_free_all-done}
use aosv_project.System.Soundness.{
  SoundWith, AllWorkqueues, IsSound, fresh, AllProperActions, live_on-IsSound,
}
use aosv_project.System.{Action, live_on}

-- No node is left, no group that was installed leaves a block, the log counts no survivor, and of the
-- installations that failed nothing is left but workqueues.
abbrev pub AllFreed : Swept → Type 0
AllFreed s =
    (s.survived ≡ pos 0)
    × (s.manager.nodes ≡ [])
    × NoneLeft s.remains
    × AllWorkqueues s.manager.lost

sweep_up-lost :
    (m : Manager) (r : Run Sweep)
    → Ends
        (λ s. (s.survived ≡ pos 0) × (s.manager.nodes ≡ []) × NoneLeft s.remains)
        (r >>= λ s. done (sweep_up m s))
    → AllWorkqueues m.lost
    → Ends AllFreed (r >>= λ s. done (sweep_up m s))
sweep_up-lost m (done s) h w = (h.0, h.1, h.2, w)
sweep_up-lost m oops h w = absurd h

module _ (k : Services) (p : Params) (linux : IsLinux k) (small : p.max_storage_size < 2 ^ 32) where
  free_all-AllFreed :
      (waiting : ℕ → List ℕ) (m : Manager) (g : Global)
      → m.group_devs ≡ g
      → IsSound m
      → Ends AllFreed (group_free_all waiting m)
  unfolding group_free_all
  free_all-AllFreed waiting m (good gs) e v =
      let s : SoundWith m (good gs) = rw e at v in
      let all = group_free_all-done waiting m gs e s.0 s.1 s.2 s.3 in
      rw e (
        sweep_up-lost m
          (free_groups waiting m.parts (reverse gs.group_devs_list)
            (record { nodes = m.nodes; to_free = pos gs.used; remains = [] }))
          (rw e at all) s.4)
  free_all-AllFreed waiting m dangling e v = absurd (rw e at v)
  free_all-AllFreed waiting m unset e v =
      let s : SoundWith m unset = rw e at v in rw e (refl, s.0, tt, s.1)

  -- The whole life of the module (services and `max_storage_size` as documented): before the first
  -- call there is no group. After any history of calls on the control device and of proper calls and
  -- timers on the groups, in which the list of groups and each workqueue could be made and no copy of
  -- a message to a user failed, the removal ends, no device node is left, no group that was installed
  -- leaves a block, whichever other allocation failed, and all that the installations which failed have
  -- left behind are workqueues.
  pub lifetime-AllFreed :
      (waiting : ℕ → List ℕ) (as' : List Action)
      → AllProperActions k p as' fresh
      → Ends AllFreed (live_on k p as' fresh >>= group_free_all waiting)
  lifetime-AllFreed waiting as' h =
      Ends-bind _ _ (live_on k p as' fresh) _
        (live_on-IsSound k p linux small as' fresh (refl, tt) h)
        λ m s. free_all-AllFreed waiting m m.group_devs refl s
