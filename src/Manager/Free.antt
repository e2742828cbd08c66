-- ===== src/Manager/Free.antt =====
-- kmodule/group_dev_manager.c: `group_free` and `group_free_all`.
use aosv_project.Prelude.{
  ℕ, zero, suc, ◌-◌, Bool, false, List, [], ◌∷◌, ◌==◌, if◌then◌else◌, ℤ, pos, negsuc, list_empty,
  list_del, reverse,
}
use aosv_project.Kernel.{Run, done, oops, ◌>>=◌}
use aosv_project.Device.{GroupDev, Message}
use aosv_project.Device.Flags.{is_barrier_up, clear_barrier}
use aosv_project.Device.Works.{fflush_workqueue}
use aosv_project.Manager.{
  Part, new_group_dev, message_list, message_sem, pending_list, pending_sem, wq_sem, delay_list,
  delay_wq, kfree, Manager, Global, unset, dangling, good,
}

-- What is left of a device: blocks of messages and works, and other blocks; and who was woken.
pub record Remains : Type 0 where
  pub live : ℕ
  pub held : List Part
  pub woken : List ℕ

abbrev kfree_if : Bool → Part → List Part → List Part
kfree_if set part held = if set then kfree part held else held

-- The loop over the messages, from the tail of the list on.
unfoldable pub free_messages : List Message → ℕ → ℕ
free_messages [] live = live
free_messages (m ∷ ms) live = free_messages ms (live - 1 - 1)

-- From `kfree (dev->wq_sem)` on. The loop over the pending list takes the list's head for an entry,
-- so it frees what is none.
unfoldable pub free_lists : GroupDev → List Part → List ℕ → Run Remains
unfolding free_messages
free_lists d held woken =
    let h1 = kfree_if d.has.wq_sem wq_sem held in
    let h2 = kfree_if d.has.delay_list delay_list h1 in
    let h3 = kfree_if d.has.pending_sem pending_sem h2 in
    let h4 = kfree_if d.has.pending_list pending_list h3 in
    let h5 = kfree_if d.has.message_sem message_sem h4 in
    let h6 = kfree_if d.has.message_list message_list h5 in
    let live =
      if d.has.message_list then free_messages (reverse d.message_list) d.live else d.live in
    let remains : Remains = record { live = live; held = kfree new_group_dev h6; woken = woken } in
    if d.has.pending_list
    then (if list_empty d.pending_list then done remains else oops)
    else done remains

-- The barrier comes down first, and its waiters wake up.
abbrev wake_waiters : List ℕ → GroupDev → GroupDev × List ℕ
wake_waiters queue d = if is_barrier_up d == 0 then (d, []) else (clear_barrier d, queue)

-- `held` are the blocks that `_install_group` left to the device.
unfoldable pub group_free : (wait_queue : List ℕ) → List Part → GroupDev → Run Remains
unfolding free_lists
group_free queue held d =
    let w = wake_waiters queue d in
    if w.0.has.delay_wq
    then (fflush_workqueue w.0 >>= λ e. free_lists e (kfree delay_wq held) w.1)
    else free_lists w.0 held w.1

-- `to_free--` on an `int`
abbrev pub decrement : ℤ → ℤ
decrement (pos (suc n)) = pos n
decrement (pos zero) = negsuc 0
decrement (negsuc n) = negsuc (suc n)

-- The state of the loop: the device nodes, `to_free`, and what the freed devices leave behind.
pub record Sweep : Type 0 where
  pub nodes : List ℕ
  pub to_free : ℤ
  pub remains : List Remains

-- The loop over the group devices, from the tail of the list on; `parts` are the blocks that each holds.
unfoldable pub free_groups :
    (waiting : ℕ → List ℕ) (parts : ℕ → List Part) → List GroupDev → Sweep → Run Sweep
unfolding group_free
free_groups waiting parts [] s = done s
free_groups waiting parts (d ∷ ds) s = group_free (waiting d.minor) (parts d.minor) d >>= λ r.
    free_groups waiting parts ds (record {
      nodes = list_del d.minor s.nodes;
      to_free = decrement s.to_free;
      remains = r ∷ s.remains;
    })

-- The device region and the class go, and the structure is freed with its list; the global pointer
-- stays. `survived` is what the last line of the log says.
pub record Swept : Type 0 where
  pub manager : Manager
  pub survived : ℤ
  pub remains : List Remains

abbrev pub sweep_up : Manager → Sweep → Swept
sweep_up m s = record {
  manager = record m { group_devs = dangling; group_dev_class = false; nodes = s.nodes };
  survived = s.to_free;
  remains = s.remains;
}

unfoldable pub free_known :
    (waiting : ℕ → List ℕ) (parts : ℕ → List Part) → Manager → Global → Run Swept
unfolding free_groups
free_known waiting parts m unset = done (record { manager = m; survived = pos 0; remains = [] })
free_known waiting parts m dangling = oops
free_known waiting parts m (good gs) =
    free_groups waiting parts (reverse gs.group_devs_list)
      (record { nodes = m.nodes; to_free = pos gs.used; remains = [] })
    >>= λ s. done (sweep_up m s)

unfoldable pub group_free_all : (waiting : ℕ → List ℕ) → Manager → Run Swept
unfolding free_known
group_free_all waiting m = free_known waiting m.parts m m.group_devs
