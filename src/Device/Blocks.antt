-- ===== src/Device/Blocks.antt =====
-- The blocks that a device has allocated: two for each message and one for each queued work.
use aosv_project.Prelude.{
  refl, ℕ, ◌+◌, ◌*◌, ◌<◌, ◌^◌, ◌≡◌, [], ◌∷◌, inl, inr, arith, length, if◌then◌else◌, ◌==◌,
  list_empty, unsnoc-cases, Bool-cases, length-append, length-list_del, length-unsnoc, ap,
}
use aosv_project.Kernel.{Ends, Services, IsLinux}
use aosv_project.Device.{GroupDev, IsIdle, Message}
use aosv_project.Device.Posting.{
  group_read-empty, group_read-done, group_read-lost, group_write-cases,
}
use aosv_project.Device.Flush.{fflush_workqueue-done, run_work-done}
use aosv_project.Device.Flags.{set_barrier, clear_barrier}
use aosv_project.Device.Messages.{set_delay}
use aosv_project.Device.Ioctl.{
  group_unlocked_ioctl, sleep_on_barrier, awake_barrier, set_send_delay, revoke_delayed_messages,
  unknown,
}
use aosv_project.Device.Write.{Params}
use aosv_project.Device.Calls.{Call, read, write, ioctl, expire, step}
use aosv_project.Device.Refinement.{IsProper}

abbrev pub blocks : GroupDev → ℕ
blocks d = 2 * (length d.message_list + length d.pending_list) + length d.queued

-- A read whose copy fails.
abbrev pub leaks : Call → GroupDev → ℕ
leaks (read o n) d = if o.uncopied == 0 then 0 else (if list_empty d.message_list then 0 else 2)
leaks _ d = 0

module _ (k : Services) (p : Params) (linux : IsLinux k) (small : p.max_storage_size < 2 ^ 32) where
  -- On an idle device, with the documented services and a `max_storage_size` below 2 ^ 32, a proper
  -- call ends and frees what it takes out of the lists, whatever else was allocated; but for a read
  -- whose copy fails: it takes a message off the list and frees neither of its two blocks.
  pub step-blocks :
      (c : Call) (d : GroupDev)
      → IsIdle d
      → IsProper k p c d
      → (extra : ℕ) → d.live ≡ blocks d + extra
      → Ends (λ r. r.0.live ≡ blocks r.0 + (extra + leaks c d)) (step k p c d)
  unfolding step group_unlocked_ioctl set_barrier clear_barrier set_delay
  step-blocks (read o n) d v h x e = elim (unsnoc-cases d.message_list) [
    | inl (l, _) ↦ rw (group_read-empty o n d v l) (ground (arith, ap (list_empty {A = Message}) l))
    | inr (m, rest, l, _) ↦ elim (Bool-cases (o.uncopied == 0)) [
      | inl c ↦
          rw (group_read-done o n d v rest m l (ground arith))
            (ground (arith, ap (length {A = Message}) l, length-append rest (m ∷ [])))
      | inr c ↦
          rw (group_read-lost o n d v rest m l (ground arith))
            (ground (arith, ap (length {A = Message}) l, length-append rest (m ∷ [])))
    ]
  ]
  step-blocks (write o buf n) d v h x e =
      rw (group_write-cases k p o buf n d v small) (ground arith)
  step-blocks (ioctl sleep_on_barrier arg queue) d v h x e = ground arith
  step-blocks (ioctl awake_barrier arg queue) d v h x e = ground arith
  step-blocks (ioctl set_send_delay arg queue) d v h x e = ground arith
  step-blocks (ioctl revoke_delayed_messages arg queue) d v h x e =
      rw (fflush_workqueue-done d v) (ground (arith, length-append d.message_list d.pending_list))
  step-blocks (ioctl unknown arg queue) d v h x e = ground arith
  step-blocks (expire w) d v h x e =
      rw (run_work-done w d v h) (elim (unsnoc-cases d.pending_list) [
        | inl (_, u) ↦ ground (arith, length-list_del w d.queued h)
        | inr (m, rest, _, u) ↦
            ground (arith, length-list_del w d.queued h, length-unsnoc d.pending_list m rest)
      ])

  -- No call changes a device's number or its pointers.
  pub step-keeps :
      (c : Call) (d : GroupDev)
      → IsIdle d
      → IsProper k p c d
      → Ends (λ r. (r.0.minor ≡ d.minor) × (r.0.has ≡ d.has)) (step k p c d)
  unfolding step group_unlocked_ioctl set_barrier clear_barrier set_delay
  step-keeps (read o n) d v h = elim (unsnoc-cases d.message_list) [
    | inl (l, _) ↦ rw (group_read-empty o n d v l) (refl, refl)
    | inr (m, rest, l, _) ↦ elim (Bool-cases (o.uncopied == 0)) [
      | inl c ↦ rw (group_read-done o n d v rest m l (ground arith)) (refl, refl)
      | inr c ↦ rw (group_read-lost o n d v rest m l (ground arith)) (refl, refl)
    ]
  ]
  step-keeps (write o buf n) d v h = rw (group_write-cases k p o buf n d v small) (ground arith)
  step-keeps (ioctl sleep_on_barrier arg queue) d v h = ground arith
  step-keeps (ioctl awake_barrier arg queue) d v h = ground arith
  step-keeps (ioctl set_send_delay arg queue) d v h = ground arith
  step-keeps (ioctl revoke_delayed_messages arg queue) d v h =
      rw (fflush_workqueue-done d v) (refl, refl)
  step-keeps (ioctl unknown arg queue) d v h = ground arith
  step-keeps (expire w) d v h = rw (run_work-done w d v h) (ground arith)
