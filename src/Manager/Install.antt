-- ===== src/Manager/Install.antt =====
-- kmodule/group_dev_manager.c: `_install_group`, with its ladder of labels; and `init_workqueue` of
-- kmodule/group_dev.c.
use aosv_project.Prelude.{
  ℕ, Bool, List, [], ◌∷◌, Option, none, some, ◌==◌, if◌then◌else◌, ℤ, is_negative, pos, minus_one,
}
use aosv_project.Device.{GroupDev, all_set}
use aosv_project.Manager.{
  Part, device_name, new_group_dev, message_list, message_sem, pending_list, pending_sem, wq_sem,
  delay_list, delay_wq, kfree,
}

-- Of one installation: which allocations succeed, whether the workqueue is created, what
-- `alloc_chrdev_region` returns and the major in the `dev_t` behind it, and the value that the
-- uninitialised variable `err` happens to have.
pub record Setup : Type 0 where
  pub alloc : Part → Bool
  pub workqueue : Bool
  pub region_err : ℤ
  pub region_major : ℕ
  pub stale_err : ℤ

-- The new device, if any; the blocks that the call holds at its end; the major of the groups.
pub record Installed : Type 0 where
  pub device : Option GroupDev
  pub held : List Part
  pub major : ℕ

-- The labels, each falling through to the next.
abbrev dev_name_fail : ℕ → List Part → Installed
dev_name_fail major held = record { device = none; held = held; major = major }

abbrev dev_alloc_fail : ℕ → List Part → Installed
dev_alloc_fail major held = dev_name_fail major (kfree device_name held)

abbrev msg_list_fail : ℕ → List Part → Installed
msg_list_fail major held = dev_alloc_fail major (kfree new_group_dev held)

abbrev msg_sem_fail : ℕ → List Part → Installed
msg_sem_fail major held = msg_list_fail major (kfree message_list held)

abbrev pnd_list_fail : ℕ → List Part → Installed
pnd_list_fail major held = msg_sem_fail major (kfree message_sem held)

abbrev pnd_sem_fail : ℕ → List Part → Installed
pnd_sem_fail major held = pnd_list_fail major (kfree pending_list held)

abbrev wq_sem_fail : ℕ → List Part → Installed
wq_sem_fail major held = pnd_sem_fail major (kfree pending_sem held)

abbrev delayed_list_fail : ℕ → List Part → Installed
delayed_list_fail major held = wq_sem_fail major (kfree wq_sem held)

abbrev dev_reg_fail : ℕ → List Part → Installed
dev_reg_fail major held = delayed_list_fail major (kfree delay_list held)

-- A new device: `kzalloc`, empty lists, semaphores at 1.
unfoldable pub new_device : (minor : ℕ) (wq : Bool) → GroupDev
new_device minor wq = record {
  minor = minor;
  flags = 0;
  messages_number = 0;
  message_sem = 1;
  message_list = [];
  delay = 0;
  wq_sem = 1;
  delay_list = [];
  queued = [];
  pending_sem = 1;
  pending_list = [];
  has = all_set wq;
  live = 0;
}

-- `init_workqueue` returns -1 where the workqueue cannot be made; `_install_group` does not look.
unfoldable pub init_workqueue : Setup → List Part → List Part × ℤ
init_workqueue u held = if u.workqueue then (delay_wq ∷ held, pos 0) else (held, minus_one)

-- From the registration on: `err` is set only where no major has been allocated yet.
unfoldable pub register_device : Setup → (minor major : ℕ) → List Part → Installed
unfolding new_device
register_device u minor major held =
    let err = if major == 0 then u.region_err else u.stale_err in
    let new_major = if major == 0 then u.region_major else major in
    if is_negative err then dev_reg_fail new_major held else record {
      device = some (new_device minor u.workqueue);
      held = kfree device_name held;
      major = new_major;
    }

unfoldable pub install_lists : Setup → (minor major : ℕ) → List Part → Installed
unfolding register_device init_workqueue
install_lists u minor major held =
    if u.alloc pending_sem
    then (let h1 = pending_sem ∷ held in
        if u.alloc wq_sem
        then (let h2 = wq_sem ∷ h1 in
            if u.alloc delay_list
            then register_device u minor major (init_workqueue u (delay_list ∷ h2)).0
            else delayed_list_fail major h2)
        else wq_sem_fail major h1)
    else pnd_sem_fail major held

-- `_install_group`
unfoldable pub install_device : Setup → (desc major : ℕ) → Installed
unfolding install_lists
install_device u desc major =
    if u.alloc device_name
    then (let h1 = device_name ∷ [] in
        if u.alloc new_group_dev
        then (let h2 = new_group_dev ∷ h1 in
            if u.alloc message_list
            then (let h3 = message_list ∷ h2 in
                if u.alloc message_sem
                then (let h4 = message_sem ∷ h3 in
                    if u.alloc pending_list
                    then install_lists u desc major (pending_list ∷ h4)
                    else pnd_list_fail major h4)
                else msg_sem_fail major h3)
            else msg_list_fail major h2)
        else dev_alloc_fail major h1)
    else dev_name_fail major []
