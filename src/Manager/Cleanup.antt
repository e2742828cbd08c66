-- ===== src/Manager/Cleanup.antt =====
-- What `_install_group` leaves behind: on each failing path, and on success.
use aosv_project.Prelude.{
  ℕ, ◌≡◌, Bool, List, [], ◌∷◌, none, some, arith, is_negative, if◌then◌else◌, ◌==◌, ◌&&◌,
}
use aosv_project.Manager.{
  Part, new_group_dev, message_list, message_sem, pending_list, pending_sem, wq_sem, delay_list,
  delay_wq, device_name, ℤ,
}
use aosv_project.Manager.Install.{Setup, install_device, new_device}

-- The blocks of an installed device.
abbrev pub device_parts : Bool → List Part
device_parts wq =
    let rest : List Part =
      delay_list ∷ wq_sem ∷ pending_sem ∷ pending_list ∷ message_sem ∷ message_list ∷ new_group_dev
      ∷ [] in
    if wq then delay_wq ∷ rest else rest

-- The eight allocations succeed.
abbrev pub allocates : Setup → Bool
allocates u =
    u.alloc device_name
    && (u.alloc new_group_dev
        && (u.alloc message_list
            && (u.alloc message_sem
                && (u.alloc pending_list
                    && (u.alloc pending_sem && (u.alloc wq_sem && u.alloc delay_list))))))

-- The value that the code tests after the registration.
abbrev pub registration : Setup → ℕ → ℤ
registration u major = if major == 0 then u.region_err else u.stale_err

module _ (u : Setup) (desc major : ℕ) where
  -- `_install_group` on every path. A failed allocation frees all that the call allocated. A
  -- negative value after the registration frees all but the workqueue, and leaves the major that is
  -- then in the `dev_t`. Success gives a new device with its blocks; the memory of its name is
  -- freed.
  pub install_device-cases : install_device u desc major ≡ (
      if allocates u
      then (let new_major = if major == 0 then u.region_major else major in
          if is_negative (registration u major)
          then record {
            device = none;
            held = if u.workqueue then delay_wq ∷ [] else [];
            major = new_major;
          }
          else record {
            device = some (new_device desc u.workqueue);
            held = device_parts u.workqueue;
            major = new_major;
          })
      else record { device = none; held = []; major = major })
  unfolding install_device
  install_device-cases = ground arith
