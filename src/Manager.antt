-- ===== src/Manager.antt =====
-- kmodule/group_dev_manager.h: `struct group_devices` and the global state of
-- kmodule/group_dev_manager.c.
pub mod Names
pub mod Naming
pub mod Install
pub mod Registry
pub mod Free
pub mod Cleanup
pub mod Catalogue
pub mod Installation
pub mod Teardown
use aosv_project.Prelude.{
  ℕ, ◌≤◌, ◌<◌, ◌≡◌, Bool, true, false, List, [], ◌∷◌, map, length, Distinct, if◌then◌else◌, ◌==◌, ℤ,
}
use aosv_project.Device.{GroupDev}

-- GROUP_DEV_COUNT
abbrev pub group_dev_count : ℕ
group_dev_count = 256

pub record GroupDevices : Type 0 where
  pub used : ℕ
  pub major : ℕ
  pub group_devs_list : List GroupDev

-- The pointer `group_devs`: null, left pointing to freed memory, or good.
pub data Global : Type 0 where
  unset dangling : Global
  good : GroupDevices → Global

-- What a group device allocates besides messages and works.
pub data Part : Type 0 where
  device_name new_group_dev message_list message_sem pending_list pending_sem wq_sem delay_list
        delay_wq :
      Part

-- `nodes` are the minors for which `device_create` has made a device and `device_destroy` has not
-- removed it; `group_dev_class` says whether that pointer is set. `parts` are the blocks that
-- `_install_group` left to the device with a number, and `lost` those that it left to none.
pub record Manager : Type 0 where
  pub group_devs : Global
  pub group_dev_class : Bool
  pub nodes : List ℕ
  pub parts : ℕ → List Part
  pub lost : List Part

abbrev pub rank : Part → ℕ
rank device_name = 0
rank new_group_dev = 1
rank message_list = 2
rank message_sem = 3
rank pending_list = 4
rank pending_sem = 5
rank wq_sem = 6
rank delay_list = 7
rank delay_wq = 8

-- `kfree`: one block less. `destroy_workqueue` does the same for `delay_wq`.
abbrev pub kfree : Part → List Part → List Part
kfree a [] = []
kfree a (b ∷ held) = if rank a == rank b then held else b ∷ kfree a held
