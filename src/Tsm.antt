-- ===== src/Tsm.antt =====
-- kmodule/tsm.c: the control device `/dev/tsm`, through which groups are installed, and the module's
-- entry and exit.
use aosv_project.Prelude.{
  ℕ, Bool, true, false, List, Option, none, some, ◌==◌, if◌then◌else◌, ℤ, pos, minus_one,
  is_negative,
}
use aosv_project.Kernel.{Run, done, ◌>>=◌}
use aosv_project.Device.Write.{Params}
use aosv_project.Manager.{Manager}
use aosv_project.Manager.Install.{Setup}
use aosv_project.Manager.Registry.{install_group}
use aosv_project.Manager.Free.{group_free_all, Swept}

-- DEFAULT_MAX_MESSAGE_SIZE and DEFAULT_MAX_STORAGE_SIZE
abbrev pub default_params : Params
default_params = record { max_message_size = 32; max_storage_size = 64 }

-- The commands of kmodule/ioctl.h for this device; `desc` is the byte at the argument's address.
pub data TsmCommand : Type 0 where
  install_group_command : (desc : ℕ) → TsmCommand
  max_message_size_command : TsmCommand
  other_command : TsmCommand

-- Of one call: what the allocations and the registration give, the bytes that the copy leaves, and
-- the value that the uninitialised variable `ret` happens to have.
pub record TsmOutcomes : Type 0 where
  pub struct_block : Bool
  pub list_block : Bool
  pub setup : Setup
  pub uncopied : ℕ
  pub stale_ret : ℤ

pub record TsmResult : Type 0 where
  pub manager : Manager
  pub ret : ℤ
  pub copied : Option ℕ  -- the number that reaches the user

abbrev tsm_result : Manager → ℤ → Option ℕ → TsmResult
tsm_result m r c = record { manager = m; ret = r; copied = c }

unfoldable pub tsm_dev_ioctl : Params → TsmOutcomes → TsmCommand → Manager → Run TsmResult
tsm_dev_ioctl p o (install_group_command desc) m =
    if o.uncopied == 0
    then (install_group o.struct_block o.list_block o.setup (some desc) m >>= λ r.
        done (tsm_result r.0 r.1 none))
    else done (tsm_result m minus_one none)
tsm_dev_ioctl p o max_message_size_command m =
    if o.uncopied == 0
    then done (tsm_result m (pos 0) (some p.max_message_size))
    else done (tsm_result m minus_one none)
tsm_dev_ioctl p o other_command m = done (tsm_result m o.stale_ret none)

unfoldable pub tsm_dev_open : Manager → Manager × ℤ
tsm_dev_open m = (m, pos 0)

unfoldable pub tsm_dev_release : Manager → Manager × ℤ
tsm_dev_release m = (m, pos 0)

-- The module's own globals: its major, its class, whether its region and its device exist.
pub record Module : Type 0 where
  pub major : ℕ
  pub class_set : Bool
  pub region : Bool
  pub device : Bool

-- What `register_chrdev_region` or `alloc_chrdev_region` returns, and the major behind the `dev_t`.
pub record Registration : Type 0 where
  pub err : ℤ
  pub major : ℕ

unfoldable pub tsm_init : Registration → Module → Module × ℤ
tsm_init r t =
    let known = record t { major = if t.major == 0 then r.major else t.major } in
    if is_negative r.err
    then (known, minus_one)
    else (record known { class_set = true; region = true; device = true }, pos 0)

unfoldable pub tsm_exit : (waiting : ℕ → List ℕ) → Manager → Module → Run (Swept × Module)
tsm_exit waiting m t = group_free_all waiting m >>= λ s.
    done (s, record t { class_set = false; region = false; device = false })
