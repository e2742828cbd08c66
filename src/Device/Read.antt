-- ===== src/Device/Read.antt =====
-- kmodule/group_dev.c: `group_open`, `group_release`, `group_flush` and `group_read`.
use aosv_project.Prelude.{
  ℕ, ◌+◌, ◌-◌, ◌%◌, ◌^◌, List, [], none, some, ◌==◌, ltb, if◌then◌else◌, unsnoc, ℤ, pos, minus_one,
}
use aosv_project.Prelude.Bytes.{take}
use aosv_project.Kernel.{Run, done, oops, Outcomes}
use aosv_project.Device.{
  GroupDev, Message, Filp, no_file, no_device, opened, down_message, up_message,
}

-- `copied` is what reaches the user's buffer.
pub record ReadResult : Type 0 where
  pub dev : GroupDev
  pub ret : ℤ
  pub copied : List ℕ

abbrev pub read_result : GroupDev → ℤ → List ℕ → ReadResult
read_result d r bytes = record { dev = d; ret = r; copied = bytes }

-- `group_open` finds the device that holds the inode's `cdev` and stores it in the file.
unfoldable pub group_open : (device : Filp) → Filp × ℤ
group_open opened = (opened, pos 0)
group_open no_file = (no_device, minus_one)
group_open no_device = (no_device, minus_one)

unfoldable pub group_release : GroupDev → GroupDev × ℤ
group_release d = (d, pos 0)

unfoldable pub group_flush : GroupDev → GroupDev × ℤ
group_flush d = (d, pos 0)

-- After the critical section: a copy that fails leaves the message neither listed nor freed.
unfoldable pub copy_message : Outcomes → Message → ℕ → GroupDev → ReadResult
copy_message o msg length d =
    let n = if ltb msg.data_size length then msg.data_size else length in
    if o.uncopied == 0
    then read_result (record d { live = d.live - 1 - 1 }) (pos n) (take n msg.block)
    else read_result d minus_one (take (n - o.uncopied) msg.block)

unfoldable pub take_message : Outcomes → ℕ → GroupDev → ReadResult
unfolding copy_message
take_message o length d =
    if d.has.message_list
    then elim (unsnoc d.message_list) [
      | none ↦ read_result (up_message d) (pos 0) []
      | some (msg, rest) ↦ copy_message o msg length (
          up_message (record d {
            message_list = rest;
            messages_number = (d.messages_number + 2 ^ 32 - 1) % 2 ^ 32;
          }))
    ]
    else read_result (up_message d) minus_one []

unfoldable pub group_read : Outcomes → Filp → ℕ → GroupDev → Run ReadResult
unfolding take_message
group_read o no_file length d = done (read_result d minus_one [])
group_read o no_device length d = done (read_result d minus_one [])
group_read o opened length d =
    if d.has.message_sem then done (take_message o length (down_message d)) else oops
