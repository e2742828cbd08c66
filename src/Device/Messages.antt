-- ===== src/Device/Messages.antt =====
-- kmodule/group_dev.c: the delay, and the move of the whole pending list.
use aosv_project.Prelude.{ℕ, ◌%◌, ◌^◌, [], ◌++◌, if◌then◌else◌}
use aosv_project.Kernel.{Services}
use aosv_project.Device.{GroupDev, down_message, up_message, down_pending, up_pending}

-- `msecs_to_jiffies` takes an `unsigned int`, so the `long` loses its upper half.
unfoldable pub set_delay : Services → GroupDev → ℕ → GroupDev
set_delay k d delay = record d { delay = k.msecs_to_jiffies (delay % 2 ^ 32) }

unfoldable pub get_delay_msecs : Services → GroupDev → ℕ
get_delay_msecs k d = k.jiffies_to_msecs d.delay

unfoldable pub get_delay_jiffies : GroupDev → ℕ
get_delay_jiffies d = d.delay

-- `list_splice_tail_init (pending_list, message_list)`
abbrev splice_tail : GroupDev → GroupDev
splice_tail d = record d { message_list = d.message_list ++ d.pending_list; pending_list = [] }

-- `_fflush_workqueue`
unfoldable pub flush_pending : GroupDev → GroupDev
flush_pending d =
    if d.has.pending_sem
    then (if d.has.message_sem
        then (if d.has.pending_list
            then (if d.has.message_list
                then up_message (up_pending (splice_tail (down_message (down_pending d))))
                else d)
            else d)
        else d)
    else d
