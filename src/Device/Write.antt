-- ===== src/Device/Write.antt =====
-- kmodule/group_dev.c: `group_write`.
use aosv_project.Prelude.{
  ℕ, ◌+◌, ◌-◌, ◌%◌, ◌^◌, List, ◌∷◌, none, some, ◌==◌, ltb, leb, ◌&&◌, if◌then◌else◌, ℤ, pos,
  minus_one,
}
use aosv_project.Prelude.Bytes.{take, replicate, overwrite, store}
use aosv_project.Kernel.{Run, done, oops, ◌>>=◌, Services, Outcomes}
use aosv_project.Device.{
  GroupDev, Message, Filp, no_file, no_device, opened, down_message, up_message, down_pending,
  up_pending,
}
use aosv_project.Device.Works.{add_delayed_work}

-- kmodule/tsm.c: the two parameters of the module, each an `unsigned int`.
pub record Params : Type 0 where
  pub max_message_size : ℕ
  pub max_storage_size : ℕ

pub record WriteResult : Type 0 where
  pub dev : GroupDev
  pub ret : ℤ

abbrev pub write_result : GroupDev → ℤ → WriteResult
write_result d r = record { dev = d; ret = r }

-- The labels `msg_fail` and `data_fail`.
abbrev data_fail : GroupDev → ℤ → WriteResult
data_fail d r = write_result (record d { live = d.live - 1 }) r

abbrev msg_fail : GroupDev → ℤ → WriteResult
msg_fail d r = data_fail (record (up_message d) { live = d.live - 1 }) r

-- The message becomes available at once, or goes to the pending list with a work of its own.
unfoldable pub post_message : Outcomes → Message → GroupDev → Run GroupDev
unfolding add_delayed_work
post_message o msg d =
    if d.delay == 0
    then done (up_message (record d { message_list = msg ∷ d.message_list }))
    else (if d.has.pending_sem && d.has.pending_list
        then (let locked = down_pending (up_message d) in
            add_delayed_work o
              (up_pending (record locked { pending_list = msg ∷ locked.pending_list })))
        else oops)

-- The user's bytes go into the new block, and `data[length] = 0` behind them.
unfoldable pub fill_message : Services → List ℕ → ℕ → Run Message
fill_message k buf n = elim (store (overwrite (take n buf) (replicate (k.ksize n) 0)) n 0) [
  | none ↦ oops
  | some block ↦ done (record { data_size = n; block = block })
]

-- From the copy on: the terminator, the counter, and the message on its list.
unfoldable pub accept_message : Services → Outcomes → List ℕ → ℕ → GroupDev → Run WriteResult
unfolding fill_message post_message
accept_message k o buf n d = do
  msg ← fill_message k buf n
  e ← post_message o msg (record d { messages_number = (d.messages_number + 1) % 2 ^ 32 })
  done (write_result e (pos n))

-- From `down (message_sem)` on, with both blocks allocated.
unfoldable pub store_message :
    Services → Params → Outcomes → List ℕ → ℕ → GroupDev → Run WriteResult
unfolding accept_message
store_message k p o buf n d =
    if leb p.max_storage_size d.messages_number
    then done (msg_fail d (pos 0))
    else (if d.has.message_list
        then (if o.uncopied == 0 then accept_message k o buf n d else done (msg_fail d minus_one))
        else done (msg_fail d minus_one))

unfoldable pub allocate_message :
    Services → Params → Outcomes → List ℕ → ℕ → GroupDev → Run WriteResult
unfolding store_message
allocate_message k p o buf n d =
    if o.data_block
    then (let held = record d { live = d.live + 1 } in
        if o.msg_block
        then (if d.has.message_sem
            then store_message k p o buf n (down_message (record held { live = held.live + 1 }))
            else oops)
        else done (data_fail held minus_one))
    else done (write_result d minus_one)

unfoldable pub group_write :
    Services → Params → Outcomes → Filp → List ℕ → ℕ → GroupDev → Run WriteResult
unfolding allocate_message
group_write k p o no_file buf length d = done (write_result d minus_one)
group_write k p o no_device buf length d = done (write_result d minus_one)
group_write k p o opened buf length d =
    if length == 0
    then done (write_result d minus_one)
    else allocate_message k p o buf
        (if ltb p.max_message_size length then p.max_message_size else length) d
