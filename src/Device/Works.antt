-- ===== src/Device/Works.antt =====
-- kmodule/group_dev.c: the delayed works, their creation, their function and their flush.
use aosv_project.Prelude.{
  ℕ, ◌+◌, ◌-◌, Bool, ◌&&◌, List, [], ◌∷◌, none, some, ◌==◌, if◌then◌else◌, unsnoc, has, list_del,
  reverse,
}
use aosv_project.Kernel.{Run, done, oops, ◌>>=◌, Outcomes}
use aosv_project.Device.{
  GroupDev, Pointers, down_message, up_message, down_pending, up_pending, down_wq, up_wq,
}
use aosv_project.Device.Flags.{is_flushing, set_flushing, clear_flushing}
use aosv_project.Device.Messages.{flush_pending}

-- From the label `exit` of `delayed_work_fun`: a flush unlinks the work itself. `kfree (dwork)`.
unfoldable pub exit_work : ℕ → GroupDev → GroupDev
exit_work w d =
    let linked = if is_flushing d == 0 then list_del w d.delay_list else d.delay_list in
    record d { delay_list = linked; live = d.live - 1 }

-- The pointers that `delayed_work_fun` checks, in its order.
abbrev work_pointers : Pointers → Bool
work_pointers h =
    h.wq_sem && (h.pending_sem && (h.pending_list && (h.message_sem && h.message_list)))

-- The oldest pending message goes to the message list, whichever work runs.
unfoldable pub publish_oldest : GroupDev → GroupDev
publish_oldest d =
    let locked = down_pending d in
    elim (unsnoc locked.pending_list) [
      | none ↦ up_pending locked
      | some (msg, rest) ↦
          let moved = down_message (up_pending (record locked { pending_list = rest })) in
          up_message (record moved { message_list = msg ∷ moved.message_list })
    ]

unfoldable pub delayed_work_fun : ℕ → GroupDev → GroupDev
unfolding exit_work publish_oldest
delayed_work_fun w d = exit_work w (if work_pointers d.has then publish_oldest d else d)

-- The workqueue runs the work `w` whose timer has expired; it is off the queue before its function
-- starts. Works that are not queued have been freed.
unfoldable pub run_work : ℕ → GroupDev → Run GroupDev
unfolding delayed_work_fun
run_work w d =
    if has w d.queued
    then done (delayed_work_fun w (record d { queued = list_del w d.queued }))
    else oops

-- `queue_delayed_work` and `list_add`, under `wq_sem`.
unfoldable pub add_delayed_work : Outcomes → GroupDev → Run GroupDev
add_delayed_work o d =
    if d.has.delay_wq
    then elim o.work_block [
      | none ↦ done d
      | some w ↦
          if d.has.wq_sem && d.has.delay_list
          then (let locked = down_wq d in
              done (
                up_wq (record locked {
                  queued = w ∷ locked.queued;
                  delay_list = w ∷ locked.delay_list;
                  live = locked.live + 1;
                })))
          else oops
    ]
    else done d

-- The loop of `fflush_workqueue`, over the entries of the list from its tail on. Each is unlinked,
-- and `flush_delayed_work` runs it before it returns.
unfoldable pub flush_works : List ℕ → GroupDev → Run GroupDev
unfolding run_work
flush_works [] d = done d
flush_works (w ∷ ws) d =
    run_work w (record d { delay_list = list_del w d.delay_list }) >>= flush_works ws

-- Nothing is running when `drain_workqueue` is called, so it returns at once.
unfoldable pub flush_locked : GroupDev → Run GroupDev
unfolding flush_works
flush_locked d =
    let marked = set_flushing (down_wq d) in
    flush_works (reverse marked.delay_list) marked >>= λ e. done (up_wq (clear_flushing e))

unfoldable pub fflush_workqueue : GroupDev → Run GroupDev
unfolding flush_locked
fflush_workqueue d =
    let moved = flush_pending d in
    if moved.has.delay_wq && (moved.has.delay_list && moved.has.wq_sem)
    then flush_locked moved
    else done moved
