-- ===== src/Device/Race.antt =====
-- A timer that expires while `fflush_workqueue` of kmodule/group_dev.c goes through the works: the
-- workqueue runs on another processor, and `delayed_work_fun` does not take `wq_sem`.
use aosv_project.Prelude.{
  has-list_del_self, ℕ, ◌<◌, ◌/◌, ◌%◌, ◌≡◌, true, false, List, [], ◌∷◌, reverse, inl, inr, arith,
  has, has-reverse, has-list_del, list_del, Bool-cases, ◌∙◌, ap,
}
use aosv_project.Kernel.{Run, done, oops, ◌>>=◌}
use aosv_project.Device.{GroupDev, IsIdle, down_wq, up_wq}
use aosv_project.Device.Flags.{
  set_flushing, clear_flushing, is_flushing, set_flushing_lem, check_flushing_lem,
}
use aosv_project.Device.Works.{run_work, flush_works, delayed_work_fun}

-- `flush_locked` with one work that the workqueue runs between `set_flushing` and the loop.
unfoldable pub flush_interrupted : ℕ → GroupDev → Run GroupDev
unfolding run_work flush_works
flush_interrupted w d =
    let marked = set_flushing (down_wq d) in
    run_work w marked >>= λ e.
    flush_works (reverse e.delay_list) e >>= λ f. done (up_wq (clear_flushing f))

-- Running a work changes the queue by that work alone.
run_work-queued :
    (w : ℕ) (d : GroupDev)
    → has w d.queued ≡ true
    → (e : GroupDev) × (run_work w d ≡ done e) × (e.queued ≡ list_del w d.queued)
unfolding run_work
run_work-queued w d h =
    (delayed_work_fun w (record d { queued = list_del w d.queued }), ground arith, ground arith)

-- While the flag is set the list of works stays as it is.
run_work-flagged :
    (w : ℕ) (d : GroupDev)
    → has w d.queued ≡ true
    → d.flags < 256
    → d.flags / 2 % 2 ≡ 1
    → (e : GroupDev) × (run_work w d ≡ done e)
      × (e.queued ≡ list_del w d.queued)
      × (e.delay_list ≡ d.delay_list)
unfolding run_work is_flushing
run_work-flagged w d h byte flag = (
  delayed_work_fun w (record d { queued = list_del w d.queued }),
  ground arith,
  ground arith,
  ground (arith, check_flushing_lem d.flags byte),
)

-- A loop that meets a freed work faults.
flush_works-oops :
    (ws : List ℕ) (w : ℕ) (d : GroupDev)
    → has w ws ≡ true
    → has w d.queued ≡ false
    → flush_works ws d ≡ oops
unfolding flush_works
flush_works-oops [] w d h f = absurd (ground arith)
flush_works-oops (x ∷ ws) w d h f = elim (Bool-cases (has x d.queued)) [
  | inr gone ↦ ground arith
  | inl there ↦
      let (e, run, q) =
        run_work-queued x (record d { delay_list = list_del x d.delay_list }) there in
      rw run (flush_works-oops ws w e (ground arith) (ap (has w) q ∙ has-list_del w x d.queued f))
]

-- On any idle device, whichever queued work runs between `set_flushing` and the loop, the flush then
-- uses the freed work: its function has left it in the list, since the flag was set.
pub flush_interrupted-oops :
    (w : ℕ) (d : GroupDev) → IsIdle d → has w d.queued ≡ true → flush_interrupted w d ≡ oops
unfolding flush_interrupted set_flushing
flush_interrupted-oops w d v h =
    let marked : GroupDev = set_flushing (down_wq d) in
    let (e, ran, q, l) =
      run_work-flagged w marked h (ground (arith, set_flushing_lem d.flags v.flags_byte))
        (ground (arith, set_flushing_lem d.flags v.flags_byte)) in
    rw (
      ran,
      flush_works-oops (reverse e.delay_list) w e
          (has-reverse w e.delay_list ∙ ap (has w) (l ∙ v.linked) ∙ h)
          (ap (has w) q ∙ has-list_del_self w d.queued v.distinct),
    )
