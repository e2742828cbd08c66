-- ===== src/Device/Timers/Alone.antt =====
-- A thread that adds or runs a work with no other in between does what the whole call of Device/Works
-- does.
use aosv_project.Prelude.{
  ℕ, ◌+◌, zero, suc, ◌≡◌, sym, ap, ◌∙◌, inl, inr, unsnoc-cases, true, false, [], ◌∷◌, some, has,
  list_del, arith,
}
use aosv_project.Kernel.{Run, done, Outcomes}
use aosv_project.Device.{GroupDev, IsIdle}
use aosv_project.Device.Works.{add_delayed_work, run_work}
use aosv_project.Device.Flush.{run_work-done, expired}
use aosv_project.Device.Timers.{
  WorkShared, WorkPc, idle, add_enter, run_test, WorkTurn, waits, crashes, steps, bad_link,
  bad_unlink, link_work, unlink_work, work_step,
}

-- So many steps of one thread, with no other in between.
abbrev pub solo_work : ℕ → WorkPc → WorkShared → WorkTurn
solo_work zero p s = steps s p
solo_work (suc n) p s = elim (work_step p s) [
  | waits ↦ waits
  | crashes ↦ crashes
  | steps t q ↦ solo_work n q t
]

-- The device of the whole calls, as the threads see its works.
pub record ShowsWorks (d : GroupDev) (s : WorkShared) : Type 0 where
  pub wq_sem : s.wq_sem ≡ d.wq_sem
  pub flushing : s.flushing ≡ false
  pub delay_list : s.delay_list ≡ d.delay_list
  pub queued : s.queued ≡ d.queued

-- What a call leaves on the device, and the thread alone for the others.
pub record EndsAlike (r : Run GroupDev) (t : WorkTurn) : Type 0 where
  pub dev : GroupDev
  pub shared : WorkShared
  pub returns : r ≡ done dev
  pub ends : t ≡ steps shared idle
  pub alike : ShowsWorks dev shared

solo-add :
    (w : ℕ) (o : Outcomes) (d : GroupDev) (s : WorkShared)
    → IsIdle d
    → d.has.delay_wq ≡ true
    → o.work_block ≡ some w
    → ShowsWorks d s
    → bad_link w s ≡ false
    → EndsAlike (add_delayed_work o d) (solo_work 4 (add_enter w) s)
unfolding add_delayed_work work_step link_work
solo-add w o d s v wq b r h = record {
  dev = record d { queued = w ∷ d.queued; delay_list = w ∷ d.delay_list; live = d.live + 1 };
  shared = record s {
    queued = w ∷ s.queued;
    delay_list = w ∷ s.delay_list;
    unlinked = list_del w s.unlinked;
  };
  returns = ground (arith, v.pointers, v.wq_free);
  ends = ground (arith, v.wq_free, r.wq_sem);
  alike = ground (arith, v.wq_free, r);
}

expired-wq_sem : (w : ℕ) (d : GroupDev) → (expired w d).wq_sem ≡ d.wq_sem
expired-wq_sem w d = elim (unsnoc-cases d.pending_list) [
  | inl (e, u) ↦ ground (arith, u)
  | inr (x, ys, e, u) ↦ ground (arith, u)
]

solo-run :
    (w : ℕ) (d : GroupDev) (s : WorkShared)
    → IsIdle d
    → has w d.queued ≡ true
    → ShowsWorks d s
    → s.running ≡ []
    → bad_unlink w s ≡ false
    → EndsAlike
        (run_work w d)
        (solo_work 3 (run_test w) (record s { queued = list_del w s.queued; running = w ∷ [] }))
unfolding work_step unlink_work
solo-run w d s v q r n h = record {
  dev = expired w d;
  shared = record s {
    queued = list_del w s.queued;
    delay_list = list_del w s.delay_list;
    unlinked = w ∷ s.unlinked;
    freed = w ∷ s.freed;
    running = [];
  };
  returns = run_work-done w d v q;
  ends = ground (arith, r.flushing);
  alike = record {
    wq_sem = r.wq_sem ∙ sym (expired-wq_sem w d);
    flushing = r.flushing;
    delay_list = ap (list_del w) r.delay_list;
    queued = ap (list_del w) r.queued;
  };
}

-- On an idle device whose works the threads see as they are: a thread that adds a work (which can be
-- allocated, on a device with a workqueue, next to no freed work) and takes all its steps with no other
-- in between leaves the works, the queue and `wq_sem` as the whole call `add_delayed_work` does; and so
-- does a queued work that runs (when no other runs and it and its neighbours are not freed) as in
-- `run_work`.
pub solo-works :
    (w u : ℕ) (o : Outcomes) (d : GroupDev) (s : WorkShared)
    → IsIdle d
    → ShowsWorks d s
    → d.has.delay_wq ≡ true
    → o.work_block ≡ some w
    → bad_link w s ≡ false
    → has u d.queued ≡ true
    → s.running ≡ []
    → bad_unlink u s ≡ false
    → EndsAlike (add_delayed_work o d) (solo_work 4 (add_enter w) s)
      × EndsAlike
          (run_work u d)
          (solo_work 3 (run_test u) (record s { queued = list_del u s.queued; running = u ∷ [] }))
solo-works w u o d s v r wq b h q n g = (solo-add w o d s v wq b r h, solo-run u d s v q r n g)
