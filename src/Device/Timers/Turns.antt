-- ===== src/Device/Timers/Turns.antt =====
-- What one step of a thread does to the sums, whatever the other threads hold.
use aosv_project.Prelude.{
  sym, Option, none, some, ◌||◌, ℕ, ◌+◌, ◌≤◌, ◌<◌, ◌≡◌, refl, ap, Bool, true, false, List, [], ◌∷◌,
  ◌==◌, if◌then◌else◌, arith, inl, inr, Bool-cases, has, occurrences, occurrences-list_del,
}
use aosv_project.Device.Timers.{
  down_works, last_of, drain, bad_link, bad_unlink, WorkShared, WorkPc, idle, add_enter, add_queue,
  add_link, add_leave, sweep_enter, sweep_mark, sweep_start, sweep_unlink, sweep_now, sweep_wait,
  sweep_drain, sweep_clear, sweep_leave, run_test, run_unlink, run_free, WorkTurn, waits, crashes,
  steps, link_work, unlink_work, aim, work_step,
}
use aosv_project.Device.Timers.Accounts.{flag_of, holds_works, marks, works, keeps, accounts}

-- The sums over the other threads.
pub record Rest : Type 0 where
  pub hold : ℕ
  pub mark : ℕ
  pub mark_le : mark ≤ hold
  pub work : ℕ → ℕ
  pub keep : ℕ → ℕ
  pub next : ℕ

pub record Settled (o : Rest) (s : WorkShared) (p : WorkPc) : Type 0 where
  pub held : s.wq_sem + (o.hold + holds_works p) ≡ 1
  pub marked : flag_of s.flushing ≡ o.mark + marks p
  pub listed : (a : ℕ) → occurrences a s.running ≡ o.work a + works a p
  pub known : (a : ℕ) → a < o.next → accounts a s + (o.keep a + keeps a p) ≡ 1
  pub fresh : (a : ℕ) → o.next ≤ a → accounts a s + (o.keep a + keeps a p) ≡ 0

abbrev pub Allows : (WorkShared → WorkPc → Type 0) → WorkTurn → Type 0
Allows P waits = Unit {0}
Allows P crashes = Unit {0}
Allows P (steps t q) = P t q

module _ (o : Rest) (s : WorkShared) where
  -- It is enough that what the thread and the device have together stays the same.
  settled :
      {p q : WorkPc} (t : WorkShared)
      → Settled o s p
      → t.wq_sem + holds_works q ≡ s.wq_sem + holds_works p
      → flag_of t.flushing ≡ o.mark + marks q
      → ((a : ℕ) → occurrences a t.running ≡ o.work a + works a q)
      → ((a : ℕ) → accounts a t + keeps a q ≡ accounts a s + keeps a p)
      → Settled o t q
  settled t v eh em el ek = record {
    held = omega (arith, v.held);
    marked = em;
    listed = el;
    known = λ a h. omega (arith, v.known a h, ek a);
    fresh = λ a h. omega (arith, v.fresh a h, ek a);
  }

  -- A turn after which the device is as it was, as far as the sums go.
  kept :
      {p q : WorkPc} (t : WorkShared)
      → Settled o s p
      → t.wq_sem ≡ s.wq_sem
      → t.flushing ≡ s.flushing
      → t.running ≡ s.running
      → t.queued ≡ s.queued
      → t.freed ≡ s.freed
      → holds_works q ≡ holds_works p
      → marks q ≡ marks p
      → ((a : ℕ) → works a q ≡ works a p)
      → ((a : ℕ) → keeps a q ≡ keeps a p)
      → Settled o t q
  kept t v ew ef er eq ed eh em el ek =
      settled t v (omega (arith, ew, eh)) (omega (arith, ap flag_of ef, em, v.marked))
        (λ a. omega (arith, ap (occurrences a) er, el a, v.listed a))
        λ a. omega (arith, ap (occurrences a) eq, ap (occurrences a) ed, ek a)

  link_work-Settled :
      (w : ℕ) → Settled o s (add_link w) → Allows (Settled o) (link_work w s add_leave)
  unfolding link_work
  link_work-Settled w v = elim (Bool-cases (bad_link w s)) [
    | inl e ↦ rw e tt
    | inr e ↦ rw e (kept _ v refl refl refl refl refl refl refl (λ a. refl) λ a. refl)
  ]

  unlink_work-Settled :
      (w : ℕ) (p q : WorkPc)
      → Settled o s p
      → holds_works q ≡ holds_works p
      → marks q ≡ marks p
      → ((a : ℕ) → works a q ≡ works a p)
      → ((a : ℕ) → keeps a q ≡ keeps a p)
      → Allows (Settled o) (unlink_work w s q)
  unfolding unlink_work
  unlink_work-Settled w p q v eh em el ek = elim (Bool-cases (bad_unlink w s)) [
    | inl e ↦ rw e tt
    | inr e ↦ rw e (kept _ v refl refl refl refl refl eh em el ek)
  ]

  aim-Settled :
      (q : Option ℕ) (p : WorkPc)
      → Settled o s p
      → holds_works p ≡ 1
      → marks p ≡ 1
      → ((a : ℕ) → works a p ≡ 0)
      → ((a : ℕ) → keeps a p ≡ 0)
      → Allows (Settled o) (aim q s)
  unfolding aim
  aim-Settled none p v eh em el ek =
      kept s v refl refl refl refl refl (sym eh) (sym em) (λ a. sym (el a)) λ a. sym (ek a)
  aim-Settled (some w) p v eh em el ek = elim (Bool-cases (has w s.freed)) [
    | inl e ↦ rw e tt
    | inr e ↦
        rw e (kept s v refl refl refl refl refl (sym eh) (sym em) (λ a. sym (el a)) λ a. sym (ek a))
  ]

  down_works-Settled :
      (p q : WorkPc)
      → Settled o s p
      → holds_works q ≡ holds_works p + 1
      → marks q ≡ marks p
      → ((a : ℕ) → works a q ≡ works a p)
      → ((a : ℕ) → keeps a q ≡ keeps a p)
      → Allows (Settled o) (down_works s q)
  down_works-Settled p q v eh em el ek = elim (Bool-cases (s.wq_sem == 0)) [
    | inl e ↦ rw e tt
    | inr e ↦ rw e (
        settled _ v (ground arith) (omega (arith, v.marked, em))
          (λ a. omega (arith, v.listed a, el a)) λ a. omega (arith, ek a))
  ]

  -- Every turn of a thread keeps the sums.
  pub work_step-Settled : (p : WorkPc) → Settled o s p → Allows (Settled o) (work_step p s)
  unfolding work_step
  work_step-Settled idle v = tt
  work_step-Settled (add_enter w) v = down_works-Settled _ _ v refl refl (λ a. refl) λ a. refl
  work_step-Settled sweep_enter v = down_works-Settled _ _ v refl refl (λ a. refl) λ a. refl
  work_step-Settled (add_link w) v = link_work-Settled w v
  work_step-Settled (sweep_unlink w q) v =
      unlink_work-Settled w _ _ v refl refl (λ a. refl) λ a. refl
  work_step-Settled (run_unlink w) v = unlink_work-Settled w _ _ v refl refl (λ a. refl) λ a. refl
  work_step-Settled sweep_start v =
      aim-Settled (last_of s.delay_list) _ v refl refl (λ a. refl) λ a. refl
  work_step-Settled (add_queue w) v = settled _ v refl v.marked v.listed λ a. omega arith
  work_step-Settled add_leave v = settled _ v (omega arith) v.marked v.listed λ a. refl
  work_step-Settled sweep_leave v = settled _ v (omega arith) v.marked v.listed λ a. refl
  work_step-Settled sweep_mark v =
      settled _ v refl (omega (arith, v.held, v.marked, o.mark_le)) v.listed λ a. refl
  work_step-Settled sweep_clear v =
      settled _ v refl (omega (arith, v.held, v.marked, o.mark_le)) v.listed λ a. refl
  work_step-Settled (sweep_now w q) v = elim (Bool-cases (has w s.freed)) [
    | inl e ↦ rw e tt
    | inr e ↦ rw e (kept s v refl refl refl refl refl refl refl (λ a. refl) λ a. refl)
  ]
  work_step-Settled (sweep_wait w q) v = elim (Bool-cases (has w s.queued || has w s.running)) [
    | inl e ↦ rw e tt
    | inr e ↦ rw e (aim-Settled q _ v refl refl (λ a. refl) λ a. refl)
  ]
  work_step-Settled (run_test w) v = tested s.flushing
    where
      tested :
          (b : Bool)
          → Allows (Settled o) (if b then steps s (run_free w) else steps s (run_unlink w))
      tested true = kept s v refl refl refl refl refl refl refl (λ a. refl) λ a. refl
      tested false = kept s v refl refl refl refl refl refl refl (λ a. refl) λ a. refl
  work_step-Settled (run_free w) v =
      settled _ v refl v.marked (λ a. omega (arith, v.listed a, occurrences-list_del a w s.running))
        λ a. omega arith
  work_step-Settled sweep_drain v = drained s.running
    where
      drained : (ws : List ℕ) → Allows (Settled o) (drain s ws)
      drained [] = kept s v refl refl refl refl refl refl refl (λ a. refl) λ a. refl
      drained (w ∷ ws) = tt
