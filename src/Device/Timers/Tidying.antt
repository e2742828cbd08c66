-- ===== src/Device/Timers/Tidying.antt =====
-- What one step of a thread does to the tally of a work, and that it does not crash.
use aosv_project.Prelude.{
  ℕ, ◌+◌, ◌≤◌, ◌≡◌, refl, ap, Bool, true, false, List, [], ◌∷◌, ◌==◌, if◌then◌else◌, arith, inl,
  inr, Bool-cases, has, Option, none, some, ◌||◌, occurrences, occurrences-has, occurrences-has_not,
  occurrences-list_del,
}
use aosv_project.Device.Timers.{
  last_of, drain, bad_link, bad_unlink, next_of, prev_of, first_of, is_freed, WorkShared, WorkPc,
  idle, add_enter, add_queue, add_link, add_leave, sweep_enter, sweep_mark, sweep_start,
  sweep_unlink, sweep_now, sweep_wait, sweep_drain, sweep_clear, sweep_leave, run_test, run_unlink,
  run_free, WorkTurn, waits, crashes, steps, link_work, unlink_work, aim, work_step,
}
use aosv_project.Device.Timers.Accounts.{flag_of, holds_works, marks}
use aosv_project.Device.Timers.Timely.{
  at, stills, creates, links, nows, awaits, points, pends, unlinks, Tally, IsTidy, Entering,
}
use aosv_project.Device.Timers.Neighbours.{
  first_of-at, next_of-at, prev_from-at, prev_from-points, last_of-at, is_freed-live,
}

abbrev pub with_thread : ℕ → Tally → WorkPc → Tally
with_thread a o p = record {
  hold = o.hold + holds_works p;
  mark = o.mark + marks p;
  still = o.still + stills p;
  create = o.create + creates a p;
  link = o.link + links a p;
  now = o.now + nows a p;
  await = o.await + awaits a p;
  point = o.point + points a p;
  pend = o.pend + pends a p;
  unlink = o.unlink + unlinks a p;
}

-- What each thread keeps to, and so all of them together.
pub record Apart (n : Tally) : Type 0 where
  pub point_marked : n.point ≤ n.mark + n.mark
  pub link_apart : n.link + n.mark ≤ n.hold
  pub still_apart : n.still + (n.now + n.await) ≤ n.hold
  pub wait_marked : n.now + n.await ≤ n.mark
  pub unlink_le : n.unlink ≤ n.pend

-- What the places of the works (Places) tell of the tally.
pub record Placed (s : WorkShared) (next a : ℕ) (n : Tally) : Type 0 where
  pub once : occurrences a s.queued + occurrences a s.freed + (n.create + n.pend) ≤ 1
  pub fresh : next ≤ a → occurrences a s.queued + occurrences a s.freed + (n.create + n.pend) ≡ 0
  pub running : n.pend ≤ occurrences a s.running
  pub held : s.wq_sem + n.hold ≡ 1
  pub marked : n.mark ≡ flag_of s.flushing

module _ (next : ℕ) (o : ℕ → Tally) (apart : (a : ℕ) → Apart (o a)) (s : WorkShared) where
  abbrev Stays : WorkShared → WorkPc → Type 0
  Stays t q = (a : ℕ) → IsTidy t next a (with_thread a (o a) q)

  abbrev IsIn : WorkPc → Type 0
  IsIn p = (a : ℕ) → Placed s next a (with_thread a (o a) p)

  -- The turn is no crash, and leaves the tally tidy.
  abbrev pub StaysTidy : WorkTurn → Type 0
  StaysTidy waits = Unit {0}
  StaysTidy crashes = ⊥
  StaysTidy (steps t q) = Stays t q

  not_freed :
      (a : ℕ) (p : WorkPc)
      → Stays s p
      → IsIn p
      → 1 ≤ occurrences a s.delay_list + (with_thread a (o a) p).link
      → has a s.freed ≡ false
  not_freed a p v k h = elim (Bool-cases (has a s.freed)) [
    | inr e ↦ e
    | inl e ↦ absurd (omega (arith, (v a).live, (k a).once, h, occurrences-has a s.freed e))
  ]

  neighbour :
      (q : Option ℕ) (p : WorkPc)
      → Stays s p
      → IsIn p
      → ((a : ℕ) → at a q ≤ occurrences a s.delay_list)
      → is_freed q s.freed ≡ false
  neighbour q p v k h =
      is_freed-live q s.freed λ a. omega (arith, (v a).live, (k a).once, (v a).in_hand, h a)

  link_work-StaysTidy :
      (w : ℕ) → Stays s (add_link w) → IsIn (add_link w) → StaysTidy (link_work w s add_leave)
  unfolding link_work
  link_work-StaysTidy w v k =
      rw safe λ a. ground (arith, v a, k a, apart a, occurrences-list_del a w s.unlinked)
    where
      safe : bad_link w s ≡ false
      safe = ground (
        arith,
        not_freed w (add_link w) v k (ground arith),
        neighbour (first_of s.delay_list) (add_link w) v k λ a. first_of-at a s.delay_list,
      )

  safe_unlink :
      (w : ℕ) (p : WorkPc)
      → Stays s p
      → IsIn p
      → 1 ≤ occurrences w s.delay_list
      → bad_unlink w s ≡ false
  safe_unlink w p v k h = ground (
    arith,
    not_freed w p v k (omega (arith, h)),
    linked,
    neighbour (next_of w s.delay_list) p v k λ a. next_of-at a w s.delay_list,
    neighbour (prev_of w s.delay_list) p v k λ a. omega (arith, prev_from-at a none w s.delay_list),
  )
    where
      linked : has w s.unlinked ≡ false
      linked = elim (Bool-cases (has w s.unlinked)) [
        | inr e ↦ e
        | inl e ↦ absurd (omega (arith, (v w).linked_once, h, occurrences-has w s.unlinked e))
      ]

  sweep_unlink-StaysTidy :
      (w : ℕ) (q : Option ℕ)
      → s.flushing ≡ true
      → Stays s (sweep_unlink w q)
      → IsIn (sweep_unlink w q)
      → StaysTidy (unlink_work w s (sweep_now w q))
  unfolding unlink_work
  sweep_unlink-StaysTidy w q f v k =
      rw (safe_unlink w (sweep_unlink w q) v k (ground (arith, (v w).pointed)))
        λ a. ground (arith, v a, k a, apart a, f, occurrences-list_del a w s.delay_list)

  run_unlink-StaysTidy :
      (w : ℕ)
      → Stays s (run_unlink w)
      → IsIn (run_unlink w)
      → StaysTidy (unlink_work w s (run_free w))
  unfolding unlink_work
  run_unlink-StaysTidy w v k =
      rw (safe_unlink w (run_unlink w) v k (ground (arith, (v w).unlink_linked)))
        λ a. ground (arith, v a, k a, apart a, occurrences-list_del a w s.delay_list)

  aim-StaysTidy :
      (q : Option ℕ)
      → s.flushing ≡ true
      → Stays s sweep_drain
      → IsIn sweep_drain
      → ((a : ℕ) → at a q ≤ occurrences a s.delay_list)
      → StaysTidy (aim q s)
  unfolding aim
  aim-StaysTidy none f v k h = v
  aim-StaysTidy (some w) f v k h =
      rw (safe) λ a.
        ground (arith, v a, k a, apart a, f, h a, prev_from-points a w none s.delay_list linked)
    where
      linked : 1 ≤ occurrences w s.delay_list
      linked = ground (arith, h w)

      safe : has w s.freed ≡ false
      safe = neighbour (some w) sweep_drain v k h

  flagged : (p : WorkPc) → IsIn p → marks p ≡ 1 → s.flushing ≡ true
  flagged p k e = elim (Bool-cases s.flushing) [
    | inl f ↦ f
    | inr f ↦ absurd (ground (arith, (k 0).marked))
  ]

  -- No turn crashes, and every turn leaves the tally tidy, if nothing runs when a call gets `wq_sem`.
  pub work_step-StaysTidy :
      (p : WorkPc) → Stays s p → IsIn p → Entering p s → StaysTidy (work_step p s)
  unfolding work_step
  work_step-StaysTidy idle v k e = tt
  work_step-StaysTidy (add_enter w) v k e = elim (Bool-cases (s.wq_sem == 0)) [
    | inl z ↦ rw z tt
    | inr z ↦ rw z λ a. ground (arith, v a, k a, apart a, ap (occurrences a) e)
  ]
  work_step-StaysTidy sweep_enter v k e = elim (Bool-cases (s.wq_sem == 0)) [
    | inl z ↦ rw z tt
    | inr z ↦ rw z λ a. ground (arith, v a, k a, apart a, ap (occurrences a) e)
  ]
  work_step-StaysTidy (add_queue w) v k e = λ a. ground (arith, v a, k a, apart a)
  work_step-StaysTidy (add_link w) v k e = link_work-StaysTidy w v k
  work_step-StaysTidy add_leave v k e = λ a. ground (arith, v a, k a, apart a)
  work_step-StaysTidy sweep_leave v k e = λ a. ground (arith, v a, k a, apart a)
  work_step-StaysTidy sweep_mark v k e = λ a. ground (arith, v a, k a, apart a)
  work_step-StaysTidy sweep_start v k e =
      aim-StaysTidy (last_of s.delay_list) (flagged sweep_start k refl) v k
        λ a. last_of-at a s.delay_list
  work_step-StaysTidy (sweep_unlink w q) v k e =
      sweep_unlink-StaysTidy w q (flagged (sweep_unlink w q) k refl) v k
  work_step-StaysTidy (sweep_now w q) v k e = rw safe λ a. ground (arith, v a, k a, apart a)
    where
      safe : has w s.freed ≡ false
      safe = elim (Bool-cases (has w s.freed)) [
        | inr f ↦ f
        | inl f ↦ absurd (ground (arith, v w, k w, apart w, occurrences-has w s.freed f))
      ]
  work_step-StaysTidy (sweep_wait w q) v k e =
      elim (Bool-cases (has w s.queued || has w s.running)) [
        | inl b ↦ rw b tt
        | inr b ↦ rw b (
            aim-StaysTidy q (flagged (sweep_wait w q) k refl)
              (λ a. ground (arith, v a, k a, apart a, occurrences-has_not w s.queued))
              (λ a. ground (arith, k a)) λ a. ground (arith, v a))
      ]
  work_step-StaysTidy sweep_drain v k e = drained s.running refl
    where
      drained : (ws : List ℕ) → s.running ≡ ws → StaysTidy (drain s ws)
      drained [] r = λ a. ground (arith, v a, k a, apart a, ap (occurrences a) r)
      drained (w ∷ ws) r = tt
  work_step-StaysTidy sweep_clear v k e = λ a. ground (arith, v a, k a, apart a)
  work_step-StaysTidy (run_test w) v k e = tested s.flushing refl
    where
      tested :
          (b : Bool)
          → s.flushing ≡ b
          → StaysTidy (if b then steps s (run_free w) else steps s (run_unlink w))
      tested true f = λ a. ground (arith, v a, k a, apart a)
      tested false f = λ a. ground (arith, v a, k a, apart a)
  work_step-StaysTidy (run_unlink w) v k e = run_unlink-StaysTidy w v k
  work_step-StaysTidy (run_free w) v k e = λ a. ground (arith, v a, k a, apart a)
