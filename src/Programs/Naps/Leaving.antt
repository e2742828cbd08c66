-- ===== src/Programs/Naps/Leaving.antt =====
-- What the steps of the children do to the barrier, before and after it is taken down.
use aosv_project.Prelude.{
  ◌+◌, ◌≤◌, ℕ, ◌<◌, ◌≡◌, ◌∙◌, refl, ap, true, false, List, [], ◌∷◌, ◌&&◌, ◌||◌, ◌==◌, leb, has,
  arith, Bool-cases, inl, inr,
}
use aosv_project.Device.{GroupDev}
use aosv_project.Device.Barrier.{
  Phase, away, first_test, entering, second_test, asleep, woken, thread, take_down, test_queue,
  wake_up, move, up, next_dev,
}
use aosv_project.Device.Barrier.Waking.{IsTidy, move-IsTidy, take_down-up}
use aosv_project.Programs.Naps.{Naps, is_away, nap_turn, nap_turns, awaken}

module _ (count : ℕ) where
  -- While the children make their calls.
  pub record IsCalling (n : Naps) : Type 0 where
    pub tidy : IsTidy n.barrier
    pub none_wakes : n.barrier.wakers + n.barrier.rousers ≡ 0

  nap_turn-IsCalling : (i : ℕ) (n : Naps) → IsCalling n → IsCalling (nap_turn count i n)
  unfolding nap_turn move
  nap_turn-IsCalling i n v =
      elim (Bool-cases (leb count i || (n.called i && is_away (n.barrier.threads i)))) [
        | inl e ↦ rw e v
        | inr e ↦ rw e (record {
          tidy = move-IsTidy (thread i) n.barrier tt v.tidy;
          none_wakes = v.none_wakes;
        })
      ]

  pub nap_turns-IsCalling :
      (is : List ℕ) (n : Naps) → IsCalling n → IsCalling (nap_turns count is n)
  unfolding nap_turns
  nap_turns-IsCalling [] n v = v
  nap_turns-IsCalling (i ∷ is) n v =
      nap_turns-IsCalling is (nap_turn count i n) (nap_turn-IsCalling i n v)

  -- Who is named in the schedule calls, and who has called has.
  nap_turn-called :
      (i j : ℕ) (n : Naps)
      → j < count
      → ((i == j) || n.called j) ≡ true
      → (nap_turn count i n).called j ≡ true
  unfolding nap_turn
  nap_turn-called i j n small h = ground arith

  pub nap_turns-called :
      (is : List ℕ) (j : ℕ) (n : Naps)
      → j < count
      → (has j is || n.called j) ≡ true
      → (nap_turns count is n).called j ≡ true
  unfolding nap_turns
  nap_turns-called [] j n small h = h
  nap_turns-called (i ∷ is) j n small h =
      nap_turns-called is j (nap_turn count i n) small (ground (arith, nap_turn-called i j n small))

  -- Once the barrier is down, and while `wakers` are about to test the queue, and `rousers` to wake it at
  -- most.
  pub record IsLeaving (wakers rousers : ℕ) (n : Naps) : Type 0 where
    pub tidy : IsTidy n.barrier
    pub down : up n.barrier.dev ≡ false
    pub tests : n.barrier.wakers ≡ wakers
    pub wakes : n.barrier.rousers ≤ rousers
    pub all_called : (j : ℕ) → j < count → n.called j ≡ true

  -- The only children left to step are in their call, and do not put the barrier up.
  next_dev-same : (φ : Phase) (d : GroupDev) → is_away φ ≡ false → next_dev φ d ≡ d
  next_dev-same away d e = ground arith
  next_dev-same first_test d e = refl
  next_dev-same entering d e = refl
  next_dev-same second_test d e = refl
  next_dev-same asleep d e = refl
  next_dev-same woken d e = refl

  pub nap_turn-IsLeaving :
      (w r i : ℕ) (n : Naps) → IsLeaving w r n → IsLeaving w r (nap_turn count i n)
  unfolding nap_turn move
  nap_turn-IsLeaving w r i n v =
      elim (Bool-cases (leb count i || (n.called i && is_away (n.barrier.threads i)))) [
        | inl e ↦ rw e v
        | inr e ↦ rw e (record {
          tidy = move-IsTidy (thread i) n.barrier tt v.tidy;
          down =
              ap up
                (next_dev-same (n.barrier.threads i) n.barrier.dev (ground (arith, v.all_called i)))
              ∙ v.down;
          tests = v.tests;
          wakes = v.wakes;
          all_called = λ j h. ground (arith, v.all_called j h);
        })
      ]

  pub nap_turns-IsLeaving :
      (w r : ℕ) (is : List ℕ) (n : Naps) → IsLeaving w r n → IsLeaving w r (nap_turns count is n)
  unfolding nap_turns
  nap_turns-IsLeaving w r [] n v = v
  nap_turns-IsLeaving w r (i ∷ is) n v =
      nap_turns-IsLeaving w r is (nap_turn count i n) (nap_turn-IsLeaving w r i n v)

  pub awaken-IsLeaving :
      (between : List ℕ × List ℕ) (n : Naps)
      → IsCalling n
      → ((j : ℕ) → j < count → n.called j ≡ true)
      → IsLeaving 0 0 (awaken count between n)
  unfolding awaken move
  awaken-IsLeaving between n v all =
      let down = nap_turns count between.0 (record n { barrier = move take_down n.barrier }) in
      let l =
        nap_turns-IsLeaving 1 0 between.0 (record n { barrier = move take_down n.barrier })
          (record {
            tidy = move-IsTidy take_down n.barrier tt v.tidy;
            down = take_down-up n.barrier v.tidy;
            tests = omega (arith, v.none_wakes);
            wakes = omega (arith, v.none_wakes);
            all_called = all;
          }) in
      let tested =
        nap_turns count between.1 (record down { barrier = move test_queue down.barrier }) in
      let t =
        nap_turns-IsLeaving 0 1 between.1 (record down { barrier = move test_queue down.barrier })
          (record {
            tidy = move-IsTidy test_queue down.barrier tt l.tidy;
            down = ground (arith, l.down, l.tests);
            tests = ground (arith, l.tests);
            wakes = ground (arith, l.tests, l.wakes);
            all_called = l.all_called;
          }) in
      record {
        tidy = move-IsTidy wake_up tested.barrier tt t.tidy;
        down = ground (arith, t.down, t.wakes);
        tests = ground (arith, t.tests);
        wakes = ground (arith, t.wakes);
        all_called = t.all_called;
      }
