-- ===== src/Programs/Naps/Ends.antt =====
-- Children that sleep in time are woken.
use aosv_project.Prelude.{
  ◌+◌, ◌-◌, ℕ, zero, suc, ◌≤◌, ◌<◌, ◌≡◌, ◌∙◌, refl, ap, true, false, List, [], ◌∷◌, some, ◌&&◌,
  ◌||◌, ◌==◌, leb, ℤ, is_negative, has, arith, Bool-cases, inl, inr,
}
use aosv_project.Device.{GroupDev}
use aosv_project.Device.Barrier.{
  Phase, away, deserted, first_test, entering, second_test, asleep, woken, Barrier, move,
  next_phase,
}
use aosv_project.Device.Barrier.Waking.{IsTidy, is_asleep, deserted-IsTidy}
use aosv_project.Programs.{opened, closed}
use aosv_project.Programs.Workers.{children}
use aosv_project.Programs.Naps.{
  Naps, is_away, nap_turn, nap_turns, awaken, finish_naps, returned, all_returned, naps, nap_parent,
  sleep_main, mp_sleep, unslept,
}
use aosv_project.Programs.Naps.Leaving.{
  IsLeaving, nap_turns-IsCalling, nap_turns-called, nap_turn-IsLeaving, nap_turns-IsLeaving,
  awaken-IsLeaving,
}

module _ (count : ℕ) where
  -- How many steps a child has left at most, when the barrier is down.
  abbrev slack : Phase → ℕ
  slack away = 0
  slack first_test = 1
  slack entering = 2
  slack second_test = 1
  slack asleep = 4
  slack woken = 3

  slack-away : (φ : Phase) → slack φ ≡ 0 → is_away φ ≡ true
  slack-away away e = refl
  slack-away first_test e = ground arith
  slack-away entering e = ground arith
  slack-away second_test e = ground arith
  slack-away asleep e = ground arith
  slack-away woken e = ground arith

  next-slack :
      (φ : Phase) → is_asleep φ ≡ false → is_away φ ≡ false → slack (next_phase false φ) < slack φ
  next-slack away e f = ground arith
  next-slack first_test e f = ground arith
  next-slack entering e f = ground arith
  next-slack second_test e f = ground arith
  next-slack asleep e f = ground arith
  next-slack woken e f = ground arith

  slack-awake : (φ : Phase) → is_asleep φ ≡ false → slack φ ≤ 3
  slack-awake away e = ground arith
  slack-awake first_test e = ground arith
  slack-awake entering e = ground arith
  slack-awake second_test e = ground arith
  slack-awake asleep e = ground arith
  slack-awake woken e = ground arith

  nobody_asleep :
      (n : Naps) → IsLeaving count 0 0 n → (j : ℕ) → is_asleep (n.barrier.threads j) ≡ false
  nobody_asleep n v j = elim (Bool-cases (is_asleep (n.barrier.threads j))) [
    | inr e ↦ e
    | inl e ↦ absurd (ground (arith, v.tidy.heard j e, v.down, v.tests, v.wakes))
  ]

  away-slack : (φ : Phase) → is_away φ ≡ true → slack φ ≡ 0
  away-slack away e = refl
  away-slack first_test e = ground arith
  away-slack entering e = ground arith
  away-slack second_test e = ground arith
  away-slack asleep e = ground arith
  away-slack woken e = ground arith

  -- The child whose turn it is comes closer to its end, and the others stay where they are.
  nap_turn-own :
      (i : ℕ) (n : Naps)
      → IsLeaving count 0 0 n
      → i < count
      → slack ((nap_turn count i n).barrier.threads i) ≤ slack (n.barrier.threads i) - 1
  unfolding nap_turn move
  nap_turn-own i n v small =
      elim (Bool-cases (leb count i || (n.called i && is_away (n.barrier.threads i)))) [
        | inl e ↦
            rw e (
              omega
                (arith, away-slack (n.barrier.threads i) (ground (arith, v.all_called i small))))
        | inr e ↦ rw e (
            ground (
              arith,
              v.down,
              next-slack (n.barrier.threads i) (nobody_asleep n v i)
                  (ground (arith, v.all_called i small)),
            ))
      ]

  nap_turn-other :
      (i j : ℕ) (n : Naps)
      → (j == i) ≡ false
      → (nap_turn count i n).barrier.threads j ≡ n.barrier.threads j
  unfolding nap_turn move
  nap_turn-other i j n h =
      elim (Bool-cases (leb count i || (n.called i && is_away (n.barrier.threads i)))) [
        | inl e ↦ rw e refl
        | inr e ↦ rw e (rw h refl)
      ]

  abbrev thrice : ℕ → List ℕ
  thrice i = i ∷ i ∷ i ∷ []

  thrice-away :
      (i : ℕ) (n : Naps)
      → IsLeaving count 0 0 n
      → i < count
      → is_away ((nap_turns count (thrice i) n).barrier.threads i) ≡ true
  unfolding nap_turns
  thrice-away i n v small =
      let n1 = nap_turn count i n in
      let v1 = nap_turn-IsLeaving count 0 0 i n v in
      let n2 = nap_turn count i n1 in
      let v2 = nap_turn-IsLeaving count 0 0 i n1 v1 in
      slack-away ((nap_turn count i n2).barrier.threads i) (
        omega (
          arith,
          slack-awake (n.barrier.threads i) (nobody_asleep n v i),
          nap_turn-own i n v small,
          nap_turn-own i n1 v1 small,
          nap_turn-own i n2 v2 small,
        ))

  thrice-other :
      (i j : ℕ) (n : Naps)
      → (j == i) ≡ false
      → (nap_turns count (thrice i) n).barrier.threads j ≡ n.barrier.threads j
  unfolding nap_turns
  thrice-other i j n h =
      let n1 = nap_turn count i n in
      let n2 = nap_turn count i n1 in
      nap_turn-other i j n2 h ∙ nap_turn-other i j n1 h ∙ nap_turn-other i j n h

  thrice-stays :
      (i j : ℕ) (n : Naps)
      → IsLeaving count 0 0 n
      → i < count
      → is_away (n.barrier.threads j) ≡ true
      → is_away ((nap_turns count (thrice i) n).barrier.threads j) ≡ true
  thrice-stays i j n v small h = elim (Bool-cases (j == i)) [
    | inl e ↦
        let same : j ≡ i = ground arith in
        ap (λ k. is_away ((nap_turns count (thrice i) n).barrier.threads k)) same
        ∙ thrice-away i n v small
    | inr e ↦ ap is_away (thrice-other i j n e) ∙ h
  ]

  finish_naps-away :
      (left : ℕ) (n : Naps)
      → left ≤ count
      → IsLeaving count 0 0 n
      → IsLeaving count 0 0 (finish_naps count left n)
        × ((j : ℕ) → j < left → is_away ((finish_naps count left n).barrier.threads j) ≡ true)
        × ((j : ℕ)
            → is_away (n.barrier.threads j) ≡ true
            → is_away ((finish_naps count left n).barrier.threads j) ≡ true)
  unfolding finish_naps
  finish_naps-away zero n h v = (v, λ j l. absurd (omega arith), λ j a. a)
  finish_naps-away (suc left) n h v =
      let m = nap_turns count (thrice left) n in
      let (u, low, stay) =
        finish_naps-away left m (omega arith) (nap_turns-IsLeaving count 0 0 (thrice left) n v) in
      (
        u,
        λ j l. elim (Bool-cases (j == left)) [
          | inl e ↦
              let same : j ≡ left = ground arith in
              stay j
                (ap (λ k. is_away (m.barrier.threads k)) same ∙ thrice-away left n v (omega arith))
          | inr e ↦ low j (ground arith)
        ],
        λ j a. stay j (thrice-stays left j n v (omega arith) a),
      )

  all_returned-true :
      (left : ℕ) (n : Naps)
      → ((j : ℕ) → j < left → returned j n ≡ true)
      → all_returned left n ≡ true
  all_returned-true zero n h = refl
  all_returned-true (suc left) n h =
      ground (arith, h left (omega arith), all_returned-true left n λ j l. h j (omega arith))

  naps-return :
      (before : List ℕ) (between : List ℕ × List ℕ) (after : List ℕ) (b : Barrier)
      → IsTidy b
      → b.wakers + b.rousers ≡ 0
      → ((j : ℕ) → j < count → has j before ≡ true)
      → all_returned count (naps count before between after (unslept b)) ≡ true
  unfolding naps
  naps-return before between after b tidy no_waker all =
      let first = nap_turns count before (unslept b) in
      let calling =
        nap_turns-IsCalling count before (unslept b)
          (record { tidy = tidy; none_wakes = no_waker }) in
      let leaving =
        awaken-IsLeaving count between first calling
          λ j l. nap_turns-called count before j (unslept b) l (ground (arith, all j l)) in
      let last = nap_turns count after (awaken count between first) in
      let (u, low, stay) =
        finish_naps-away count last (omega arith)
          (nap_turns-IsLeaving count 0 0 after (awaken count between first) leaving) in
      all_returned-true count (finish_naps count count last)
        λ j l. ground (arith, u.all_called j l, low j l)

-- If each of the children of lib/mp_sleep.c takes a step before the program's `awake_barrier`, on a
-- device on whose barrier no other thread is, and the store that takes the barrier down is seen before the
-- test of the queue, then the program ends, whatever the order of the steps before, between and after
-- the three steps of the awakening: no child waits forever.
pub mp_sleep-ends :
    (fd : ℤ) (created : ℕ) (before : List ℕ) (between : List ℕ × List ℕ) (after : List ℕ)
    (d : GroupDev)
    → is_negative fd ≡ false
    → children ≤ created
    → d.flags < 256
    → ((j : ℕ) → j < children → has j before ≡ true)
    → mp_sleep fd created before between after (unslept (deserted d))
      ≡ some (opened 1 fd ∷ closed 1 fd ∷ [])
unfolding mp_sleep nap_parent
mp_sleep-ends fd created before between after d is_open enough byte all = ground (
  arith,
  naps-return children before between after (deserted d) (deserted-IsTidy d byte) refl all,
)

-- The same for the child of lib/sleep.c.
pub sleep_main-ends :
    (fd : ℤ) (before : List ℕ) (between : List ℕ × List ℕ) (after : List ℕ) (d : GroupDev)
    → is_negative fd ≡ false
    → d.flags < 256
    → has 0 before ≡ true
    → sleep_main fd true before between after (unslept (deserted d))
      ≡ some (opened 1 fd ∷ closed 1 fd ∷ [])
unfolding sleep_main nap_parent
sleep_main-ends fd before between after d is_open byte all = ground (
  arith,
  naps-return 1 before between after (deserted d) (deserted-IsTidy d byte) refl λ j l. ground arith,
)
