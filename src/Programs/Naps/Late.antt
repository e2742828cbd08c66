-- ===== src/Programs/Naps/Late.antt =====
-- A child that calls `sleep_on_barrier` only after the program's `awake_barrier`.
use aosv_project.Prelude.{
  ℕ, zero, suc, ◌≤◌, ◌<◌, ◌≡◌, ◌⊎◌, ◌∙◌, refl, sym, ap, true, false, List, [], ◌∷◌, none, ◌&&◌,
  ◌||◌, ◌==◌, leb, ℤ, is_negative, if◌then◌else◌, has, arith, Bool-cases, inl, inr,
}
use aosv_project.Device.{GroupDev}
use aosv_project.Device.Barrier.{
  Phase, away, first_test, entering, second_test, asleep, woken, thread, take_down, test_queue,
  wake_up, deserted, move, up, next_dev,
}
use aosv_project.Device.Barrier.Waking.{
  IsTidy, deserted-IsTidy, move-IsTidy, waits, set_barrier-up, after-waits,
}
use aosv_project.Programs.Workers.{children}
use aosv_project.Programs.Naps.{
  Naps, is_away, nap_turn, nap_turns, awaken, finish_naps, returned, all_returned, naps, nap_parent,
  sleep_main, mp_sleep, unslept,
}

module _ (count i : ℕ) where
  -- The child has not called.
  record HasNotCalled (n : Naps) : Type 0 where
    tidy : IsTidy n.barrier
    not_called : n.called i ≡ false
    is_out : n.barrier.threads i ≡ away

  -- The child has not called, or the barrier is up and it waits.
  record IsLate (n : Naps) : Type 0 where
    tidy : IsTidy n.barrier
    waiting :
        ((n.called i ≡ false) × (n.barrier.threads i ≡ away))
        ⊎ ((up n.barrier.dev ≡ true) × (waits (n.barrier.threads i) ≡ true))

  nap_turn-HasNotCalled :
      (j : ℕ) (n : Naps) → (j == i) ≡ false → HasNotCalled n → HasNotCalled (nap_turn count j n)
  unfolding nap_turn move
  nap_turn-HasNotCalled j n h v =
      elim (Bool-cases (leb count j || (n.called j && is_away (n.barrier.threads j)))) [
        | inl e ↦ rw e v
        | inr e ↦ rw e (record {
          tidy = move-IsTidy (thread j) n.barrier tt v.tidy;
          not_called = ground (arith, v.not_called);
          is_out = ground (arith, v.is_out);
        })
      ]

  nap_turns-HasNotCalled :
      (js : List ℕ) (n : Naps)
      → has i js ≡ false
      → HasNotCalled n
      → HasNotCalled (nap_turns count js n)
  unfolding nap_turns
  nap_turns-HasNotCalled [] n h v = v
  nap_turns-HasNotCalled (j ∷ js) n h v =
      nap_turns-HasNotCalled js (nap_turn count j n) (ground arith)
        (nap_turn-HasNotCalled j n (ground arith) v)

  awaken-HasNotCalled :
      (between : List ℕ × List ℕ) (n : Naps)
      → (has i between.0 ≡ false) × (has i between.1 ≡ false)
      → HasNotCalled n
      → HasNotCalled (awaken count between n)
  unfolding awaken move
  awaken-HasNotCalled between n h v =
      let down = nap_turns count between.0 (record n { barrier = move take_down n.barrier }) in
      let d =
        nap_turns-HasNotCalled between.0 (record n { barrier = move take_down n.barrier }) h.0
          (record {
            tidy = move-IsTidy take_down n.barrier tt v.tidy;
            not_called = v.not_called;
            is_out = v.is_out;
          }) in
      let tested =
        nap_turns count between.1 (record down { barrier = move test_queue down.barrier }) in
      let t =
        nap_turns-HasNotCalled between.1 (record down { barrier = move test_queue down.barrier })
          h.1
          (record {
            tidy = move-IsTidy test_queue down.barrier tt d.tidy;
            not_called = d.not_called;
            is_out = ground (arith, d.is_out);
          }) in
      record {
        tidy = move-IsTidy wake_up tested.barrier tt t.tidy;
        not_called = t.not_called;
        is_out = ground (arith, t.is_out);
      }

  -- The first step of its call puts the barrier up.
  calls-IsLate :
      (j : ℕ) (n : Naps)
      → IsTidy n.barrier
      → n.called i ≡ false
      → n.barrier.threads i ≡ away
      → IsLate (record {
        barrier = move (thread j) n.barrier;
        called = λ k. if k == j then true else n.called k;
      })
  unfolding move
  calls-IsLate j n v c a = elim (Bool-cases (i == j)) [
    | inr e ↦ record {
      tidy = move-IsTidy (thread j) n.barrier tt v;
      waiting = inl (ground arith, ground arith);
    }
    | inl e ↦
        let same : i ≡ j = ground arith in
        let out : n.barrier.threads j ≡ away = ap n.barrier.threads (sym same) ∙ a in
        record {
          tidy = move-IsTidy (thread j) n.barrier tt v;
          waiting = inr (
            ap (λ φ. up (next_dev φ n.barrier.dev)) out ∙ (set_barrier-up n.barrier.dev v.byte).0,
            ground arith,
          );
        }
  ]

  nap_turn-IsLate : (j : ℕ) (n : Naps) → IsLate n → IsLate (nap_turn count j n)
  unfolding nap_turn move
  nap_turn-IsLate j n v =
      elim (Bool-cases (leb count j || (n.called j && is_away (n.barrier.threads j)))) [
        | inl e ↦ rw e v
        | inr e ↦ rw e (elim (v.waiting) [
          | inl (c, a) ↦ calls-IsLate j n v.tidy c a
          | inr (u, w) ↦
              let r = after-waits j (n.barrier.threads j) n.barrier i refl v.tidy.byte u w in
              record { tidy = move-IsTidy (thread j) n.barrier tt v.tidy; waiting = inr (r.1, r.2) }
        ])
      ]

  nap_turns-IsLate : (js : List ℕ) (n : Naps) → IsLate n → IsLate (nap_turns count js n)
  unfolding nap_turns
  nap_turns-IsLate [] n v = v
  nap_turns-IsLate (j ∷ js) n v = nap_turns-IsLate js (nap_turn count j n) (nap_turn-IsLate j n v)

  finish_naps-IsLate : (left : ℕ) (n : Naps) → IsLate n → IsLate (finish_naps count left n)
  unfolding finish_naps
  finish_naps-IsLate zero n v = v
  finish_naps-IsLate (suc left) n v =
      finish_naps-IsLate left (nap_turns count (left ∷ left ∷ left ∷ []) n)
        (nap_turns-IsLate (left ∷ left ∷ left ∷ []) n v)

  waits-is_away : (φ : Phase) → waits φ ≡ true → is_away φ ≡ false
  waits-is_away away w = ground arith
  waits-is_away first_test w = refl
  waits-is_away entering w = refl
  waits-is_away second_test w = refl
  waits-is_away asleep w = refl
  waits-is_away woken w = refl

  IsLate-returned : (n : Naps) → IsLate n → returned i n ≡ false
  IsLate-returned n v = elim (v.waiting) [
    | inl (c, a) ↦ ground arith
    | inr (u, w) ↦ ground (arith, waits-is_away (n.barrier.threads i) w)
  ]

  all_returned-false :
      (left : ℕ) (n : Naps) → i < left → returned i n ≡ false → all_returned left n ≡ false
  all_returned-false zero n l h = absurd (omega arith)
  all_returned-false (suc left) n l h = elim (Bool-cases (i == left)) [
    | inl e ↦
        let same : i ≡ left = ground arith in
        let off : returned left n ≡ false = ap (λ k. returned k n) (sym same) ∙ h in rw off refl
    | inr e ↦ elim (Bool-cases (returned left n)) [
      | inl b ↦ rw b (all_returned-false left n (ground arith) h)
      | inr b ↦ rw b refl
    ]
  ]

  naps-late :
      (before : List ℕ) (between : List ℕ × List ℕ) (after : List ℕ) (n : Naps)
      → i < count
      → has i before ≡ false
      → (has i between.0 ≡ false) × (has i between.1 ≡ false)
      → HasNotCalled n
      → all_returned count (naps count before between after n) ≡ false
  unfolding naps
  naps-late before between after n l h g v =
      let first = nap_turns count before n in
      let woke = awaken count between first in
      let w = awaken-HasNotCalled between first g (nap_turns-HasNotCalled before n h v) in
      let last = nap_turns count after woke in
      let late = finish_naps-IsLate count last (
        nap_turns-IsLate after woke
          (record { tidy = w.tidy; waiting = inl (w.not_called, w.is_out) })) in
      all_returned-false count (finish_naps count count last) l
        (IsLate-returned (finish_naps count count last) late)

uncalled :
    (count i : ℕ) (d : GroupDev) → d.flags < 256 → HasNotCalled count i (unslept (deserted d))
uncalled count i d byte = record { tidy = deserted-IsTidy d byte; not_called = refl; is_out = refl }

-- If a child of lib/mp_sleep.c takes its first step after the program's `awake_barrier`, on a device on
-- whose barrier no thread is, then the program does not end, whatever the order of the steps.
pub mp_sleep-hangs :
    (fd : ℤ) (created i : ℕ) (before : List ℕ) (between : List ℕ × List ℕ) (after : List ℕ)
    (d : GroupDev)
    → is_negative fd ≡ false
    → children ≤ created
    → d.flags < 256
    → i < children
    → has i before ≡ false
    → (has i between.0 ≡ false) × (has i between.1 ≡ false)
    → mp_sleep fd created before between after (unslept (deserted d)) ≡ none
unfolding mp_sleep nap_parent
mp_sleep-hangs fd created i before between after d is_open enough byte small h g = ground (
  arith,
  naps-late children i before between after (unslept (deserted d)) small h g
      (uncalled children i d byte),
)

-- The same for the child of lib/sleep.c.
pub sleep_main-hangs :
    (fd : ℤ) (before : List ℕ) (between : List ℕ × List ℕ) (after : List ℕ) (d : GroupDev)
    → is_negative fd ≡ false
    → d.flags < 256
    → has 0 before ≡ false
    → (has 0 between.0 ≡ false) × (has 0 between.1 ≡ false)
    → sleep_main fd true before between after (unslept (deserted d)) ≡ none
unfolding sleep_main nap_parent
sleep_main-hangs fd before between after d is_open byte h g = ground (
  arith,
  naps-late 1 0 before between after (unslept (deserted d)) (omega arith) h g (uncalled 1 0 d byte),
)
