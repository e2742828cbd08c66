-- ===== src/Device/Barrier/Waking.antt =====
-- No thread leaves the barrier before it is taken down, no wake-up is lost, and a thread that is woken
-- can fall asleep again.
use aosv_project.Prelude.{
  ap, zero, suc, ◌+◌, ◌-◌, ◌%◌, ℕ, ◌<◌, ◌≡◌, refl, Bool, true, false, ◌||◌, List, [], ◌∷◌, ◌==◌,
  ltb, inl, inr, arith, Bool-cases, has, list_del, list_empty,
}
use aosv_project.Device.{GroupDev}
use aosv_project.Device.Flags.{
  is_barrier_up, set_barrier, clear_barrier, set_barrier_lem, clear_barrier_lem, check_barrier_lem,
}
use aosv_project.Device.Barrier.{
  Phase, away, first_test, entering, second_test, asleep, woken, Barrier, Move, thread, take_down,
  test_queue, wake_up, look_ahead, land, up, move, moves, next_phase, next_dev, next_queue,
  at_phase, roused, lowered, deserted,
}

module _ (d : GroupDev) (byte : d.flags < 256) where
  pub set_barrier-up : (up (set_barrier d) ≡ true) × ((set_barrier d).flags < 256)
  unfolding up set_barrier is_barrier_up
  set_barrier-up =
      ground (arith, set_barrier_lem d.flags byte, check_barrier_lem (d.flags + 1 - d.flags % 2))

  pub clear_barrier-up : (up (clear_barrier d) ≡ false) × ((clear_barrier d).flags < 256)
  unfolding up clear_barrier is_barrier_up
  clear_barrier-up =
      ground (arith, clear_barrier_lem d.flags byte, check_barrier_lem (d.flags - d.flags % 2))

abbrev pub is_asleep : Phase → Bool
is_asleep asleep = true
is_asleep φ = false

abbrev pub waits : Phase → Bool
waits away = false
waits φ = true

abbrev pub in_queue : Phase → Bool
in_queue second_test = true
in_queue asleep = true
in_queue φ = false

-- A sleeping thread has the barrier up, or someone about to test or to wake the queue, and whoever is
-- in the queue stands in it.
pub record IsTidy (s : Barrier) : Type 0 where
  pub byte : s.dev.flags < 256
  pub heard :
      (j : ℕ) → is_asleep (s.threads j) ≡ true → (up s.dev || ltb 0 (s.wakers + s.rousers)) ≡ true
  pub stands : (j : ℕ) → in_queue (s.threads j) ≡ true → has j s.queue ≡ true

pub deserted-IsTidy : (d : GroupDev) → d.flags < 256 → IsTidy (deserted d)
deserted-IsTidy d byte = record {
  byte = byte;
  heard = λ j a. ground arith;
  stands = λ j a. ground arith;
}

-- The others stay in the queue.
has-list_del_other : (i j : ℕ) (l : List ℕ) → (j == i) ≡ false → has j (list_del i l) ≡ has j l
has-list_del_other i j [] e = refl
has-list_del_other i j (x ∷ l) e = ground (arith, has-list_del_other i j l e)

abbrev pub after : ℕ → Phase → Barrier → Barrier
after i φ s = record s {
  dev = next_dev φ s.dev;
  threads = at_phase i (next_phase (up s.dev) φ) s.threads;
  queue = next_queue (up s.dev) φ i s.queue;
}

module _ (i : ℕ) (s : Barrier) (v : IsTidy s) where
  after-stands :
      (φ : Phase)
      → s.threads i ≡ φ
      → (j : ℕ) → in_queue ((after i φ s).threads j) ≡ true
      → has j (after i φ s).queue ≡ true
  after-stands away e j a = ground (arith, v.stands j)
  after-stands first_test e j a = ground (arith, v.stands j)
  after-stands entering e j a = ground (arith, v.stands j)
  after-stands second_test e j a = elim (Bool-cases (j == i)) [
    | inl same ↦ let k : j ≡ i = ground arith in ground (arith, v.stands j, ap s.threads k)
    | inr other ↦ ground (arith, v.stands j, has-list_del_other i j s.queue other)
  ]
  after-stands asleep e j a = elim (Bool-cases (j == i)) [
    | inl same ↦ let k : j ≡ i = ground arith in ground (arith, v.stands j, ap s.threads k)
    | inr other ↦ ground (arith, v.stands j)
  ]
  after-stands woken e j a = ground (arith, v.stands j)

  after-IsTidy : (φ : Phase) → s.threads i ≡ φ → IsTidy (after i φ s)
  after-IsTidy φ e = record {
    byte = (after-tidy φ e).0;
    heard = (after-tidy φ e).1;
    stands = after-stands φ e;
  }
    where
      after-tidy :
          (φ : Phase)
          → s.threads i ≡ φ
          → ((after i φ s).dev.flags < 256)
            × ((j : ℕ)
                → is_asleep ((after i φ s).threads j) ≡ true
                → (up (after i φ s).dev || ltb 0 (s.wakers + s.rousers)) ≡ true)
      after-tidy away e =
          ((set_barrier-up s.dev v.byte).1, λ j a. ground (arith, set_barrier-up s.dev v.byte))
      after-tidy first_test e = (v.byte, λ j a. ground (arith, v.heard j))
      after-tidy entering e = (v.byte, λ j a. ground (arith, v.heard j))
      after-tidy second_test e = (v.byte, λ j a. ground (arith, v.heard j))
      after-tidy asleep e = (v.byte, λ j a. ground (arith, v.heard j))
      after-tidy woken e = (v.byte, λ j a. ground (arith, v.heard j))

-- The store that takes the barrier down is seen before the queue is tested.
abbrev pub InOrder : Move → Type 0
InOrder look_ahead = ⊥
InOrder land = ⊥
InOrder _ = Unit {0}

abbrev pub AllInOrder : List Move → Type 0
AllInOrder [] = Unit {0}
AllInOrder (m ∷ ms) = InOrder m × AllInOrder ms

nobody_left :
    (s : Barrier) → IsTidy s → list_empty s.queue ≡ true → (j : ℕ) → is_asleep (s.threads j) ≡ false
nobody_left s v e j = elim (Bool-cases (is_asleep (s.threads j))) [
  | inr a ↦ a
  | inl a ↦ absurd (ground (arith, v.stands j))
]

pub move-IsTidy : (m : Move) (s : Barrier) → InOrder m → IsTidy s → IsTidy (move m s)
unfolding move
move-IsTidy (thread i) s o v = after-IsTidy i s v (s.threads i) refl
move-IsTidy take_down s o v = record {
  byte = ground (arith, clear_barrier-up s.dev v.byte);
  heard = λ j a. ground arith;
  stands = v.stands;
}
move-IsTidy test_queue s o v = elim (Bool-cases (s.wakers == 0)) [
  | inl e ↦ rw e v
  | inr e ↦ rw e (record {
    byte = v.byte;
    heard = λ j a. elim (Bool-cases (list_empty s.queue)) [
      | inl q ↦ absurd (ground (arith, nobody_left s v q j))
      | inr q ↦ ground (arith, v.heard j a)
    ];
    stands = v.stands;
  })
]
move-IsTidy wake_up s o v = elim (Bool-cases (s.rousers == 0)) [
  | inl e ↦ rw e v
  | inr e ↦ rw e (record {
    byte = v.byte;
    heard = λ j a. absurd (roused_stays (s.threads j) a);
    stands = λ j a. absurd (roused_out (s.threads j) a);
  })
]
  where
    roused_out : (φ : Phase) → in_queue (roused φ) ≡ true → ⊥
    roused_out away e = ground arith
    roused_out first_test e = ground arith
    roused_out entering e = ground arith
    roused_out second_test e = ground arith
    roused_out asleep e = ground arith
    roused_out woken e = ground arith

    roused_stays : (φ : Phase) → is_asleep (roused φ) ≡ true → ⊥
    roused_stays away e = ground arith
    roused_stays first_test e = ground arith
    roused_stays entering e = ground arith
    roused_stays second_test e = ground arith
    roused_stays asleep e = ground arith
    roused_stays woken e = ground arith
move-IsTidy look_ahead s o v = absurd o
move-IsTidy land s o v = absurd o

pub lowered-up : (d : GroupDev) → d.flags < 256 → up (lowered d) ≡ false
unfolding up
lowered-up d byte = elim (Bool-cases (is_barrier_up d == 0)) [
  | inl e ↦ rw e (ground (arith, e))
  | inr e ↦ rw e (clear_barrier-up d byte).0
]

pub take_down-up : (s : Barrier) → IsTidy s → up (move take_down s).dev ≡ false
unfolding move
take_down-up s v = lowered-up s.dev v.byte

-- So many steps of one thread, with no other step in between.
abbrev pub alone : ℕ → ℕ → Barrier → Barrier
alone zero i s = s
alone (suc n) i s = alone n i (move (thread i) s)

-- A list of moves without those that take the barrier down.
abbrev pub LeavesUp : List Move → Type 0
LeavesUp [] = Unit {0}
LeavesUp (take_down ∷ ms) = ⊥
LeavesUp (land ∷ ms) = ⊥
LeavesUp (_ ∷ ms) = LeavesUp ms

pub after-waits :
    (j : ℕ) (φ : Phase) (s : Barrier) (i : ℕ)
    → s.threads j ≡ φ
    → s.dev.flags < 256
    → up s.dev ≡ true
    → waits (s.threads i) ≡ true
    → ((after j φ s).dev.flags < 256)
      × (up (after j φ s).dev ≡ true)
      × (waits ((after j φ s).threads i) ≡ true)
after-waits j away s i e byte u w = ground (arith, set_barrier-up s.dev byte)
after-waits j first_test s i e byte u w = ground arith
after-waits j entering s i e byte u w = ground arith
after-waits j second_test s i e byte u w = ground arith
after-waits j asleep s i e byte u w = ground arith
after-waits j woken s i e byte u w = ground arith

waits-roused : (φ : Phase) → waits φ ≡ true → waits (roused φ) ≡ true
waits-roused second_test w = refl
waits-roused asleep w = refl
waits-roused away w = w
waits-roused first_test w = w
waits-roused entering w = w
waits-roused woken w = w

wake_up-waits :
    (s : Barrier) (i : ℕ)
    → waits (s.threads i) ≡ true
    → ((move wake_up s).dev ≡ s.dev) × (waits ((move wake_up s).threads i) ≡ true)
unfolding move
wake_up-waits s i w = elim (Bool-cases (s.rousers == 0)) [
  | inl e ↦ rw e (refl, w)
  | inr e ↦ rw e (refl, waits-roused (s.threads i) w)
]

-- No thread leaves the barrier on its own: as long as nobody takes the barrier down, whatever steps
-- are taken (and if the flags are a byte), a barrier that is up stays up, and a thread that waits
-- on it goes on waiting.
pub moves-waits :
    (ms : List Move) (s : Barrier) (i : ℕ)
    → s.dev.flags < 256
    → LeavesUp ms
    → up s.dev ≡ true
    → waits (s.threads i) ≡ true
    → (up (moves ms s).dev ≡ true) × (waits ((moves ms s).threads i) ≡ true)
unfolding moves move
moves-waits [] s i byte l u w = (u, w)
moves-waits (take_down ∷ ms) s i byte l u w = absurd l
moves-waits (thread j ∷ ms) s i byte l u w =
    let r = after-waits j (s.threads j) s i refl byte u w in
    moves-waits ms (move (thread j) s) i r.0 l r.1 r.2
moves-waits (land ∷ ms) s i byte l u w = absurd l
moves-waits (test_queue ∷ ms) s i byte l u w =
    moves-waits ms (move test_queue s) i (ground arith) l (ground arith) (ground arith)
moves-waits (look_ahead ∷ ms) s i byte l u w =
    moves-waits ms (move look_ahead s) i (ground arith) l (ground arith) (ground arith)
moves-waits (wake_up ∷ ms) s i byte l u w =
    let r = wake_up-waits s i w in moves-waits ms (move wake_up s) i (rw r.0 byte) l (rw r.0 u) r.1

apart : (threads : ℕ → Phase) (i j : ℕ) → threads i ≡ asleep → threads j ≡ away → (i == j) ≡ false
apart threads i j sleeping calling = elim (Bool-cases (i == j)) [
  | inl e ↦ let same : i ≡ j = ground arith in absurd (ground (arith, ap threads same))
  | inr e ↦ e
]

-- Another thread can hide an awakening: on any device (whose flags are a byte), a thread that
-- sleeps when someone is about to wake the queue is woken, and if a thread that was away calls
-- before the first goes on, the first sleeps again.
pub awakening-hidden :
    (s : Barrier) (i j : ℕ)
    → s.dev.flags < 256
    → s.threads i ≡ asleep
    → s.threads j ≡ away
    → 0 < s.rousers
    → (moves (wake_up ∷ thread j ∷ thread i ∷ thread i ∷ thread i ∷ []) s).threads i ≡ asleep
unfolding moves move
awakening-hidden s i j byte sleeping calling waker =
    ground (arith, set_barrier-up s.dev byte, apart s.threads i j sleeping calling)
