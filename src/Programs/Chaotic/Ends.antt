-- ===== src/Programs/Chaotic/Ends.antt =====
-- lib/mt_ordinary_chaotic.c ends once each thread has had its turns, and accounts for its messages.
use aosv_project.Prelude.{
  ℕ, zero, suc, ◌+◌, ◌-◌, ◌≤◌, ◌≡◌, refl, Bool, true, false, ◌||◌, List, [], ◌∷◌, ℤ, pos,
  if◌then◌else◌, ◌==◌, arith, occurrences,
}
use aosv_project.Programs.{Library}
use aosv_project.Programs.Chaotic.{
  Drawn, Doing, loads, stores, writes, reads, wakes, beds, asleep, ended, Turned, Runner, Chaos,
  send_one, read_one, run_turn, turn_at, chaos_turn, chaos_turns, has_ended, all_ended, starting,
  run_chaos, minus, plus,
}
use aosv_project.Programs.Chaotic.Tally.{left_of, all_left_of, all_left_of}

-- How many turns a thread has left at most.
abbrev pub turns_of : Drawn → Doing → ℕ
turns_of c loads = c.to_write + c.to_read + 7
turns_of c (stores q) = c.to_write + c.to_read + 6
turns_of c (writes left i) = left + c.to_read + 5
turns_of c (reads left i) = left + 4
turns_of c wakes = 3
turns_of c beds = 2
turns_of c asleep = 1
turns_of c ended = 0

-- Those of the thread with the number `i`.
abbrev pub turns_at : ℕ → List Runner → ℕ
turns_at i [] = 0
turns_at zero (a ∷ others) = turns_of a.drawn a.doing
turns_at (suc i) (a ∷ others) = turns_at i others

-- Whether a thread has been to bed, or draws not to go.
abbrev pub has_been : Doing → Bool
has_been asleep = true
has_been ended = true
has_been d = false

abbrev pub is_calm : Drawn → Doing → Bool
is_calm c d = (c.to_sleep == 0) || has_been d

abbrev pub AllCalm : List Runner → Type 0
AllCalm [] = Unit {0}
AllCalm (a ∷ others) = (is_calm a.drawn a.doing ≡ true) × AllCalm others

module _ {S : Type 0} (lib : Library S) (fd : ℤ) where
  -- A turn with the barrier down of a thread that does not put it up.
  record Calmly (c : Drawn) (turns : ℕ) (t : Turned S) : Type 0 where
    down : t.barrier ≡ false
    calm : is_calm c t.doing ≡ true
    fewer : turns_of c t.doing ≤ turns - 1

  send_one-Calmly :
      (c : Drawn) (left i : ℕ) (r : ℤ) (s : S)
      → (c.to_sleep == 0) ≡ true
      → Calmly c (suc left + c.to_read + 5) (send_one lib fd c left i r false s)
  unfolding send_one
  send_one-Calmly c left i r s h = record {
    down = ground arith;
    calm = ground arith;
    fewer = ground arith;
  }

  read_one-Calmly :
      (c : Drawn) (left i : ℕ) (r : ℤ) (s : S)
      → (c.to_sleep == 0) ≡ true
      → Calmly c (suc left + 4) (read_one lib fd c left i r false s)
  unfolding read_one
  read_one-Calmly c left i r s h = record {
    down = ground arith;
    calm = ground arith;
    fewer = ground arith;
  }

  run_turn-Calmly :
      (c : Drawn) (d : Doing) (r : ℤ) (s : S)
      → is_calm c d ≡ true
      → Calmly c (turns_of c d) (run_turn lib fd c d r false s)
  unfolding run_turn
  run_turn-Calmly c (writes (suc left) i) r s h = send_one-Calmly c left i r s (ground arith)
  run_turn-Calmly c (reads (suc left) i) r s h = read_one-Calmly c left i r s (ground arith)
  run_turn-Calmly c loads r s h = record {
    down = ground arith;
    calm = ground arith;
    fewer = ground arith;
  }
  run_turn-Calmly c (stores q) r s h = record {
    down = ground arith;
    calm = ground arith;
    fewer = ground arith;
  }
  run_turn-Calmly c (writes zero i) r s h = record {
    down = ground arith;
    calm = ground arith;
    fewer = ground arith;
  }
  run_turn-Calmly c (reads zero i) r s h = record {
    down = ground arith;
    calm = ground arith;
    fewer = ground arith;
  }
  run_turn-Calmly c wakes r s h = record {
    down = ground arith;
    calm = ground arith;
    fewer = ground arith;
  }
  run_turn-Calmly c beds r s h = record {
    down = ground arith;
    calm = ground arith;
    fewer = ground arith;
  }
  run_turn-Calmly c asleep r s h = record {
    down = ground arith;
    calm = ground arith;
    fewer = ground arith;
  }
  run_turn-Calmly c ended r s h = record {
    down = ground arith;
    calm = ground arith;
    fewer = ground arith;
  }

  turn_at-calm :
      (i : ℕ) (rs : List Runner) (r : ℤ) (s : S)
      → AllCalm rs
      → ((turn_at lib fd i rs r false s).1.barrier ≡ false)
        × AllCalm (turn_at lib fd i rs r false s).0
  unfolding turn_at
  turn_at-calm i [] r s h = (refl, tt)
  turn_at-calm zero (a ∷ rs) r s h =
      let t = run_turn-Calmly a.drawn a.doing r s h.0 in (t.down, (t.calm, h.1))
  turn_at-calm (suc i) (a ∷ rs) r s h = let t = turn_at-calm i rs r s h.1 in (t.0, (h.0, t.1))

  turn_at-less :
      (i j : ℕ) (rs : List Runner) (r : ℤ) (s : S)
      → AllCalm rs
      → turns_at j (turn_at lib fd i rs r false s).0 ≤ turns_at j rs - (if i == j then 1 else 0)
  unfolding turn_at
  turn_at-less i j [] r s h = omega arith
  turn_at-less zero zero (a ∷ rs) r s h = (run_turn-Calmly a.drawn a.doing r s h.0).fewer
  turn_at-less zero (suc j) (a ∷ rs) r s h = ground arith
  turn_at-less (suc i) zero (a ∷ rs) r s h = ground arith
  turn_at-less (suc i) (suc j) (a ∷ rs) r s h = ground (arith, turn_at-less i j rs r s h.1)

  chaos_turns-less :
      (is : List ℕ) (j : ℕ) (c : Chaos S)
      → c.barrier ≡ false
      → AllCalm c.runners
      → turns_at j (chaos_turns lib fd is c).runners ≤ turns_at j c.runners - occurrences j is
  unfolding chaos_turns chaos_turn
  chaos_turns-less [] j c down calm = omega arith
  chaos_turns-less (i ∷ is) j c down calm =
      let t = turn_at-calm i c.runners c.remaining c.world calm in
      let l : turns_at j (turn_at lib fd i c.runners c.remaining c.barrier c.world).0
          ≤ turns_at j c.runners - (if i == j then 1 else 0) =
        rw down (turn_at-less i j c.runners c.remaining c.world calm) in
      omega (arith, chaos_turns-less is j (chaos_turn lib fd i c) (rw down t.0) (rw down t.1), l)

  ended_of : (c : Drawn) (d : Doing) → turns_of c d ≡ 0 → has_ended d ≡ true
  ended_of c loads h = absurd (omega arith)
  ended_of c (stores q) h = absurd (omega arith)
  ended_of c (writes left i) h = absurd (omega arith)
  ended_of c (reads left i) h = absurd (omega arith)
  ended_of c wakes h = absurd (omega arith)
  ended_of c beds h = absurd (omega arith)
  ended_of c asleep h = absurd (omega arith)
  ended_of c ended h = refl

  all_ended-true : (rs : List Runner) → ((j : ℕ) → turns_at j rs ≡ 0) → all_ended rs ≡ true
  all_ended-true [] h = refl
  all_ended-true (a ∷ rs) h =
      ground (arith, ended_of a.drawn a.doing (h 0), all_ended-true rs λ j. h (suc j))

  -- The threads when the program awakens them.
  abbrev pub awakened : (first : List ℕ) → List Drawn → S → Chaos S
  awakened first cs s =
      chaos_turns lib fd first (record {
        runners = starting cs;
        remaining = pos 0;
        barrier = false;
        lines = [];
        world = s;
      })

  pub run_chaos-ended :
      (first second : List ℕ) (cs : List Drawn) (s : S)
      → AllCalm (awakened first cs s).runners
      → ((j : ℕ) → turns_at j (awakened first cs s).runners ≤ occurrences j second)
      → all_ended (run_chaos lib fd first second cs s).runners ≡ true
  unfolding run_chaos
  run_chaos-ended first second cs s calm h =
      let a = awakened first cs s in
      let b : Chaos S = record a {
        barrier = false;
        world = lib.sleep 1 (lib.awake_barrier fd (lib.sleep 5 a.world));
      } in
      all_ended-true (chaos_turns lib fd second b).runners
        λ j. omega (arith, h j, chaos_turns-less second j b refl calm)

left_of-ended : (c : Drawn) (d : Doing) → has_ended d ≡ true → left_of c d ≡ 0
left_of-ended c loads h = ground arith
left_of-ended c (stores q) h = ground arith
left_of-ended c (writes left i) h = ground arith
left_of-ended c (reads left i) h = refl
left_of-ended c wakes h = refl
left_of-ended c beds h = refl
left_of-ended c asleep h = refl
left_of-ended c ended h = refl

pub all_left_of-ended : (rs : List Runner) → all_ended rs ≡ true → all_left_of rs ≡ 0
all_left_of-ended [] h = refl
all_left_of-ended (a ∷ rs) h = ground (arith, left_of-ended a.drawn a.doing, all_left_of-ended rs)

-- Two threads that load `remaining_messages` before either stores it: what the first draws is lost.
pub update-lost :
    {S : Type 0} (lib : Library S) (fd : ℤ) (c e : Drawn) (cs : List Drawn) (r : ℤ) (s : S)
    → (chaos_turns lib fd (0 ∷ 1 ∷ 0 ∷ 1 ∷ []) (record {
      runners = starting (c ∷ e ∷ cs);
      remaining = r;
      barrier = false;
      lines = [];
      world = s;
    })).remaining
      ≡ minus (plus r e.to_write) e.to_read
unfolding chaos_turns chaos_turn turn_at run_turn
update-lost lib fd c e cs r s = refl
