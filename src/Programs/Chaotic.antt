-- ===== src/Programs/Chaotic.antt =====
-- lib/mt_ordinary_chaotic.c: threads that write, read, wake and sleep at will, and a program that then
-- reads what it takes to remain.
--
-- A thread goes on by one call of the library, or one access to `remaining_messages`, at a time; a
-- schedule names the thread whose turn it is. What `rand` gives is an argument. A thread that goes to bed puts the
-- barrier up, and in each turn in which it sleeps it finds the barrier up and sleeps on, or down and goes; the barrier
-- comes down where a thread or the program awakens it (Device/Barrier has the steps between). The program
-- waits for its threads: where a schedule does not bring them all to their end, it has not ended either. Threads can
-- be joined, and those of a program that cannot create them all end with it.
pub mod Tally
pub mod Ends
pub mod Logs
use aosv_project.Prelude.{
  ℕ, zero, suc, ◌+◌, ◌-◌, Bool, true, false, List, [], ◌∷◌, ◌++◌, Option, none, some, ◌&&◌, ◌==◌,
  leb, ltb, ℤ, pos, negsuc, is_negative, if◌then◌else◌,
}
use aosv_project.Prelude.Bytes.{take}
use aosv_project.Programs.{
  Library, Line, opened, closed, open_error, child_error, written, write_error, read_error,
  bytes_read, no_more, Stage, stage, before, read_loop, message_size,
}
use aosv_project.Programs.Workers.{here_text, children}

-- What a thread draws, and the number that `gettid` gives it.
pub record Drawn : Type 0 where
  pub tid : ℕ
  pub to_write : ℕ
  pub to_read : ℕ
  pub to_awake : ℕ
  pub to_sleep : ℕ

-- Where a thread is; `stores` has what it has loaded of `remaining_messages`. The loops have the rounds
-- that are left, and the number of the next.
pub data Doing : Type 0 where
  loads : Doing
  stores : ℤ → Doing
  writes reads : (left i : ℕ) → Doing
  wakes beds asleep ended : Doing

-- A sum and a difference of an `int` and what `rand` gives.
abbrev pub plus : ℤ → ℕ → ℤ
plus (pos m) n = pos (m + n)
plus (negsuc m) n = if ltb m n then pos (n - m - 1) else negsuc (m - n)

abbrev pub minus : ℤ → ℕ → ℤ
minus (pos m) n = if leb n m then pos (m - n) else negsuc (n - m - 1)
minus (negsuc m) n = negsuc (m + n)

-- The rounds of a loop up to an `int`.
abbrev pub rounds : ℤ → ℕ
rounds (pos n) = n
rounds (negsuc n) = 0

-- A thread after a turn, `remaining_messages`, whether the barrier is up, its lines, and the world.
pub record Turned (S : Type 0) : Type 0 where
  pub doing : Doing
  pub remaining : ℤ
  pub barrier : Bool
  pub lines : List Line
  pub world : S

pub record Runner : Type 0 where
  pub drawn : Drawn
  pub doing : Doing

-- All threads, with `remaining_messages`, whether the barrier is up, the lines so far, and the world.
pub record Chaos (S : Type 0) : Type 0 where
  pub runners : List Runner
  pub remaining : ℤ
  pub barrier : Bool
  pub lines : List Line
  pub world : S

abbrev pub turned : {S : Type 0} → Doing → ℤ → Bool → List Line → S → Turned S
turned d r b ls s = record { doing = d; remaining = r; barrier = b; lines = ls; world = s }

module _ {S : Type 0} (lib : Library S) (fd : ℤ) where
  unfoldable pub send_one : Drawn → (left i : ℕ) → ℤ → Bool → S → Turned S
  send_one c left i r b s =
      let a = lib.send_message fd (here_text c.tid) s in
      if is_negative a.0
      then turned ended r b (write_error i ∷ []) a.1
      else turned (writes left (i + 1)) r b (written (here_text c.tid) ∷ []) a.1

  unfoldable pub read_one : Drawn → (left i : ℕ) → ℤ → Bool → S → Turned S
  read_one c left i r b s =
      let a = lib.retrieve_message fd message_size s in
      elim a.0.0 [
        | negsuc n ↦ turned ended r b (read_error i ∷ []) a.1
        | pos zero ↦ turned wakes r b (no_more ∷ []) a.1
        | pos (suc n) ↦ turned (reads left (i + 1)) r b (bytes_read (pos (suc n)) a.0.1 ∷ []) a.1
      ]

  unfoldable pub run_turn : Drawn → Doing → ℤ → Bool → S → Turned S
  unfolding send_one read_one
  run_turn c loads r b s = turned (stores r) r b [] s
  run_turn c (stores q) r b s =
      turned (writes c.to_write 0) (minus (plus q c.to_write) c.to_read) b [] s
  run_turn c (writes zero i) r b s = turned (reads c.to_read 0) r b [] s
  run_turn c (writes (suc left) i) r b s = send_one c left i r b s
  run_turn c (reads zero i) r b s = turned wakes r b [] s
  run_turn c (reads (suc left) i) r b s = read_one c left i r b s
  run_turn c wakes r b s =
      if c.to_awake == 0
      then turned beds r false [] (lib.awake_barrier fd s)
      else turned beds r b [] s
  run_turn c beds r b s =
      if c.to_sleep == 0 then turned ended r b [] s else turned asleep r true [] s
  run_turn c asleep r b s = turned (if b then asleep else ended) r b [] s
  run_turn c ended r b s = turned ended r b [] s

  -- The thread with the number `i`.
  unfoldable pub turn_at : (i : ℕ) → List Runner → ℤ → Bool → S → List Runner × Turned S
  unfolding run_turn
  turn_at i [] r b s = ([], turned ended r b [] s)
  turn_at zero (a ∷ others) r b s =
      let t = run_turn a.drawn a.doing r b s in (record a { doing = t.doing } ∷ others, t)
  turn_at (suc i) (a ∷ others) r b s = let t = turn_at i others r b s in (a ∷ t.0, t.1)

  unfoldable pub chaos_turn : (i : ℕ) → Chaos S → Chaos S
  unfolding turn_at
  chaos_turn i c =
      let t = turn_at i c.runners c.remaining c.barrier c.world in
      record {
        runners = t.0;
        remaining = t.1.remaining;
        barrier = t.1.barrier;
        lines = c.lines ++ t.1.lines;
        world = t.1.world;
      }

  unfoldable pub chaos_turns : List ℕ → Chaos S → Chaos S
  unfolding chaos_turn
  chaos_turns [] c = c
  chaos_turns (i ∷ is) c = chaos_turns is (chaos_turn i c)

abbrev pub has_ended : Doing → Bool
has_ended ended = true
has_ended d = false

abbrev pub all_ended : List Runner → Bool
all_ended [] = true
all_ended (a ∷ others) = has_ended a.doing && all_ended others

abbrev pub starting : List Drawn → List Runner
starting [] = []
starting (c ∷ cs) = record { drawn = c; doing = loads } ∷ starting cs

module _ {S : Type 0} (lib : Library S) (fd : ℤ) where
  -- The threads until the program has woken the barrier, and then until they have ended.
  unfoldable pub run_chaos : (first second : List ℕ) → List Drawn → S → Chaos S
  unfolding chaos_turns
  run_chaos first second cs s =
      let a = chaos_turns lib fd first (record {
        runners = starting cs;
        remaining = pos 0;
        barrier = false;
        lines = [];
        world = s;
      }) in
      chaos_turns lib fd second (record a {
        barrier = false;
        world = lib.sleep 1 (lib.awake_barrier fd (lib.sleep 5 a.world));
      })

  -- With the group open, and all threads created.
  unfoldable pub chaotic_opened : (first second : List ℕ) → List Drawn → S → Option (Stage S)
  unfolding run_chaos read_loop
  chaotic_opened first second cs s =
      let b = run_chaos first second cs s in
      let e = read_loop lib fd (rounds b.remaining) 0 (lib.sleep 5 b.world) in
      if all_ended b.runners
      then some (
          stage true (opened 0 fd ∷ ((b.lines ++ e.lines) ++ closed 0 fd ∷ []))
            (lib.close_group fd e.world))
      else none

  -- Where a thread cannot be created, the program closes the group and ends, wherever the others are.
  unfoldable pub chaotic_cut : (created : ℕ) (first : List ℕ) → List Drawn → S → Stage S
  unfolding chaos_turns
  chaotic_cut created first cs s =
      let a = chaos_turns lib fd first (record {
        runners = starting (take created cs);
        remaining = pos 0;
        barrier = false;
        lines = [];
        world = s;
      }) in
      stage true (opened 0 fd ∷ (a.lines ++ child_error ∷ closed 0 fd ∷ []))
        (lib.close_group fd a.world)

unfoldable pub mt_ordinary_chaotic :
    {S : Type 0}
    → Library S
    → (created : ℕ) (first second : List ℕ) → List Drawn
    → S
    → Option (Stage S)
unfolding chaotic_opened chaotic_cut
mt_ordinary_chaotic lib created first second cs s =
    let r = lib.open_group 0 s in
    if is_negative r.0
    then some (stage true (open_error ∷ []) r.1)
    else (if leb children created
        then chaotic_opened lib r.0 first second cs r.1
        else some (chaotic_cut lib r.0 created first cs r.1))
