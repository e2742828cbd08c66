-- ===== src/Programs/Chaotic/Logs.antt =====
-- lib/mt_ordinary_chaotic.c on a group that behaves as a mail slot, and on an idle group device.
use aosv_project.Prelude.{ℕ, ◌+◌, ◌<◌, ◌^◌, List, [], ◌∷◌, ℤ}
use aosv_project.Mailbox.{Mailbox}
use aosv_project.Programs.{Library, Stage, read_loop}
use aosv_project.Programs.Chaotic.{Drawn, Chaos, run_chaos, rounds}

abbrev pub all_to_write : List Drawn → ℕ
all_to_write [] = 0
all_to_write (c ∷ cs) = c.to_write + all_to_write cs

module _ {S : Type 0} (lib : Library S) (fd : ℤ) (first second : List ℕ) (cs : List Drawn)
    (t : S) where
  -- The threads, and what the program reads after them.
  abbrev pub threads_done : Chaos S
  threads_done = run_chaos lib fd first second cs t

  abbrev pub read_then : Stage S
  read_then = read_loop lib fd (rounds threads_done.remaining) 0 (lib.sleep 5 threads_done.world)

-- The numbers that `gettid` gives are below a million.
abbrev pub AllShort : List Drawn → Type 0
AllShort [] = Unit {0}
AllShort (c ∷ cs) = (c.tid < 10 ^ 6) × AllShort cs
