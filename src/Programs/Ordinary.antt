-- ===== src/Programs/Ordinary.antt =====
-- lib/mt_ordinary.c: threads that take turns by a semaphore, each with a random number of messages to write
-- and to read, and a program that then reads what it takes to remain.
--
-- Between `sem_wait` and `sem_post` no other thread runs, so the threads are a list, in the order in which
-- they take the semaphore. What `rand` gives is an argument. All threads can be joined. A thread that
-- sleeps on the barrier does so after it has posted the semaphore; that sleep (`to_sleep`) is left out.
pub mod Finds
pub mod Remaining
pub mod Logs
use aosv_project.Prelude.{
  leb, min, ℕ, zero, suc, ◌+◌, ◌-◌, ◌==◌, true, false, List, [], ◌∷◌, ◌++◌, Option, none, some,
  is_negative, if◌then◌else◌, list_empty, ℤ,
}
use aosv_project.Prelude.Bytes.{take, drop}
use aosv_project.Programs.{
  child_error, Library, opened, closed, open_error, Stage, stage, before, and_next, write_loop,
  read_loop,
}
use aosv_project.Programs.Workers.{here_text, children}

-- What a thread draws, and the number that `gettid` gives it.
pub record Choice : Type 0 where
  pub tid : ℕ
  pub to_write : ℕ
  pub to_read : ℕ
  pub to_awake : ℕ

abbrev pub total_write : List Choice → ℕ
total_write [] = 0
total_write (c ∷ cs) = c.to_write + total_write cs

abbrev pub total_read : List Choice → ℕ
total_read [] = 0
total_read (c ∷ cs) = c.to_read + total_read cs

-- The variable of that name in the end; a loop up to a negative number has no round.
abbrev pub remaining_messages : List Choice → ℕ
remaining_messages cs = total_write cs - total_read cs

module _ {S : Type 0} (lib : Library S) (fd : ℤ) where
  -- A thread with the semaphore.
  unfoldable pub thread_section : Choice → S → Stage S
  unfolding write_loop read_loop
  thread_section c s = and_next (write_loop lib (λ i. here_text c.tid) fd c.to_write 0 s) λ t.
      and_next (read_loop lib fd c.to_read 0 t)
        λ u. stage true [] (if c.to_awake == 0 then lib.awake_barrier fd u else u)

  -- The threads one after the other. One that fails keeps the semaphore: unless it is the last, the others
  -- and the program wait forever, and the stage does not go well.
  unfoldable pub sections : List Choice → S → Stage S
  unfolding thread_section
  sections [] s = stage true [] s
  sections (c ∷ cs) s =
      let r = thread_section c s in
      let rest = sections cs r.world in
      if r.well then before r.lines rest else stage (list_empty cs) r.lines r.world

  unfoldable pub read_remaining : List Choice → S → Stage S
  unfolding read_loop
  read_remaining cs s =
      read_loop lib fd (remaining_messages cs) 0
        (lib.sleep 1 (lib.awake_barrier fd (lib.sleep 8 s)))

  -- With the group open; `none` where the program does not end.
  unfoldable pub ordinary_opened : List Choice → S → Option (Stage S)
  unfolding sections read_remaining
  ordinary_opened cs s =
      let b = sections cs s in
      let e = read_remaining cs b.world in
      if b.well
      then some (
          stage true (opened 0 fd ∷ ((b.lines ++ e.lines) ++ closed 0 fd ∷ []))
            (lib.close_group fd e.world))
      else none

  -- The first so many writes and reads of a thread with the semaphore.
  unfoldable pub cut_section : Choice → (calls : ℕ) → S → Stage S
  unfolding write_loop read_loop
  cut_section c calls s =
      and_next (write_loop lib (λ i. here_text c.tid) fd (min calls c.to_write) 0 s)
        λ t. read_loop lib fd (min (calls - c.to_write) c.to_read) 0 t

  -- The thread that holds the semaphore when the program ends, if there is one.
  unfoldable pub cut_first : List Choice → (calls : ℕ) → S → Stage S
  unfolding cut_section
  cut_first [] calls s = stage true [] s
  cut_first (c ∷ cs) calls s = cut_section c calls s

  -- Where a thread cannot be created, the program closes the group and ends: `whole` of the threads have
  -- had their turn by then, and the next has made so many
  -- writes and reads.
  unfoldable pub ordinary_cut : (whole calls : ℕ) → List Choice → S → Stage S
  unfolding sections cut_first
  ordinary_cut whole calls cs s =
      let b = and_next (sections (take whole cs) s) λ t. cut_first (drop whole cs) calls t in
      stage true (opened 0 fd ∷ (b.lines ++ child_error ∷ closed 0 fd ∷ []))
        (lib.close_group fd b.world)

unfoldable pub mt_ordinary :
    {S : Type 0} → Library S → (created whole calls : ℕ) → List Choice → S → Option (Stage S)
unfolding ordinary_opened ordinary_cut
mt_ordinary lib created whole calls cs s =
    let r = lib.open_group 0 s in
    if is_negative r.0
    then some (stage true (open_error ∷ []) r.1)
    else (if leb children created
        then ordinary_opened lib r.0 cs r.1
        else some (ordinary_cut lib r.0 whole calls (take created cs) r.1))
