-- ===== src/Programs/Workers.antt =====
-- lib/mp_readwrite.c and lib/mt_readwrite.c: a program whose children (processes or threads) write to one
-- group, while it waits for them, and which then reads.
--
-- A call of the library is one step. A schedule names the child whose turn it is; when it is used up, the
-- children that are left finish one after the other, so every order of the calls has a schedule. Where a
-- child cannot be created, those that were finish before the file is closed. A child
-- process has its own copy of the descriptor, and closing it leaves the file of its parent open.
pub mod Posts
pub mod Deliveries
pub mod Returns
pub mod Logs
use aosv_project.Prelude.{
  ℕ, zero, suc, ◌+◌, ◌-◌, ◌*◌, ◌/◌, true, false, List, [], ◌∷◌, ◌++◌, ℤ, pos, negsuc, is_negative,
  leb, if◌then◌else◌,
}
use aosv_project.Prelude.Bytes.{take}
use aosv_project.Manager.Names.{codes, print_decimal}
use aosv_project.Programs.{
  Library, Line, written, write_error, read_error, bytes_read, no_more, child_error, Stage, stage,
  before, and_next, message_size, with_group, write_loop,
}

-- lib/test.h, and ITERATIONS of lib/mt_readwrite.c
abbrev pub children : ℕ
children = 3

abbrev pub iterations : ℕ
iterations = 2

-- "%ld was here"
abbrev pub here_text : ℕ → List ℕ
here_text tid = print_decimal tid ++ codes " was here"

-- A child with the number that `gettid` gives, the messages it has left, and the number of the next.
pub record Child : Type 0 where
  pub tid : ℕ
  pub left : ℕ
  pub sent : ℕ

abbrev pub child : (tid left : ℕ) → Child
child t n = record { tid = t; left = n; sent = 0 }

module _ {S : Type 0} (lib : Library S) (fd : ℤ) where
  -- The next call of a child with so many messages left: the child, its line, and the world.
  unfoldable pub send_next : Child → (left : ℕ) → S → Child × Stage S
  send_next c zero s = (record c { left = 0 }, stage true [] s)
  send_next c (suc left) s =
      let r = lib.send_message fd (here_text c.tid) s in
      if is_negative r.0
      then (record c { left = 0 }, stage true (write_error c.sent ∷ []) r.1)
      else (
        record c { left = left; sent = c.sent + 1 },
        stage true (written (here_text c.tid) ∷ []) r.1,
      )

  unfoldable pub child_turn : Child → S → Child × Stage S
  unfolding send_next
  child_turn c s = send_next c c.left s

  unfoldable pub turn_of : ℕ → List Child → S → List Child × Stage S
  unfolding child_turn
  turn_of i [] s = ([], stage true [] s)
  turn_of zero (c ∷ cs) s = let r = child_turn c s in (r.0 ∷ cs, r.1)
  turn_of (suc i) (c ∷ cs) s = let r = turn_of i cs s in (c ∷ r.0, r.1)

  -- A child on its own, with `left` messages to go.
  unfoldable pub finish : (tid left i : ℕ) → S → Stage S
  finish tid zero i s = stage true [] s
  finish tid (suc left) i s =
      let r = lib.send_message fd (here_text tid) s in
      elim (is_negative r.0) [
        | true ↦ stage true (write_error i ∷ []) r.1
        | false ↦ before (written (here_text tid) ∷ []) (finish tid left (i + 1) r.1)
      ]

  unfoldable pub finish_all : List Child → S → Stage S
  unfolding finish
  finish_all [] s = stage true [] s
  finish_all (c ∷ cs) s =
      let r = finish c.tid c.left c.sent s in before r.lines (finish_all cs r.world)

  unfoldable pub interleave : (schedule : List ℕ) → List Child → S → Stage S
  unfolding turn_of finish_all
  interleave [] cs s = finish_all cs s
  interleave (i ∷ schedule) cs s =
      let r = turn_of i cs s in before r.1.lines (interleave schedule r.0 r.1.world)

  -- The loop that reads at most `left` messages and goes on after an error.
  unfoldable pub read_on : (left i : ℕ) → S → Stage S
  read_on zero i s = stage true [] s
  read_on (suc left) i s =
      let r = lib.retrieve_message fd message_size s in
      let rest = read_on left (i + 1) r.1 in
      elim r.0.0 [
        | negsuc n ↦ before (read_error i ∷ []) rest
        | pos zero ↦ stage true (no_more ∷ []) r.1
        | pos (suc n) ↦ before (bytes_read (pos (suc n)) r.0.1 ∷ []) rest
      ]

  -- `created` of the children could be created; where one could not, the program jumps to its end, and
  -- those that were created go on.
  unfoldable pub parent :
      (created : ℕ) (schedule : List ℕ) → List Child → (to_read : ℕ) → S → Stage S
  unfolding interleave read_on
  parent created schedule cs to_read s =
      let r = interleave schedule (take created cs) s in
      if leb children created
      then before r.lines (read_on to_read 0 r.world)
      else before (child_error ∷ r.lines) (stage false [] r.world)

-- The child with the number `i` writes `i` messages.
abbrev pub mp_children : (tids : ℕ → ℕ) → List Child
mp_children tids = child (tids 0) 0 ∷ child (tids 1) 1 ∷ child (tids 2) 2 ∷ []

unfoldable pub mp_readwrite :
    {S : Type 0} → Library S → (created : ℕ) (schedule : List ℕ) (tids : ℕ → ℕ) → S → Stage S
unfolding with_group parent
mp_readwrite lib created schedule tids = with_group lib 1 λ fd.
    parent lib fd created schedule (mp_children tids) ((children - 1) * (children - 1 + 1) / 2)

-- Each thread writes one message more than ITERATIONS, of which the program reads as many as ITERATIONS
-- for each thread.
abbrev pub mt_children : (tids : ℕ → ℕ) → List Child
mt_children tids =
    child (tids 0) (iterations + 1)
    ∷ child (tids 1) (iterations + 1)
    ∷ child (tids 2) (iterations + 1)
    ∷ []

unfoldable pub mt_readwrite :
    {S : Type 0} → Library S → (created : ℕ) (schedule : List ℕ) (tids : ℕ → ℕ) → S → Stage S
unfolding with_group parent
mt_readwrite lib created schedule tids =
    with_group lib 0 λ fd. parent lib fd created schedule (mt_children tids) (children * iterations)
