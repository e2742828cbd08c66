-- ===== src/Programs/Naps.antt =====
-- lib/sleep.c and lib/mp_sleep.c: children that sleep on the barrier of a group, and a program that
-- wakes them after a while and waits for them.
--
-- A step of a child is a step of its `sleep_on_barrier` on the device (Device/Barrier). A schedule names
-- the child whose step it is: one before the program's `awake_barrier`, two between its three steps, and
-- one after it. The store that takes the barrier down is seen before the queue is tested; where it is not, a
-- child can be missed (Device/Barrier/Waking). Then the program waits: each child takes the steps that it has left, of which three are
-- enough (Naps/Ends) unless it sleeps, and then nobody will wake it (Naps/Late).
pub mod Leaving
pub mod Ends
pub mod Late
use aosv_project.Prelude.{
  ℕ, zero, suc, Bool, true, false, List, [], ◌∷◌, Option, none, some, ◌&&◌, ◌==◌, ltb, leb, ℤ, pos,
  is_negative, if◌then◌else◌, ◌||◌,
}
use aosv_project.Device.Barrier.{Phase, away, Barrier, thread, take_down, test_queue, wake_up, move}
use aosv_project.Programs.{Line, opened, closed, open_error, child_error}
use aosv_project.Programs.Workers.{children}

-- The barrier, and which of the children have called `sleep_on_barrier`.
pub record Naps : Type 0 where
  pub barrier : Barrier
  pub called : ℕ → Bool

abbrev pub is_away : Phase → Bool
is_away away = true
is_away φ = false

-- A step of the child `i` of `count`; one that is back from its call has ended.
unfoldable pub nap_turn : (count i : ℕ) → Naps → Naps
unfolding move
nap_turn count i n =
    if leb count i || (n.called i && is_away (n.barrier.threads i)) then n else record {
      barrier = move (thread i) n.barrier;
      called = λ j. if j == i then true else n.called j;
    }

unfoldable pub nap_turns : (count : ℕ) → List ℕ → Naps → Naps
unfolding nap_turn
nap_turns count [] n = n
nap_turns count (i ∷ is) n = nap_turns count is (nap_turn count i n)

-- The program's `awake_barrier`.
unfoldable pub awaken : (count : ℕ) → List ℕ × List ℕ → Naps → Naps
unfolding nap_turns
awaken count between n =
    let down = nap_turns count between.0 (record n { barrier = move take_down n.barrier }) in
    let tested =
      nap_turns count between.1 (record down { barrier = move test_queue down.barrier }) in
    record tested { barrier = move wake_up tested.barrier }

-- The steps that the first `left` children have left.
unfoldable pub finish_naps : (count left : ℕ) → Naps → Naps
unfolding nap_turns
finish_naps count zero n = n
finish_naps count (suc left) n =
    finish_naps count left (nap_turns count (left ∷ left ∷ left ∷ []) n)

abbrev pub returned : ℕ → Naps → Bool
returned i n = n.called i && is_away (n.barrier.threads i)

abbrev pub all_returned : ℕ → Naps → Bool
all_returned zero n = true
all_returned (suc left) n = returned left n && all_returned left n

-- What the children's steps come to.
unfoldable pub naps :
    (count : ℕ) (before : List ℕ) (between : List ℕ × List ℕ) (after : List ℕ) → Naps → Naps
unfolding nap_turns awaken finish_naps
naps count before between after n =
    finish_naps count count
      (nap_turns count after (awaken count between (nap_turns count before n)))

-- The program from its call of `open_group` on, which answers `fd`; `none` where it waits forever.
unfoldable pub nap_parent :
    (count : ℕ)
    → (fd : ℤ) → (before : List ℕ) (between : List ℕ × List ℕ) (after : List ℕ) → Naps
    → Option (List Line)
unfolding naps
nap_parent count fd before between after n =
    if all_returned count (naps count before between after n)
    then some (opened 1 fd ∷ closed 1 fd ∷ [])
    else none

-- lib/sleep.c, which closes the group where it has no child.
unfoldable pub sleep_main :
    (fd : ℤ) (forked : Bool) (before : List ℕ) (between : List ℕ × List ℕ) (after : List ℕ)
    → Naps
    → Option (List Line)
unfolding nap_parent
sleep_main fd forked before between after n =
    if is_negative fd
    then some (open_error ∷ [])
    else (if forked
        then nap_parent 1 fd before between after n
        else some (opened 1 fd ∷ child_error ∷ closed 1 fd ∷ []))

-- lib/mp_sleep.c, which leaves the group open where it has not all of its children.
unfoldable pub mp_sleep :
    (fd : ℤ) (created : ℕ) (before : List ℕ) (between : List ℕ × List ℕ) (after : List ℕ)
    → Naps
    → Option (List Line)
unfolding nap_parent
mp_sleep fd created before between after n =
    if is_negative fd
    then some (open_error ∷ [])
    else (if leb children created
        then nap_parent children fd before between after n
        else some (opened 1 fd ∷ child_error ∷ []))

-- Nobody has called yet.
abbrev pub unslept : Barrier → Naps
unslept b = record { barrier = b; called = λ j. false }
