-- ===== src/Programs.antt =====
-- The programs of lib that use the library from one thread: lib/install.c, doubleopen.c, multigroup.c,
-- exceed_groups.c, readwrite.c, readwrite_delay.c, revoke.c and exceed_messages.c. Each runs over any
-- implementation of the library's calls and gives the lines of its log.
pub mod Slot
pub mod Exchange
pub mod Stages
pub mod Runs
pub mod OnDevice
pub mod Workers
pub mod Ordinary
pub mod Naps
pub mod Chaotic
pub mod Groups
use aosv_project.Prelude.{
  ℕ, zero, suc, ◌+◌, ◌*◌, ◌%◌, true, false, Bool, List, [], ◌∷◌, ◌++◌, ℤ, pos, minus_one,
  is_negative, if◌then◌else◌, ◌==◌, negsuc,
}
use aosv_project.Manager.Names.{codes, print_decimal}

-- What a program calls, on a state of the world `S`. The result of a read is its return value and the
-- bytes that it leaves in the buffer.
pub record Library (S : Type 0) : Type 0 where
  pub open_group : (desc : ℕ) → S → ℤ × S
  pub send_message : (fd : ℤ) → List ℕ → S → ℤ × S
  pub retrieve_message : (fd : ℤ) → (length : ℕ) → S → (ℤ × List ℕ) × S
  pub awake_barrier : (fd : ℤ) → S → S
  pub set_send_delay : (fd delay : ℤ) → S → ℤ × S
  pub revoke_delayed_messages : (fd : ℤ) → S → S
  pub close_group : (fd : ℤ) → S → S
  pub sleep : (seconds : ℕ) → S → S
  pub mygetch : S → S

-- A line of the log.
pub data Line : Type 0 where
  opened : (desc : ℕ) (fd : ℤ) → Line
  closed : (desc : ℕ) (fd : ℤ) → Line
  open_error delay_error child_error : Line
  written : List ℕ → Line
  write_error read_error : ℕ → Line
  bytes_read : ℤ → List ℕ → Line
  no_more revoked : Line

-- lib/test.h
abbrev pub message_size : ℕ
message_size = 64

abbrev pub msg_to_write : ℕ
msg_to_write = 5

abbrev pub e_msg_to_write : ℕ
e_msg_to_write = 128

abbrev pub msg_to_read : ℕ
msg_to_read = msg_to_write + 1

-- "%d from userspace", and the longer text of lib/readwrite.c
abbrev pub short_text : ℕ → List ℕ
short_text i = print_decimal i ++ codes " from userspace"

abbrev pub long_text : ℕ → List ℕ
long_text i = print_decimal i ++ codes " from userspace hello how are you"

-- What a stage of a program leaves: whether it went well, its lines, and the world.
pub record Stage (S : Type 0) : Type 0 where
  pub well : Bool
  pub lines : List Line
  pub world : S

abbrev pub stage : {S : Type 0} → Bool → List Line → S → Stage S
stage w ls s = record { well = w; lines = ls; world = s }

abbrev pub before : {S : Type 0} → List Line → Stage S → Stage S
before ls r = record r { lines = ls ++ r.lines }

-- The next stage, unless this one has jumped to the end.
abbrev pub and_next : {S : Type 0} → Stage S → (S → Stage S) → Stage S
and_next r next = if r.well then before r.lines (next r.world) else r

module _ {S : Type 0} (lib : Library S) where
  -- The loop that sends `left` messages, the first with the number `i`.
  unfoldable pub write_loop : (text : ℕ → List ℕ) (fd : ℤ) (left i : ℕ) → S → Stage S
  write_loop text fd zero i s = stage true [] s
  write_loop text fd (suc left) i s =
      let r = lib.send_message fd (text i) s in
      elim (is_negative r.0) [
        | true ↦ stage false (write_error i ∷ []) r.1
        | false ↦ before (written (text i) ∷ []) (write_loop text fd left (i + 1) r.1)
      ]

  -- The loop that reads at most `left` messages.
  unfoldable pub read_loop : (fd : ℤ) (left i : ℕ) → S → Stage S
  read_loop fd zero i s = stage true [] s
  read_loop fd (suc left) i s =
      let r = lib.retrieve_message fd message_size s in
      elim r.0.0 [
        | negsuc n ↦ stage false (read_error i ∷ []) r.1
        | pos zero ↦ stage true (no_more ∷ []) r.1
        | pos (suc n) ↦ before (bytes_read (pos (suc n)) r.0.1 ∷ []) (read_loop fd left (i + 1) r.1)
      ]

  -- `open_group`, what is done with the group, and `close_group`.
  unfoldable pub with_group : (desc : ℕ) → (ℤ → S → Stage S) → S → Stage S
  with_group desc body s =
      let r = lib.open_group desc s in
      elim (is_negative r.0) [
        | true ↦ stage true (open_error ∷ []) r.1
        | false ↦
            let b = body r.0 r.1 in
            stage true (opened desc r.0 ∷ (b.lines ++ closed desc r.0 ∷ []))
              (lib.close_group r.0 b.world)
      ]

  unfoldable pub readwrite_body : ℤ → S → Stage S
  unfolding write_loop read_loop
  readwrite_body fd s = and_next (write_loop long_text fd msg_to_write 0 s) λ t.
      and_next (read_loop fd msg_to_read 0 (lib.sleep 1 t))
        λ u. stage true [] (lib.awake_barrier fd u)

  -- lib/readwrite.c
  unfoldable pub readwrite : S → Stage S
  unfolding with_group readwrite_body
  readwrite = with_group 0 readwrite_body

  unfoldable pub readwrite_delay_body : ℤ → S → Stage S
  unfolding write_loop read_loop
  readwrite_delay_body fd s =
      let r = lib.set_send_delay fd minus_one s in
      if is_negative r.0
      then stage false (delay_error ∷ []) r.1
      else and_next (write_loop short_text fd msg_to_write 0 r.1)
          λ t. read_loop fd msg_to_read 0 (lib.sleep 2 t)

  -- lib/readwrite_delay.c
  unfoldable pub readwrite_delay : S → Stage S
  unfolding with_group readwrite_delay_body
  readwrite_delay = with_group 0 readwrite_delay_body

  unfoldable pub revoke_body : ℤ → S → Stage S
  unfolding write_loop read_loop
  revoke_body fd s =
      and_next (write_loop short_text fd msg_to_write 0 (lib.set_send_delay fd (pos 5000) s).1) λ t.
        and_next (read_loop fd msg_to_read 0 t) λ u.
          before (revoked ∷ [])
            (read_loop fd msg_to_read 0 (lib.revoke_delayed_messages fd (lib.sleep 0 u)))

  -- lib/revoke.c
  unfoldable pub revoke : S → Stage S
  unfolding with_group revoke_body
  revoke = with_group 0 revoke_body

  -- lib/exceed_messages.c
  unfoldable pub exceed_messages : S → Stage S
  unfolding with_group write_loop
  exceed_messages = with_group 0 λ fd. write_loop short_text fd e_msg_to_write 0

  -- lib/install.c
  unfoldable pub install : S → Stage S
  unfolding with_group
  install = with_group 0 λ fd s. stage true [] (lib.mygetch s)

  -- lib/doubleopen.c
  unfoldable pub doubleopen : S → Stage S
  unfolding with_group
  doubleopen = with_group 0 λ fd1. with_group 0 λ fd2 s. stage true [] (lib.mygetch s)

  -- The loop that opens `left` groups from the number `i` on, an `unsigned char`, and stops at the first
  -- that fails: the files that were opened, and the stage.
  unfoldable pub open_all : (left i : ℕ) → S → List (ℕ × ℤ) × Stage S
  open_all zero i s = ([], stage true [] s)
  open_all (suc left) i s =
      let r = lib.open_group (i % 256) s in
      elim (is_negative r.0) [
        | true ↦ ([], stage false (open_error ∷ []) r.1)
        | false ↦
            let rest = open_all left (i + 1) r.1 in
            ((i % 256, r.0) ∷ rest.0, before (opened (i % 256) r.0 ∷ []) rest.1)
      ]

  unfoldable pub close_all : List (ℕ × ℤ) → S → Stage S
  close_all [] s = stage true [] s
  close_all (f ∷ fs) s = before (closed f.0 f.1 ∷ []) (close_all fs (lib.close_group f.1 s))

  -- lib/multigroup.c: where a group cannot be opened, the others stay open.
  unfoldable pub multigroup : S → Stage S
  unfolding open_all close_all
  multigroup s = let r = open_all 4 0 s in and_next r.1 λ t. close_all r.0 (lib.mygetch t)

  -- lib/exceed_groups.c
  unfoldable pub exceed_groups : S → Stage S
  unfolding open_all close_all
  exceed_groups s = let r = open_all 260 0 s in before r.1.lines (close_all r.0 r.1.world)
