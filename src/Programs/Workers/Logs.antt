-- ===== src/Programs/Workers/Logs.antt =====
-- lib/mp_readwrite.c and lib/mt_readwrite.c on an idle group device: what they log.
use mathlib.Core.List.{append-nil, Perm}
use aosv_project.Prelude.{
  ◌*◌, ℕ, zero, suc, ◌+◌, ◌%◌, ◌/◌, ◌≤◌, ◌<◌, ◌^◌, ◌≡◌, refl, ap, ◌∙◌, true, false, List, [], ◌∷◌,
  ◌++◌, map, length, length-append, ℤ, is_negative, arith,
}
use aosv_project.Kernel.{Services, IsLinux}
use aosv_project.Device.{GroupDev, IsIdle}
use aosv_project.Device.Write.{Params}
use aosv_project.Device.Refinement.{view}
use aosv_project.Manager.Names.{decimal, print_decimal, codes}
use aosv_project.Programs.{stage, written, message_size}
use aosv_project.Programs.Exchange.{got}
use aosv_project.Programs.Stages.{empty_slot, in_group, with_group-Leaves}
use aosv_project.Programs.OnDevice.{World, IsFine, library_of, has_zero, Storable}
use aosv_project.Programs.OnDevice.Laws.{library_of-IsSlot, library_of-closes}
use aosv_project.Programs.Workers.Deliveries.{due}
use aosv_project.Programs.Workers.{
  mp_children, mt_children, children, here_text, parent, mp_readwrite, mt_readwrite,
}
use aosv_project.Programs.Workers.Returns.{parent-Returns}

-- At least one digit and one at most for each unit of fuel, and none is 0.
decimal_lem :
    (fuel n : ℕ) (rest : List ℕ)
    → (length (decimal fuel n rest) ≤ fuel + length rest)
      × (length rest ≤ length (decimal fuel n rest))
      × (has_zero (decimal fuel n rest) ≡ has_zero rest)
unfolding decimal
decimal_lem zero n rest = (omega arith, omega arith, refl)
decimal_lem (suc fuel) n rest = ground (arith, decimal_lem fuel (n / 10) ((48 + n % 10) ∷ rest))

has_zero-append :
    (xs ys : List ℕ) → has_zero xs ≡ false → has_zero ys ≡ false → has_zero (xs ++ ys) ≡ false
has_zero-append [] ys f g = g
has_zero-append (x ∷ xs) ys f g = ground (arith, has_zero-append xs ys)

here_text_lem :
    (tid : ℕ)
    → (9 ≤ length (here_text tid))
      × (length (here_text tid) ≤ 19)
      × (has_zero (here_text tid) ≡ false)
unfolding print_decimal
here_text_lem tid =
    let l = decimal_lem 10 tid [] in
    let all = length-append (decimal 10 tid []) (codes " was here") in
    (
      omega (arith, all),
      omega (arith, all, l.0),
      has_zero-append (decimal 10 tid []) (codes " was here") l.2 refl,
    )

none_kept : {A : Type 0} (l : List A) (n : ℕ) → length l + n ≡ n → l ≡ []
none_kept [] n h = refl
none_kept (x ∷ l) n h = absurd (omega arith)

-- As many digits as the number has at most.
abbrev limit : ℕ → ℕ
limit zero = 1
limit (suc digits) = 10 * limit digits

decimal-digits :
    (fuel digits n : ℕ) (rest : List ℕ)
    → n < limit (suc digits)
    → length (decimal fuel n rest) ≤ suc digits + length rest
unfolding decimal
decimal-digits zero digits n rest h = omega arith
decimal-digits (suc fuel) zero n rest h = ground arith
decimal-digits (suc fuel) (suc digits) n rest h =
    ground (arith, decimal-digits fuel digits (n / 10) ((48 + n % 10) ∷ rest) (omega arith))

here_text-short : (tid : ℕ) → tid < 10 ^ 6 → length (here_text tid) ≤ 15
unfolding print_decimal
here_text-short tid h = omega (
  arith,
  length-append (print_decimal tid) (codes " was here"),
  decimal-digits 10 5 tid [] (omega arith),
)

pub here_text-Storable :
    (k : Services) (p : Params)
    → 15 ≤ p.max_message_size
    → ((n : ℕ) → 9 ≤ n → n ≤ 15 → n < k.ksize n)
    → (tid : ℕ) → tid < 10 ^ 6
    → Storable k p (here_text tid)
here_text-Storable k p size block tid h =
    let l = here_text_lem tid in
    let short = here_text-short tid h in
    (omega (arith, l.0), omega (arith, short, size), block (length (here_text tid)) l.0 short, l.2)

module _ (k : Services) (p : Params) (w : World) (fine_world : IsFine w) (linux : IsLinux k)
    (small : p.max_storage_size < 2 ^ 32) (in_buffer : p.max_message_size < message_size) (file : ℤ)
    (is_open : is_negative file ≡ false) (d : GroupDev) (v : IsIdle d)
    (empty : view d ≡ empty_slot 0) (size : 15 ≤ p.max_message_size)
    (block : (n : ℕ) → 9 ≤ n → n ≤ 15 → n < k.ksize n) (created : ℕ)
    (all_created : children ≤ created) (schedule : List ℕ) (tids : ℕ → ℕ)
    (short : (i : ℕ) → tids i < 10 ^ 6) where
  may_send : (i : ℕ) → Storable k p (here_text (tids i))
  may_send i = here_text-Storable k p size block (tids i) (short i)

  -- On an idle device with no message and no delay, which holds three messages or more, takes 9 to 15
  -- bytes with a byte to spare in their block, and has a largest size of 15 or more and below the 64
  -- bytes of the program's buffer, where no allocation and no copy fails and `gettid` gives numbers below
  -- a million: if all three children of lib/mp_readwrite.c can be created, then in
  -- whatever order they take their turns, they log their messages as written, three in all, each as
  -- often as its child has to write it, the parent reads these three in the order in which they were
  -- written, and the device is idle and empty again.
  pub mp_readwrite-library_of :
      3 ≤ p.max_storage_size
      → (e : GroupDev) × (ms : List (List ℕ)) × (length ms ≡ 3)
        × Perm ms (due (mp_children tids))
        × (mp_readwrite (library_of k p w file) created schedule tids d
            ≡ stage true (in_group 1 file (map written ms ++ map got ms)) e)
        × IsIdle e
        × (view e ≡ empty_slot 0)
  unfolding mp_readwrite
  mp_readwrite-library_of room =
      let lib = library_of k p w file in
      let slot = library_of-IsSlot k p w fine_world linux small file is_open in_buffer in
      let cs = mp_children tids in
      let r =
        parent-Returns lib file p.max_storage_size slot created schedule cs 3 d
          (may_send 0, (may_send 1, (may_send 2, tt))) all_created all_created room (omega arith) v
          empty in
      let nil : r.kept ≡ [] = none_kept r.kept 3 r.keeps in
      let (e, log, idle, q) =
        with_group-Leaves lib file p.max_storage_size slot 1
          (λ fd. parent lib fd created schedule cs 3) d d refl is_open r.leaves in
      let lines : map written (r.read ++ r.kept) ++ map got r.read
          ≡ map written r.read ++ map got r.read =
        ap (λ (l : List (List ℕ)). map written (r.read ++ l) ++ map got r.read) nil
        ∙ ap (λ (l : List (List ℕ)). map written l ++ map got r.read) (append-nil r.read) in
      (
        e,
        r.read,
        r.reads,
        rw (nil, append-nil r.read) at r.all,
        log
            ∙ ap (stage true (in_group 1 file (map written (r.read ++ r.kept) ++ map got r.read)))
                (library_of-closes k p w file is_open e)
            ∙ ap (λ ls. stage true (in_group 1 file ls) e) lines,
        idle,
        q ∙ ap (λ (l : List (List ℕ)). record (empty_slot 0) { available = l }) nil,
      )

  -- On an idle device with no message and no delay, which holds nine messages or more, takes 9 to 15
  -- bytes with a byte to spare in their block, and has a largest size of 15 or more and below the 64
  -- bytes of the program's buffer, where no allocation and no copy fails and `gettid` gives numbers below
  -- a million: if all three threads of lib/mt_readwrite.c can be created, then in
  -- whatever order they take their turns, they log their messages as written, nine in all, each as
  -- often as its thread has to write it, the program reads the first six of these in the order in which
  -- they were written, and the idle device keeps the other three.
  pub mt_readwrite-library_of :
      9 ≤ p.max_storage_size
      → (e : GroupDev) × (ms ns : List (List ℕ)) × (length ms ≡ 6)
        × (length ns ≡ 3)
        × Perm (ms ++ ns) (due (mt_children tids))
        × (mt_readwrite (library_of k p w file) created schedule tids d
            ≡ stage true (in_group 0 file (map written (ms ++ ns) ++ map got ms)) e)
        × IsIdle e
        × (view e ≡ record (empty_slot 0) { available = ns })
  unfolding mt_readwrite
  mt_readwrite-library_of room =
      let lib = library_of k p w file in
      let slot = library_of-IsSlot k p w fine_world linux small file is_open in_buffer in
      let cs = mt_children tids in
      let r =
        parent-Returns lib file p.max_storage_size slot created schedule cs 6 d
          (may_send 0, (may_send 1, (may_send 2, tt))) all_created all_created room (omega arith) v
          empty in
      let (e, log, idle, q) =
        with_group-Leaves lib file p.max_storage_size slot 0
          (λ fd. parent lib fd created schedule cs 6) d d refl is_open r.leaves in
      (
        e,
        r.read,
        r.kept,
        r.reads,
        omega (arith, r.keeps),
        r.all,
        log
            ∙ ap (stage true (in_group 0 file (map written (r.read ++ r.kept) ++ map got r.read)))
                (library_of-closes k p w file is_open e),
        idle,
        q,
      )
