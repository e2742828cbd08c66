-- ===== src/Programs/OnDevice/Logs.antt =====
-- The programs of lib on an idle group device: what lib/readwrite.c, revoke.c and exceed_messages.c log,
-- from the texts that they send to the lists of kmodule/group_dev.c.
use aosv_project.Prelude.{
  ℕ, ◌≤◌, ◌<◌, ◌^◌, ◌≡◌, refl, ap, ◌∙◌, Bool, true, false, ◌&&◌, not, length, ℤ, is_negative, leb,
  ◌==◌, arith, every_under, every_under-at,
}
use aosv_project.Kernel.{Services, IsLinux}
use aosv_project.Device.{GroupDev, IsIdle}
use aosv_project.Device.Write.{Params}
use aosv_project.Device.Refinement.{view}
use aosv_project.Manager.Names.{print_decimal}
use aosv_project.Programs.{
  message_size, stage, short_text, long_text, msg_to_write, e_msg_to_write, revoke, exceed_messages,
}
use aosv_project.Programs.Exchange.{texts}
use aosv_project.Programs.Runs.{
  revoke_lines, exceed_messages_lines, revoke-returns, exceed_messages-fills,
}
use aosv_project.Programs.Stages.{empty_slot, in_group}
use aosv_project.Programs.OnDevice.{World, IsFine, World, IsFine, library_of, Storable, has_zero}
use aosv_project.Programs.OnDevice.Laws.{library_of-IsSlot, library_of-closes}

abbrev long_test : ℕ → Bool
long_test i = (length (long_text i) == 34) && not (has_zero (long_text i))

abbrev short_test : ℕ → Bool
short_test i = (length (short_text i) == 16) && not (has_zero (short_text i))

abbrev exceed_test : ℕ → Bool
exceed_test i =
    leb 16 (length (short_text i))
    && (leb (length (short_text i)) 18 && not (has_zero (short_text i)))

short_lem :
    (i : ℕ) → i < msg_to_write → (length (short_text i) ≡ 16) × (has_zero (short_text i) ≡ false)
unfolding print_decimal every_under
short_lem i h = ground (arith, every_under-at short_test msg_to_write i refl h)

exceed_lem :
    (i : ℕ)
    → i < e_msg_to_write
    → (16 ≤ length (short_text i))
      × (length (short_text i) ≤ 18)
      × (has_zero (short_text i) ≡ false)
unfolding print_decimal every_under
exceed_lem i h = ground (arith, every_under-at exceed_test e_msg_to_write i refl h)

module _ (k : Services) (p : Params) (w : World) (fine_world : IsFine w) (linux : IsLinux k)
    (small : p.max_storage_size < 2 ^ 32) (in_buffer : p.max_message_size < message_size) (file : ℤ)
    (is_open : is_negative file ≡ false) (d : GroupDev) (v : IsIdle d)
    (empty : view d ≡ empty_slot 0) where
  -- On an idle device with no message and no delay, which holds five messages or more, takes 16 bytes
  -- with a byte to spare in their block (which the allocator of Linux does not give), and has a largest size below the 64 bytes of the program's
  -- buffer, lib/revoke.c logs its five texts as written, then that
  -- there is no message, after the revocation the five texts as read, in the order in which they were
  -- written, and then that there is no more; the device is idle again, without a message, and has a
  -- delay.
  pub revoke-library_of :
      msg_to_write ≤ p.max_storage_size
      → 16 ≤ p.max_message_size
      → 16 < k.ksize 16
      → (e : GroupDev) × (j : ℕ) × (0 < j)
        × (revoke (library_of k p w file) d ≡ stage true (in_group 0 file revoke_lines) e)
        × IsIdle e
        × (view e ≡ empty_slot j)
  revoke-library_of room size block =
      let slot = library_of-IsSlot k p w fine_world linux small file is_open in_buffer in
      let fits : (i : ℕ) → i < msg_to_write → Storable k p (short_text i) = λ i h.
        let l = short_lem i h in
        (
          omega (arith, l.0),
          omega (arith, l.0, size),
          omega (arith, l.0, ap k.ksize l.0, block),
          l.1,
        ) in
      let (e, j, pos_j, log, idle, q) =
        revoke-returns (library_of k p w file) file p.max_storage_size slot d d refl is_open v empty
          fits room in
      (
        e,
        j,
        pos_j,
        log
            ∙ ap (stage true (in_group 0 file revoke_lines))
                (library_of-closes k p w file is_open e),
        idle,
        q,
      )

  -- On an idle device with no message and no delay, which holds 128 messages at most, takes 16, 17 and
  -- 18 bytes with a byte to spare in their block, and has a largest size below the 64 bytes of the
  -- program's buffer, lib/exceed_messages.c logs all its 128 texts as
  -- written; the device is idle and holds only the first of them, as many as `max_storage_size` says.
  pub exceed_messages-library_of :
      p.max_storage_size ≤ e_msg_to_write
      → 18 ≤ p.max_message_size
      → ((n : ℕ) → 16 ≤ n → n ≤ 18 → n < k.ksize n)
      → (e : GroupDev) × (exceed_messages (library_of k p w file) d
          ≡ stage true (in_group 0 file exceed_messages_lines) e)
        × IsIdle e
        × (view e ≡ record (empty_slot 0) { available = texts short_text p.max_storage_size 0 })
  exceed_messages-library_of most size block =
      let slot = library_of-IsSlot k p w fine_world linux small file is_open in_buffer in
      let fits : (i : ℕ) → i < e_msg_to_write → Storable k p (short_text i) = λ i h.
        let l = exceed_lem i h in
        (
          omega (arith, l.0),
          omega (arith, l.1, size),
          block (length (short_text i)) l.0 l.1,
          l.2,
        ) in
      let (e, log, idle, q) =
        exceed_messages-fills (library_of k p w file) file p.max_storage_size slot d d refl is_open
          v empty fits most in
      (
        e,
        log
            ∙ ap (stage true (in_group 0 file exceed_messages_lines))
                (library_of-closes k p w file is_open e),
        idle,
        q,
      )
