-- ===== src/Programs/OnDevice/Writing.antt =====
-- `send_message` of lib/tsm_lib.c on an idle group device: the laws of the mail slot for a text that is sent.

use mathlib.Core.Path.{subst}
use aosv_project.Prelude.{
  zero, suc, ℕ, ◌-◌, ◌≤◌, ◌<◌, ◌^◌, ◌≡◌, refl, ap, ◌∙◌, sym, true, false, List, [], ◌∷◌, ◌++◌,
  arith, length, length-append, ℤ, pos, is_negative, ◌==◌, leb, suc, some,
}
use aosv_project.Prelude.Bytes.{take-append, length-replicate, replicate}
use aosv_project.Kernel.{done, Services, IsLinux}
use aosv_project.Mailbox.{held}
use aosv_project.Device.{GroupDev, contents, IsIdle}
use aosv_project.Device.Write.{Params}
use aosv_project.Device.Calls.{write, Answer, answer, step}
use aosv_project.Device.Refinement.{view, length-contents}
use aosv_project.Device.Refinement.Writes.{view-posted}
use aosv_project.Device.Posting.{
  clipped, accepts, message_of, posted, posted-IsIdle, contents-message_of, group_write-done,
  group_write-refused, refusal, message_of-whole,
}
use aosv_project.Programs.{Library, message_size}
use aosv_project.TsmLib
use aosv_project.TsmLib.{finished, kept}
use aosv_project.TsmLib.Send.{send_message}
use aosv_project.TsmLib.Sending.{strnlen, send_message_lem}
use aosv_project.Programs.Slot.{IsSlot}
use aosv_project.Programs.Slot
use aosv_project.Programs.OnDevice.{
  World, IsFine, buffer, has_zero, sent_call, issue-one, fine, outcome, call, library_of, Storable,
}

strnlen-append :
    (max : ℕ) (m : List ℕ) (more : ℕ)
    → has_zero m ≡ false
    → length m ≤ max
    → 0 < more
    → strnlen max (m ++ replicate more 0) ≡ length m
unfolding strnlen
strnlen-append zero [] more z h some_more = refl
strnlen-append zero (x ∷ m) more z h some_more = absurd (omega arith)
strnlen-append (suc max) [] zero z h some_more = absurd (omega arith)
strnlen-append (suc max) [] (suc more) z h some_more = refl
strnlen-append (suc max) (x ∷ m) more z h some_more = ground (arith, strnlen-append max m more)

module _ (k : Services) (p : Params) (w : World) (fine_world : IsFine w) (linux : IsLinux k)
    (small : p.max_storage_size < 2 ^ 32) (file : ℤ) (is_open : is_negative file ≡ false)
    (in_buffer : p.max_message_size < message_size) where
  abbrev pub lib : Library GroupDev
  lib = library_of k p w file

  -- A text is found whole in its buffer.
  send-call :
      (m : List ℕ) (d : GroupDev)
      → Storable k p m
      → lib.send_message file m d ≡ (
        (call k p w (write (w.outcomes d) (buffer m) (length m)) d).0.ret,
        (call k p w (write (w.outcomes d) (buffer m) (length m)) d).1,
      )
  send-call m d st =
      let size : length (buffer m) ≡ message_size = omega (
        arith,
        length-append m (replicate (message_size - length m) 0),
        length-replicate {A = ℕ} (message_size - length m) 0,
        st.1,
      ) in
      let found : strnlen p.max_message_size (buffer m) ≡ length m =
        strnlen-append p.max_message_size m (message_size - length m) st.3 st.1
          (omega (arith, st.1)) in
      let written : (a : ℤ)
          → sent_call (send_message a file p.max_message_size (some (buffer m)))
            ≡ finished a kept (TsmLib.write file (buffer m) (length m) ∷ []) =
        λ a.
          let whole =
            send_message_lem a file is_open p.max_message_size (omega (arith, st.0, st.1))
              (buffer m) (omega (arith, size)) in
          ground (arith, whole, found, st.0) in
      ap (λ (r : (ℤ × List ℕ) × GroupDev). (r.0.0, r.1))
        (issue-one k p w _ (TsmLib.write file (buffer m) (length m)) d written)

  stored :
      (m : List ℕ) (d : GroupDev)
      → IsIdle d
      → Storable k p m
      → held (view d) < p.max_storage_size
      → call k p w (write (w.outcomes d) (buffer m) (length m)) d ≡ (
        answer (pos (length m)) [],
        posted (fine (fine_world.address d)) (message_of k (buffer m) (length m)) d,
      )
  unfolding step
  stored m d v st room =
      let fits : clipped p (length m) ≡ length m = ground (arith, st.1) in
      let a : accepts p (fine (fine_world.address d)) (length m) d ≡ true =
        ground (
          arith,
          st.0,
          v.counted,
          length-contents d.message_list,
          length-contents d.pending_list,
        ) in
      rw (fine_world.goes_well d) (
        rw
          (group_write-done k p (fine (fine_world.address d)) (buffer m) (length m) d v small a
            (omega (arith, st.2, fits, ap k.ksize fits)))
          (ap
            (λ n. outcome w d (
              done (
                posted (fine (fine_world.address d)) (message_of k (buffer m) n) d,
                answer (pos n) [],
              )))
            fits))

  pub sends :
      (m : List ℕ) (d : GroupDev)
      → IsIdle d
      → Storable k p m
      → held (view d) < p.max_storage_size
      → IsIdle (lib.send_message file m d).1
        × ((lib.send_message file m d).0 ≡ pos (length m))
        × (view (lib.send_message file m d).1 ≡ Slot.posted (view d) m)
  sends m d v st room =
      let same : contents (message_of k (buffer m) (length m)) ≡ m =
        contents-message_of k (buffer m) (length m) st.2
          (omega (arith, length-append m (replicate (message_size - length m) 0)))
        ∙ take-append m (replicate (message_size - length m) 0) in
      let sent_now =
        send-call m d st ∙ ap (λ (r : Answer × GroupDev). (r.0.ret, r.1)) (stored m d v st room) in
      subst
        (λ (r : ℤ × GroupDev).
          IsIdle r.1 × (r.0 ≡ pos (length m)) × (view r.1 ≡ Slot.posted (view d) m))
        (sym sent_now)
        (
          posted-IsIdle (fine (fine_world.address d)) (message_of k (buffer m) (length m)) d v
              (message_of-whole k (buffer m) (length m) st.2)
              (omega (
                arith,
                v.counted,
                length-contents d.message_list,
                length-contents d.pending_list,
                small,
              ))
              (λ a e. ground (arith, fine_world.unused d)),
          refl,
          view-posted (fine (fine_world.address d)) (message_of k (buffer m) (length m)) d
              ∙ ap (Slot.posted (view d)) same,
        )

  pub sends_full :
      (m : List ℕ) (d : GroupDev)
      → IsIdle d
      → Storable k p m
      → p.max_storage_size ≤ held (view d)
      → IsIdle (lib.send_message file m d).1
        × ((lib.send_message file m d).0 ≡ pos 0)
        × (view (lib.send_message file m d).1 ≡ view d)
  unfolding step
  sends_full m d v st full =
      let n : length m == 0 ≡ false = ground (arith, st.0) in
      let most : leb p.max_storage_size d.messages_number ≡ true =
        ground (arith, v.counted, length-contents d.message_list, length-contents d.pending_list) in
      let a : accepts p (fine (fine_world.address d)) (length m) d ≡ false = ground arith in
      let none_stored : refusal p (fine (fine_world.address d)) (length m) d ≡ pos 0 =
        ground arith in
      let refused =
        group_write-refused k p (fine (fine_world.address d)) (buffer m) (length m) d v small a in
      subst (λ (r : ℤ × GroupDev). IsIdle r.1 × (r.0 ≡ pos 0) × (view r.1 ≡ view d))
        (sym (send-call m d st)) (rw (fine_world.goes_well d, refused, none_stored) (v, refl, refl))
