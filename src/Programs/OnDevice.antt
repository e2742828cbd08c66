-- ===== src/Programs/OnDevice.antt =====
-- The calls of lib/tsm_lib.c on a group device (kmodule/group_dev.c): each system call that the library
-- makes runs the operation of the device that belongs to it.
pub mod Writing
pub mod Reading
pub mod Laws
pub mod Logs
use mathlib.Core.List.{head-eq_of_cons-eq, tail-eq_of_cons-eq}
use aosv_project.Prelude.{
  ltb, min, ◌||◌, ◌%◌, ℕ, ◌+◌, ◌-◌, ◌≤◌, ◌<◌, ◌^◌, ◌≡◌, ◌⊎◌, inl, inr, refl, ap, ◌∙◌, sym, Bool,
  true, false, List, [], ◌∷◌, ◌++◌, map, reverse, some, none, arith, length, length-append, has,
  Bool-cases, ℤ, pos, negsuc, minus_one, is_negative, ◌==◌, if◌then◌else◌, unsnoc-cases, leb, suc,
}
use aosv_project.Prelude.Bytes.{take, length-take, take-take, take-whole, replicate}
use aosv_project.Kernel.{Run, done, oops, ◌>>=◌, Services, IsLinux, Outcomes}
use aosv_project.Mailbox.{Mailbox, held}
use aosv_project.Device.{GroupDev, Message, contents, IsIdle}
use aosv_project.Device.Read.{group_release}
use aosv_project.Device.Write.{Params}
use aosv_project.Device.Ioctl.{
  group_unlocked_ioctl, awake_barrier, set_send_delay, revoke_delayed_messages, Command,
  sleep_on_barrier, unknown,
}
use aosv_project.Device.Calls.{Call, read, write, ioctl, Answer, answer, step}
use aosv_project.Device.Refinement.{view, length-contents, contents-append, contents-snoc}
use aosv_project.Device.Refinement.Writes.{view-posted}
use aosv_project.Device.Posting.{
  clipped, accepts, message_of, posted, posted-IsIdle, contents-message_of, group_write-done,
  group_write-refused, refusal, shorter, taken, taken-IsIdle, group_read-empty, group_read-done,
  taken_whole, message_of-whole,
}
use aosv_project.Device.Flush.{revoked, revoked-IsIdle, fflush_workqueue-done}
use aosv_project.Programs.{Library, message_size}
use aosv_project.TsmLib
use aosv_project.TsmLib.{Syscall, Done, finished, kept}
use aosv_project.TsmLib.Send
use aosv_project.TsmLib.Send.{Sent}
use aosv_project.TsmLib.Control
use aosv_project.TsmLib.Open
use aosv_project.Device.Calls
use aosv_project.Programs.Slot.{IsSlot}
use aosv_project.Programs.Slot
use aosv_project.Device.Messages.{set_delay}
use aosv_project.Device.Refinement.Commands.{flags-IsIdle}
use aosv_project.Device.Flags.{clear_bit, clear_barrier, clear_barrier_lem}

abbrev pub total : List ℕ → ℕ
total [] = 0
total (w ∷ ws) = w + total ws

-- An address that is none of these.
abbrev pub fresh : List ℕ → ℕ
fresh ws = 1 + total ws

has-above : (w : ℕ) (ws : List ℕ) → total ws < w → has w ws ≡ false
has-above w [] h = refl
has-above w (x ∷ ws) h = ground (arith, has-above w ws (omega arith))

pub fresh-new : (ws : List ℕ) → has (fresh ws) ws ≡ false
fresh-new ws = has-above (fresh ws) ws (omega arith)

-- What Linux does in the calls of a program: the outcomes of the allocations and the copy of each call,
-- by the device's state; and what becomes of a device on which the module has used memory that it may
-- not, and of the call that did.
pub record World : Type 0 where
  pub outcomes : GroupDev → Outcomes
  pub after_oops : GroupDev → Answer × GroupDev

-- No allocation and no copy fails; the work gets the address.
abbrev pub fine : ℕ → Outcomes
fine address = record {
  data_block = true;
  msg_block = true;
  work_block = some address;
  uncopied = 0;
}

-- In all calls; the memory that a new work gets is none that is in use.
pub record IsFine (w : World) : Type 0 where
  pub address : GroupDev → ℕ
  pub goes_well : (d : GroupDev) → w.outcomes d ≡ fine (address d)
  pub unused : (d : GroupDev) → has (address d) d.queued ≡ false

abbrev pub outcome : World → GroupDev → Run (GroupDev × Answer) → Answer × GroupDev
outcome w d oops = w.after_oops d
outcome w d (done r) = (r.1, r.0)

-- `msg[MESSAGE_SIZE]` with a text in it.
abbrev pub buffer : List ℕ → List ℕ
buffer m = m ++ replicate (message_size - length m) 0

abbrev pub sent_call : Run Sent → Done
sent_call oops = finished minus_one kept []
sent_call (done s) = s.done_call

-- The commands of kmodule/ioctl.h without an argument.
abbrev pub command : ℕ → Command
command n =
    if n == 2
    then sleep_on_barrier
    else (if n == 3 then awake_barrier else (if n == 5 then revoke_delayed_messages else unknown))

abbrev pub has_zero : List ℕ → Bool
has_zero [] = false
has_zero (c ∷ cs) = (c == 0) || has_zero cs

-- A text that the device stores whole, with a byte to spare in its block.
abbrev pub Storable : Services → Params → List ℕ → Type 0
Storable k p m =
    (0 < length m)
    × (length m ≤ p.max_message_size)
    × (length m < k.ksize (length m))
    × (has_zero m ≡ false)

module _ (k : Services) (p : Params) (w : World) where
  abbrev pub call : Call → GroupDev → Answer × GroupDev
  call c d = outcome w d (step k p c d)

  -- A system call on the group's file; no thread waits on the barrier. A `long` that is negative is
  -- 2 ^ 64 more as an `unsigned long`.
  abbrev pub perform : Syscall → GroupDev → Answer × GroupDev
  perform (TsmLib.write fd bytes n) d = call (Calls.write (w.outcomes d) bytes n) d
  perform (TsmLib.read fd n) d = call (Calls.read (w.outcomes d) n) d
  perform (TsmLib.ioctl fd n) d = call (Calls.ioctl (command n) 0 []) d
  perform (TsmLib.ioctl_delay fd (pos n)) d = call (Calls.ioctl set_send_delay n []) d
  perform (TsmLib.ioctl_delay fd (negsuc n)) d =
      call (Calls.ioctl set_send_delay (2 ^ 64 - suc n) []) d
  perform (TsmLib.install_ioctl fd n) d = (answer minus_one [], d)
  perform (TsmLib.max_size_ioctl fd) d = (answer minus_one [], d)
  perform (TsmLib.close fd) d = (answer (group_release d).1 [], (group_release d).0)
  perform TsmLib.open_tsm d = (answer minus_one [], d)
  perform (TsmLib.open_device name) d = (answer minus_one [], d)
  perform TsmLib.sleep d = (answer (pos 0) [], d)

  -- A function of the library that makes at most one system call, with the answer that the device gives.
  abbrev pub issue_calls : (ℤ → Done) → List Syscall → GroupDev → (ℤ × List ℕ) × GroupDev
  issue_calls f [] d = (((f (pos 0)).ret, []), d)
  issue_calls f (c ∷ _) d = let r = perform c d in (((f r.0.ret).ret, r.0.copied), r.1)

  abbrev pub issue : (ℤ → Done) → GroupDev → (ℤ × List ℕ) × GroupDev
  issue f d = issue_calls f (f (pos 0)).calls d

  -- The file of the group is open as `file`, and no timer expires while a program sleeps.
  abbrev pub library_of : ℤ → Library GroupDev
  library_of file = record {
    open_group = λ desc d. (file, d);
    send_message = λ fd m d.
        let r =
          issue (λ a. sent_call (Send.send_message a fd p.max_message_size (some (buffer m)))) d in
        (r.0.0, r.1);
    retrieve_message = λ fd n d. issue (λ a. Send.retrieve_message a fd n) d;
    awake_barrier = λ fd d. (issue (λ a. Control.awake_barrier a fd) d).1;
    set_send_delay =
        λ fd delay d. let r = issue (λ a. Control.set_send_delay a fd delay) d in (r.0.0, r.1);
    revoke_delayed_messages = λ fd d. (issue (λ a. Control.revoke_delayed_messages a fd) d).1;
    close_group = λ fd d. (issue (λ a. Open.close_group fd) d).1;
    sleep = λ n d. d;
    mygetch = λ d. d;
  }

  pub issue-one :
      (f : ℤ → Done) (c : Syscall) (d : GroupDev)
      → ((a : ℤ) → f a ≡ finished a kept (c ∷ []))
      → issue f d ≡ (((perform c d).0.ret, (perform c d).0.copied), (perform c d).1)
  issue-one f c d e =
      ap (λ (x : Done). issue_calls f x.calls d) (e (pos 0))
      ∙ ap (λ (x : Done). ((x.ret, (perform c d).0.copied), (perform c d).1))
          (e (perform c d).0.ret)
