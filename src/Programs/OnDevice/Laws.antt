-- ===== src/Programs/OnDevice/Laws.antt =====
-- An idle group device obeys the laws of the mail slot that the programs of lib rely on.

use aosv_project.Prelude.{
  ◌%◌, ℕ, ◌<◌, ◌^◌, ◌≡◌, refl, ap, true, false, List, [], ◌++◌, arith, ℤ, pos, is_negative, leb,
  negsuc,
}
use aosv_project.Kernel.{Services, IsLinux}
use aosv_project.Device.{GroupDev, IsIdle}
use aosv_project.Device.Write.{Params}
use aosv_project.Device.Ioctl.{group_unlocked_ioctl}
use aosv_project.Device.Calls.{step}
use aosv_project.Device.Refinement.{view, contents-append}
use aosv_project.Device.Flush.{revoked-IsIdle, fflush_workqueue-done}
use aosv_project.Programs.{Library, message_size}
use aosv_project.TsmLib.Control
use aosv_project.TsmLib.Open.{close_group}
use aosv_project.Device.Read.{group_release}
use aosv_project.Programs.Slot.{IsSlot}
use aosv_project.Device.Messages.{set_delay}
use aosv_project.Device.Refinement.Commands.{flags-IsIdle}
use aosv_project.Device.Flags.{clear_bit, clear_barrier, clear_barrier_lem}
use aosv_project.Programs.OnDevice.{World, IsFine, library_of, Storable}
use aosv_project.Programs.OnDevice.Writing.{sends, sends_full}
use aosv_project.Programs.OnDevice.Reading.{finds_none, retrieves}

-- Closing the group leaves the device as it is.
pub library_of-closes :
    (k : Services) (p : Params) (w : World) (file : ℤ)
    → is_negative file ≡ false
    → (e : GroupDev) → (library_of k p w file).close_group file e ≡ e
unfolding close_group group_release
library_of-closes k p w file is_open e = rw is_open refl

module _ (k : Services) (p : Params) (w : World) (fine_world : IsFine w) (linux : IsLinux k)
    (small : p.max_storage_size < 2 ^ 32) (file : ℤ) (is_open : is_negative file ≡ false)
    (in_buffer : p.max_message_size < message_size) where
  abbrev pub lib : Library GroupDev
  lib = library_of k p w file

  pub revokes :
      (d : GroupDev)
      → IsIdle d
      → IsIdle (lib.revoke_delayed_messages file d)
        × (view (lib.revoke_delayed_messages file d)
            ≡ record (view d) { available = (view d).delayed ++ (view d).available; delayed = [] })
  unfolding step Control.revoke_delayed_messages group_unlocked_ioctl
  revokes d v =
      rw (is_open, fflush_workqueue-done d v)
        (
          revoked-IsIdle d v,
          ap (λ (l : List (List ℕ)). record (view d) { available = l; delayed = [] })
              (contents-append d.message_list d.pending_list),
        )

  pub delays :
      (msecs : ℕ) (d : GroupDev)
      → IsIdle d
      → 0 < msecs
      → msecs < 2 ^ 32
      → IsIdle (lib.set_send_delay file (pos msecs) d).1
        × ((j : ℕ) × (0 < j)
            × (view (lib.set_send_delay file (pos msecs) d).1 ≡ record (view d) { delay = j }))
  unfolding step Control.set_send_delay group_unlocked_ioctl set_delay
  delays msecs d v some_time short =
      let positive : leb (2 ^ 63) msecs ≡ false = ground arith in
      let same : msecs % 2 ^ 32 ≡ msecs = omega arith in
      rw (is_open, positive, same)
        (ground arith, (k.msecs_to_jiffies msecs, linux.jiffies_pos msecs some_time, refl))

  pub awakes :
      (d : GroupDev)
      → IsIdle d
      → IsIdle (lib.awake_barrier file d) × (view (lib.awake_barrier file d) ≡ view d)
  unfolding step Control.awake_barrier group_unlocked_ioctl clear_barrier
  awakes d v = rw is_open (
    ground (arith, clear_barrier_lem d.flags v.flags_byte, flags-IsIdle d (clear_bit d.flags 0) v),
    ground arith,
  )

  pub refuses_delay :
      (n : ℕ) (d : GroupDev)
      → IsIdle d
      → IsIdle (lib.set_send_delay file (negsuc n) d).1
        × (is_negative (lib.set_send_delay file (negsuc n) d).0 ≡ true)
        × (view (lib.set_send_delay file (negsuc n) d).1 ≡ view d)
  unfolding Control.set_send_delay
  refuses_delay n d v = rw is_open (v, refl, refl)

  -- An idle device is the mail slot that the programs rely on, with as many messages as
  -- `max_storage_size` says.
  abbrev pub library_of-IsSlot : IsSlot lib file p.max_storage_size
  library_of-IsSlot = record {
    Valid = IsIdle;
    Storable = Storable k p;
    view = view;
    not_empty = λ m st. st.0;
    sends = sends k p w fine_world linux small file is_open in_buffer;
    sends_full = sends_full k p w fine_world linux small file is_open in_buffer;
    finds_none = finds_none k p w fine_world linux small file is_open in_buffer;
    retrieves = retrieves k p w fine_world linux small file is_open in_buffer;
    revokes = revokes;
    delays = delays;
    refuses_delay = refuses_delay;
    awakes = awakes;
    sleeps = λ n d v h. (v, refl);
  }
