-- ===== src/Device/Refinement/Commands.antt =====
-- Timers and the commands of `group_unlocked_ioctl` as steps of the mail slot.

use aosv_project.Prelude.{
  ℕ, ◌<◌, ◌^◌, ◌≡◌, inl, inr, refl, ap, ◌∙◌, true, List, [], ◌∷◌, ◌/◌, ◌%◌, map, reverse, some,
  none, arith, has, Bool-cases, pos, minus_one, unsnoc-cases, unsnoc, leb,
}
use aosv_project.Kernel.{Services}
use aosv_project.Mailbox.{
  refuse, publish, skip_publish, publish_all, change_delay, keep, refuses, publishes, skips,
  publishes_all, changes_delay, keeps,
}
use aosv_project.Device.{GroupDev, Message, contents, IsIdle}
use aosv_project.Device.Write.{Params}
use aosv_project.Device.Flags.{
  set_barrier, clear_barrier, set_bit, clear_bit, set_barrier_lem, clear_barrier_lem,
}
use aosv_project.Device.Messages.{set_delay}
use aosv_project.Device.Ioctl.{
  Command, sleep_on_barrier, awake_barrier, set_send_delay, revoke_delayed_messages, unknown,
  group_unlocked_ioctl, ioctl_awake, ioctl_sleep,
}
use aosv_project.Device.Calls.{ioctl, expire, answer, step, eventual}
use aosv_project.Device.Flush.{
  revoked, revoked-IsIdle, fflush_workqueue-done, expired, expired-IsIdle, run_work-done,
}
use aosv_project.Device.Refinement.{
  view, Implements, contents-snoc, contents-cons, contents-append, box,
}

view-expired-none :
    (w : ℕ) (d : GroupDev) → unsnoc d.pending_list ≡ none → view (expired w d) ≡ view d
view-expired-none w d u = ground arith

view-expired-some :
    (w : ℕ) (d : GroupDev) (m : Message) (rest : List Message)
    → unsnoc d.pending_list ≡ some (m, rest)
    → view (expired w d) ≡ box (m ∷ d.message_list) rest d.delay
view-expired-some w d m rest u = ground arith

-- A device stays idle if its flags change in the barrier bit alone.
pub flags-IsIdle :
    (d : GroupDev) (f : ℕ) → IsIdle d → f < 256 → f / 2 % 2 ≡ 0 → IsIdle (record d { flags = f })
flags-IsIdle d f v byte flag = ground arith

module _ (k : Services) (p : Params) where
  pub expire-Implements :
      (w : ℕ) (d : GroupDev)
      → IsIdle d
      → has w d.queued ≡ true
      → Implements k p (expire w) d (step k p (expire w) d)
  unfolding step
  expire-Implements w d v h = elim (unsnoc-cases d.pending_list) [
    | inl (e, u) ↦ record {
      dev = expired w d;
      result = answer (pos 0) [];
      event = skip_publish;
      ends = rw (run_work-done w d v h);
      idle = expired-IsIdle w d v;
      allowed =
          skips (ap (λ (l : List Message). reverse (map contents l)) e) (view-expired-none w d u);
      shows = (refl, refl);
      suits = tt;
    }
    | inr (m, rest, e, u) ↦ record {
      dev = expired w d;
      result = answer (pos 0) [];
      event = publish;
      ends = rw (run_work-done w d v h);
      idle = expired-IsIdle w d v;
      allowed =
          publishes {m = contents m} {rest = reverse (map contents rest)}
            (ap (λ (l : List Message). reverse (map contents l)) e ∙ contents-snoc rest m)
            (view-expired-some w d m rest u
              ∙ (ap
                  (λ (l : List (List ℕ)). record (box d.message_list rest d.delay) {
                    available = l;
                  })
                  (contents-cons m d.message_list)));
      shows = (refl, refl);
      suits = tt;
    }
  ]

  sleep-Implements :
      (arg : ℕ) (queue : List ℕ) (d : GroupDev)
      → IsIdle d
      → Implements k p
          (ioctl sleep_on_barrier arg queue)
          d
          (step k p (ioctl sleep_on_barrier arg queue) d)
  unfolding step group_unlocked_ioctl set_barrier
  sleep-Implements arg queue d v = record {
    dev = set_barrier d;
    result = answer (eventual (ioctl_sleep d).reply) [];
    event = keep;
    ends = refl;
    idle =
        flags-IsIdle d (set_bit d.flags 0) v (ground (arith, set_barrier_lem d.flags v.flags_byte))
          (ground (arith, set_barrier_lem d.flags v.flags_byte));
    allowed = keeps refl;
    shows = ground arith;
    suits = tt;
  }

  awake-Implements :
      (arg : ℕ) (queue : List ℕ) (d : GroupDev)
      → IsIdle d
      → Implements k p
          (ioctl awake_barrier arg queue)
          d
          (step k p (ioctl awake_barrier arg queue) d)
  unfolding step group_unlocked_ioctl clear_barrier
  awake-Implements arg queue d v = record {
    dev = (ioctl_awake queue d).dev;
    result = answer (pos 0) [];
    event = keep;
    ends = refl;
    idle =
        ground
          (arith, clear_barrier_lem d.flags v.flags_byte, flags-IsIdle d (clear_bit d.flags 0) v);
    allowed = keeps (ground arith);
    shows = (refl, refl);
    suits = tt;
  }

  delay-Implements :
      (arg : ℕ) (queue : List ℕ) (d : GroupDev)
      → IsIdle d
      → Implements k p
          (ioctl set_send_delay arg queue)
          d
          (step k p (ioctl set_send_delay arg queue) d)
  unfolding step group_unlocked_ioctl set_delay
  delay-Implements arg queue d v = elim (Bool-cases (leb (2 ^ 63) arg)) [
    | inl e ↦ record {
      dev = d;
      result = answer minus_one [];
      event = refuse;
      ends = ground arith;
      idle = v;
      allowed = refuses refl;
      shows = ground arith;
      suits = ground arith;
    }
    | inr e ↦ record {
      dev = record d { delay = k.msecs_to_jiffies (arg % 2 ^ 32) };
      result = answer (pos 0) [];
      event = change_delay (k.msecs_to_jiffies (arg % 2 ^ 32));
      ends = ground arith;
      idle = ground arith;
      allowed = changes_delay refl;
      shows = (refl, refl);
      suits = (ground arith, refl);
    }
  ]

  pub ioctl-Implements :
      (cmd : Command) (arg : ℕ) (queue : List ℕ) (d : GroupDev)
      → IsIdle d
      → Implements k p (ioctl cmd arg queue) d (step k p (ioctl cmd arg queue) d)
  unfolding step group_unlocked_ioctl
  ioctl-Implements sleep_on_barrier arg queue d v = sleep-Implements arg queue d v
  ioctl-Implements awake_barrier arg queue d v = awake-Implements arg queue d v
  ioctl-Implements set_send_delay arg queue d v = delay-Implements arg queue d v
  ioctl-Implements revoke_delayed_messages arg queue d v = record {
    dev = revoked d;
    result = answer (pos 0) [];
    event = publish_all;
    ends = rw (fflush_workqueue-done d v);
    idle = revoked-IsIdle d v;
    allowed = publishes_all (
        ap (λ (l : List (List ℕ)). record (box d.message_list [] d.delay) { available = l })
          (contents-append d.message_list d.pending_list));
    shows = (refl, refl);
    suits = tt;
  }
  ioctl-Implements unknown arg queue d v = record {
    dev = d;
    result = answer minus_one [];
    event = refuse;
    ends = refl;
    idle = v;
    allowed = refuses refl;
    shows = ground arith;
    suits = tt;
  }
