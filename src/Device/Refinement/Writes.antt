-- ===== src/Device/Refinement/Writes.antt =====
-- `group_write` posts a message to the mail slot, or leaves it alone.

use aosv_project.Prelude.{
  ◌&&◌, not, leb, minus_one, Bool, ℕ, ◌≤◌, ◌<◌, ◌^◌, ◌≡◌, inl, inr, refl, ap, ◌∙◌, sym, List, [],
  ◌∷◌, ◌++◌, arith, length, Bool-cases, pos, ◌==◌, if◌then◌else◌,
}
use aosv_project.Prelude.Bytes.{take, length-take}
use aosv_project.Kernel.{Services, IsLinux, Outcomes}
use aosv_project.Mailbox.{
  find_full, finds_full, Mailbox, held, post, refuse, Step, posts_now, posts_later, refuses,
}
use aosv_project.Device.{GroupDev, Message, contents, IsIdle}
use aosv_project.Device.Write.{Params}
use aosv_project.Device.Calls.{write, answer, step}
use aosv_project.Device.Posting.{
  clipped, accepts, with_work, message_of, posted, posted-IsIdle, contents-message_of,
  group_write-done, group_write-refused, message_of-whole,
}
use aosv_project.Device.Refinement.{view, IsProper, Implements, contents-cons, length-contents}

view-with_work : (o : Outcomes) (d : GroupDev) → view (with_work o d) ≡ view d
view-with_work o d = ground arith

-- The mail slot after a message is posted.
abbrev posted_view : Mailbox → List ℕ → Mailbox
posted_view q m =
    if q.delay == 0
    then record q { available = q.available ++ m ∷ [] }
    else record q { delayed = q.delayed ++ m ∷ [] }

pub view-posted :
    (o : Outcomes) (m : Message) (d : GroupDev)
    → view (posted o m d) ≡ posted_view (view d) (contents m)
view-posted o m d = elim (Bool-cases (d.delay == 0)) [
  | inl e ↦ rw e (
      ap (λ (l : List (List ℕ)). record (view d) { available = l })
        (contents-cons m d.message_list))
  | inr e ↦ rw e (
      view-with_work o _
      ∙ ap (λ (l : List (List ℕ)). record (view d) { delayed = l })
          (contents-cons m d.pending_list))
]

posts-Step :
    {cap size : ℕ} (q : Mailbox) (m : List ℕ)
    → 0 < length m
    → length m ≤ size
    → held q < cap
    → Step cap size q (posted_view q m) (post m)
posts-Step q m ne fits room = elim (Bool-cases (q.delay == 0)) [
  | inl e ↦ rw e (posts_now (ground arith) ne fits room refl)
  | inr e ↦ rw e (posts_later (ground arith) ne fits room refl)
]

module _ (k : Services) (p : Params) (linux : IsLinux k) (small : p.max_storage_size < 2 ^ 32) where
  pub write-Implements :
      (o : Outcomes) (buf : List ℕ) (n : ℕ) (d : GroupDev)
      → IsIdle d
      → IsProper k p (write o buf n) d
      → Implements k p (write o buf n) d (step k p (write o buf n) d)
  unfolding step
  write-Implements o buf n d v h = elim (Bool-cases (accepts p o n d)) [
    | inr a ↦ elim (Bool-cases full) [
      | inl f ↦ record {
        dev = d;
        result = answer (pos 0) [];
        event = find_full;
        ends = rw (group_write-refused k p o buf n d v small a) (ground arith);
        idle = v;
        allowed =
            finds_full
              (ground (arith, length-contents d.message_list, length-contents d.pending_list)) refl;
        shows = (refl, refl);
        suits = ground arith;
      }
      | inr f ↦ record {
        dev = d;
        result = answer minus_one [];
        event = refuse;
        ends = rw (group_write-refused k p o buf n d v small a) (ground arith);
        idle = v;
        allowed = refuses refl;
        shows = (refl, refl);
        suits = ground arith;
      }
    ]
    | inl a ↦ record {
      dev = posted o msg d;
      result = answer (pos size) [];
      event = post (take size buf);
      ends = rw (group_write-done k p o buf n d v small a h.1);
      idle = posted-IsIdle o msg d v (message_of-whole k buf size h.1) (ground arith) h.2;
      allowed =
          rw (view-posted o msg d, stored)
            (posts-Step (view d) (take size buf) (ground (arith, count, linux.ksize_zero))
              (ground (arith, count))
              (ground (arith, length-contents d.message_list, length-contents d.pending_list)));
      shows = (ap pos (sym count), refl);
      suits = (refl, ground arith);
    }
  ]
    where
      full : Bool
      full =
          not (n == 0)
          && (o.data_block && (o.msg_block && leb p.max_storage_size d.messages_number))

      size : ℕ
      size = clipped p n

      msg : Message
      msg = message_of k buf size

      fits : size ≤ length buf
      fits = ground arith

      stored : contents msg ≡ take size buf
      stored = contents-message_of k buf size h.1 fits

      count : length (take size buf) ≡ size
      count = length-take size buf fits
