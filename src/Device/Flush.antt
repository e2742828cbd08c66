-- ===== src/Device/Flush.antt =====
-- The exact effect of a flush and of a timer that expires, on a device that is idle.
use mathlib.Core.List.{reverse-reverse}
use aosv_project.Prelude.{
  list_del-reverse, ℕ, ◌+◌, ◌-◌, ◌/◌, ◌%◌, ◌<◌, ◌≡◌, refl, sym, ap, ◌∙◌, true, List, [], ◌∷◌, ◌++◌,
  none, some, inl, inr, arith, unsnoc, unsnoc-cases, length, has, has-reverse, list_del, Distinct,
  reverse, Bool-cases, length-append, length-reverse, length-unsnoc, reverse-Distinct,
  list_del-Distinct,
}
use aosv_project.Kernel.{done}
use aosv_project.Device.{GroupDev, all_set, IsIdle, AllWhole-append, AllWhole-snoc}
use aosv_project.Device.Flags.{
  check_flushing_lem, set_flushing_lem, clear_flushing_lem, set_flushing, clear_flushing,
  is_flushing,
}
use aosv_project.Device.Messages.{flush_pending}
use aosv_project.Device.Works.{
  delayed_work_fun, run_work, flush_works, flush_locked, fflush_workqueue,
}

-- In the loop: the flag is set, nothing is pending, and the works left are those of the list.
record IsFlushing (d : GroupDev) (ws : List ℕ) : Type 0 where
  pointers : d.has ≡ all_set true
  byte : d.flags < 256
  flag : d.flags / 2 % 2 ≡ 1
  emptied : d.pending_list ≡ []
  pending_free : d.pending_sem ≡ 1
  linked : d.delay_list ≡ reverse ws
  queued : d.queued ≡ reverse ws
  distinct : Distinct ws

-- A work that runs during a flush finds no message, leaves the list alone and is freed.
work_flushed :
    (w : ℕ) (d : GroupDev)
    → d.flags < 256
    → d.flags / 2 % 2 ≡ 1
    → d.has ≡ all_set true
    → d.pending_list ≡ []
    → d.pending_sem ≡ 1
    → delayed_work_fun w d ≡ record d { live = d.live - 1 }
unfolding delayed_work_fun is_flushing
work_flushed w d byte flag p e s = ground (arith, check_flushing_lem d.flags byte)

abbrev flushed : List ℕ → GroupDev → GroupDev
flushed ws d = record d { delay_list = []; queued = []; live = d.live - length ws }

has_last : (w : ℕ) (ws l : List ℕ) → l ≡ reverse (w ∷ ws) → has w l ≡ true
has_last w ws l e = ap (has w) e ∙ has-reverse w (w ∷ ws) ∙ ground arith

-- One round of the loop.
abbrev one_flushed : List ℕ → GroupDev → GroupDev
one_flushed ws d = record d { delay_list = reverse ws; queued = reverse ws; live = d.live - 1 }

flush_round :
    (w : ℕ) (ws : List ℕ) (d : GroupDev)
    → IsFlushing d (w ∷ ws)
    → run_work w (record d { delay_list = list_del w d.delay_list }) ≡ done (one_flushed ws d)
unfolding run_work
flush_round w ws d v = ground (
  arith,
  has_last w ws d.queued v.queued,
  list_del-reverse w ws d.queued v.distinct.0 v.queued,
  list_del-reverse w ws d.delay_list v.distinct.0 v.linked,
  work_flushed w (record d { delay_list = reverse ws; queued = reverse ws }) v.byte v.flag
      v.pointers v.emptied v.pending_free,
)

flush_works-done :
    (ws : List ℕ) (d : GroupDev) → IsFlushing d ws → flush_works ws d ≡ done (flushed ws d)
unfolding flush_works
flush_works-done [] d v = ground arith
flush_works-done (w ∷ ws) d v =
    ground (arith, flush_round w ws d v, flush_works-done ws (one_flushed ws d) rest)
  where
    rest : IsFlushing (one_flushed ws d) ws
    rest = record {
      pointers = v.pointers;
      byte = v.byte;
      flag = v.flag;
      emptied = v.emptied;
      pending_free = v.pending_free;
      linked = refl;
      queued = refl;
      distinct = v.distinct.1;
    }

-- What a flush does: the pending messages go behind the others in the list, and all works go.
abbrev pub revoked : GroupDev → GroupDev
revoked d = record d {
  message_list = d.message_list ++ d.pending_list;
  pending_list = [];
  delay_list = [];
  queued = [];
  live = d.live - length d.queued;
}

flush_pending-done :
    (d : GroupDev)
    → IsIdle d
    → flush_pending d
      ≡ record d { message_list = d.message_list ++ d.pending_list; pending_list = [] }
unfolding flush_pending
flush_pending-done d v = ground arith

flush_locked-done :
    (d : GroupDev)
    → IsIdle d
    → d.has.delay_wq ≡ true
    → d.pending_list ≡ []
    → flush_locked d ≡ done (flushed d.queued d)
unfolding flush_locked set_flushing clear_flushing
flush_locked-done d v wq p = ground (
  arith,
  flush_works-done (reverse d.delay_list) marked start,
  set_flushing_lem d.flags v.flags_byte,
  clear_flushing_lem marked.flags start.byte,
  length-reverse d.delay_list,
)
  where
    marked : GroupDev
    marked = record d { wq_sem = 0; flags = d.flags + 2 }

    start : IsFlushing marked (reverse d.delay_list)
    start = record {
      pointers = ground arith;
      byte = omega (arith, v.flags_byte, v.not_flushing);
      flag = omega (arith, v.not_flushing);
      emptied = p;
      pending_free = v.pending_free;
      linked = sym (reverse-reverse d.delay_list);
      queued = sym v.linked ∙ sym (reverse-reverse d.delay_list);
      distinct = reverse-Distinct d.delay_list (rw (v.linked) v.distinct);
    }

-- `fflush_workqueue` on an idle device, with or without a workqueue, ends: the pending messages stand
-- behind the others in the message list, so they are read first, each side in its own order; each
-- queued work has run and is freed, and nothing else has changed.
pub fflush_workqueue-done : (d : GroupDev) → IsIdle d → fflush_workqueue d ≡ done (revoked d)
unfolding fflush_workqueue
fflush_workqueue-done d v = elim (Bool-cases d.has.delay_wq) [
  | inl wq ↦ ground (arith, flush_pending-done d v, flush_locked-done moved moved-IsIdle wq refl)
  | inr wq ↦ ground (arith, flush_pending-done d v, v.no_works wq)
]
  where
    moved : GroupDev
    moved = record d { message_list = d.message_list ++ d.pending_list; pending_list = [] }

    moved-IsIdle : IsIdle moved
    moved-IsIdle = record {
      pointers = v.pointers;
      message_free = v.message_free;
      pending_free = v.pending_free;
      wq_free = v.wq_free;
      flags_byte = v.flags_byte;
      not_flushing = v.not_flushing;
      small = v.small;
      counted = omega (arith, v.counted, length-append d.message_list d.pending_list);
      linked = v.linked;
      distinct = v.distinct;
      no_works = v.no_works;
      whole = AllWhole-append d.message_list d.pending_list v.whole v.whole_pending;
      whole_pending = tt;
    }

pub revoked-IsIdle : (d : GroupDev) → IsIdle d → IsIdle (revoked d)
revoked-IsIdle d v = ground (
  arith,
  length-append d.message_list d.pending_list,
  AllWhole-append d.message_list d.pending_list v.whole v.whole_pending,
)

-- The oldest pending message becomes the newest available one.
abbrev pub published : GroupDev → GroupDev
published d = elim (unsnoc d.pending_list) [
  | none ↦ d
  | some (m, rest) ↦ record d { pending_list = rest; message_list = m ∷ d.message_list }
]

abbrev pub expired : ℕ → GroupDev → GroupDev
expired w d = record (published d) {
  delay_list = list_del w d.delay_list;
  queued = list_del w d.queued;
  live = d.live - 1;
}

-- A queued work of an idle device runs, unlinks and frees itself, and the oldest pending message, if
-- there is one, becomes the newest available one: whichever work it is, and no other message.
pub run_work-done :
    (w : ℕ) (d : GroupDev) → IsIdle d → has w d.queued ≡ true → run_work w d ≡ done (expired w d)
unfolding run_work is_flushing
run_work-done w d v h = ground (arith, check_flushing_lem d.flags v.flags_byte)

pub expired-IsIdle : (w : ℕ) (d : GroupDev) → IsIdle d → IsIdle (expired w d)
expired-IsIdle w d v = elim (unsnoc-cases d.pending_list) [
  | inl (e, u) ↦ ground (arith, u, list_del-Distinct w d.queued v.distinct)
  | inr (x, ys, e, u) ↦ ground (
    arith,
    length-unsnoc d.pending_list x ys,
    list_del-Distinct w d.queued v.distinct,
    AllWhole-snoc ys x (rw e at v.whole_pending),
  )
]
