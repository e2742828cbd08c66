-- ===== src/Device/Refinement/Reads.antt =====
-- `group_read` takes the oldest message of the mail slot.

use aosv_project.Prelude.{
  ℕ, ◌-◌, ◌≤◌, ◌≡◌, ◌⊎◌, inl, inr, refl, ap, ◌∙◌, sym, true, false, List, [], ◌∷◌, ◌++◌, map,
  reverse, arith, length, Bool-cases, pos, minus_one, ◌==◌, unsnoc-cases,
}
use aosv_project.Prelude.Bytes.{take, length-take, take-take}
use aosv_project.Kernel.{Services, Outcomes}
use aosv_project.Mailbox.{deliver, lose, find_empty, delivers, loses, finds_empty}
use aosv_project.Device.{GroupDev, Message, contents, IsIdle}
use aosv_project.Device.Write.{Params}
use aosv_project.Device.Calls.{read, answer, step}
use aosv_project.Device.Posting.{
  shorter, taken, taken-IsIdle, group_read-empty, group_read-done, group_read-lost, taken_whole,
}
use aosv_project.Device.Refinement.{view, Implements, contents-snoc, box}

module _ (k : Services) (p : Params) where
  pub read-Implements :
      (o : Outcomes) (n : ℕ) (d : GroupDev)
      → IsIdle d
      → Implements k p (read o n) d (step k p (read o n) d)
  unfolding step
  read-Implements o n d v = elim (unsnoc-cases d.message_list) [
    | inl (e, _) ↦ record {
      dev = d;
      result = answer (pos 0) [];
      event = find_empty;
      ends = rw (group_read-empty o n d v e);
      idle = v;
      allowed = finds_empty (ap (λ (l : List Message). reverse (map contents l)) e) refl;
      shows = (refl, refl);
      suits = tt;
    }
    | inr (m, rest, e, _) ↦ found m rest e (Bool-cases (o.uncopied == 0))
  ]
    where
      module_size : Message → ℕ
      module_size m = shorter n m.data_size

      before :
          (m : Message) (rest : List Message)
          → d.message_list ≡ rest ++ m ∷ []
          → view d ≡ record (box rest d.pending_list d.delay) {
            available = contents m ∷ reverse (map contents rest);
          }
      before m rest e =
          ap (λ (l : List Message). box l d.pending_list d.delay) e
          ∙ ap (λ (l : List (List ℕ)). record (box rest d.pending_list d.delay) { available = l })
              (contents-snoc rest m)

      found :
          (m : Message) (rest : List Message)
          → d.message_list ≡ rest ++ m ∷ []
          → (o.uncopied == 0 ≡ true) ⊎ (o.uncopied == 0 ≡ false)
          → Implements k p (read o n) d (step k p (read o n) d)
      found m rest e (inl c) =
          let fits : m.data_size ≤ length m.block = taken_whole o n d v rest m e in
          record {
            dev = record (taken rest d) { live = d.live - 1 - 1 };
            result = answer (pos (module_size m)) (take (module_size m) m.block);
            event = deliver (contents m) (module_size m);
            ends = rw (group_read-done o n d v rest m e (ground arith));
            idle = taken-IsIdle o n d v rest m e (d.live - 1 - 1);
            allowed =
                delivers (before m rest e) (ground (arith, length-take m.data_size m.block fits));
            shows = (refl, sym (take-take (module_size m) m.data_size m.block (ground arith)));
            suits = (ground (arith, length-take m.data_size m.block fits), ground arith);
          }
      found m rest e (inr c) = record {
        dev = taken rest d;
        result = answer minus_one (take (module_size m - o.uncopied) m.block);
        event = lose (contents m);
        ends = rw (group_read-lost o n d v rest m e (ground arith));
        idle = taken-IsIdle o n d v rest m e d.live;
        allowed = loses (before m rest e);
        shows = refl;
        suits = ground arith;
      }
