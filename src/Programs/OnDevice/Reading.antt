-- ===== src/Programs/OnDevice/Reading.antt =====
-- `retrieve_message` of lib/tsm_lib.c on an idle group device: the laws of the mail slot for a read.
use mathlib.Core.List.{head-eq_of_cons-eq, tail-eq_of_cons-eq}
use aosv_project.Prelude.{
  ltb, min, ℕ, ◌-◌, ◌≤◌, ◌<◌, ◌^◌, ◌≡◌, inl, inr, refl, ap, ◌∙◌, sym, false, List, [], ◌∷◌, map,
  reverse, arith, length, length-append, Bool-cases, ℤ, pos, is_negative, unsnoc-cases,
}
use aosv_project.Prelude.Bytes.{take, length-take, take-take, take-whole}
use aosv_project.Kernel.{Outcomes, Services, IsLinux}
use aosv_project.Device.{GroupDev, Message, contents, IsIdle}
use aosv_project.Device.Write.{Params}
use aosv_project.Device.Calls.{step}
use aosv_project.Device.Refinement.{view, length-contents, contents-snoc}
use aosv_project.Device.Posting.{
  shorter, taken-IsIdle, group_read-empty, group_read-done, taken_whole,
}
use aosv_project.Programs.{Library, message_size}
use aosv_project.TsmLib.Send.{retrieve_message}
use aosv_project.Programs.OnDevice.{World, IsFine, library_of}

module _ (k : Services) (p : Params) (w : World) (fine_world : IsFine w) (linux : IsLinux k)
    (small : p.max_storage_size < 2 ^ 32) (file : ℤ) (is_open : is_negative file ≡ false)
    (in_buffer : p.max_message_size < message_size) where
  abbrev pub lib : Library GroupDev
  lib = library_of k p w file

  pub finds_none :
      (n : ℕ) (d : GroupDev)
      → IsIdle d
      → (view d).available ≡ []
      → IsIdle (lib.retrieve_message file n d).1
        × ((lib.retrieve_message file n d).0.0 ≡ pos 0)
        × (view (lib.retrieve_message file n d).1 ≡ view d)
  unfolding step retrieve_message
  finds_none n d v e = elim (unsnoc-cases d.message_list) [
    | inl (nothing, _) ↦ rw (is_open, group_read-empty (w.outcomes d) n d v nothing) (v, refl, refl)
    | inr (m, rest, some_left, _) ↦ absurd (
        omega (
          arith,
          ap length e,
          length-contents d.message_list,
          ap length some_left,
          length-append rest (m ∷ []),
        ))
  ]

  what_is_read :
      (n : ℕ) (x : Message)
      → x.data_size ≤ length x.block
      → ◌≡◌ {A = ℤ × List ℕ}
          (pos (shorter n x.data_size), take (shorter n x.data_size) x.block)
          (pos (min n (length (contents x))), take n (contents x))
  what_is_read n x whole =
      let count : length (contents x) ≡ x.data_size = length-take x.data_size x.block whole in
      elim (Bool-cases (ltb x.data_size n)) [
        | inl e ↦
            let all : min n (length (contents x)) ≡ x.data_size = ground (arith, count) in
            rw (e, all, take-whole n (contents x) (ground (arith, count))) refl
        | inr e ↦
            let cut : min n (length (contents x)) ≡ n = ground (arith, count) in
            rw (e, cut, take-take n x.data_size x.block (ground arith)) refl
      ]

  pub retrieves :
      (n : ℕ) (d : GroupDev) (m : List ℕ) (rest : List (List ℕ))
      → IsIdle d
      → (view d).available ≡ m ∷ rest
      → IsIdle (lib.retrieve_message file n d).1
        × ((lib.retrieve_message file n d).0 ≡ (pos (min n (length m)), take n m))
        × (view (lib.retrieve_message file n d).1 ≡ record (view d) { available = rest })
  unfolding step retrieve_message
  retrieves n d m rest v e = elim (unsnoc-cases d.message_list) [
    | inl (nothing, _) ↦
        absurd (omega (arith, ap length e, length-contents d.message_list, ap length nothing))
    | inr (x, xs, some_left, _) ↦
        let same : contents x ∷ reverse (map contents xs) ≡ m ∷ rest =
          sym (contents-snoc xs x)
          ∙ sym (ap (λ (l : List Message). reverse (map contents l)) some_left)
          ∙ e in
        let whole : x.data_size ≤ length x.block =
          taken_whole (w.outcomes d) n d v xs x some_left in
        rw
          (
            is_open,
            group_read-done (w.outcomes d) n d v xs x some_left
                (ap (λ (o : Outcomes). o.uncopied) (fine_world.goes_well d)),
          )
          (
            taken-IsIdle (w.outcomes d) n d v xs x some_left (d.live - 1 - 1),
            what_is_read n x whole
                ∙ ap (λ l. (pos (min n (length l)), take n l)) (head-eq_of_cons-eq same),
            ap (λ l. record (view d) { available = l }) (tail-eq_of_cons-eq same),
          )
  ]
