-- ===== src/Programs/Groups/Laws.antt =====
-- What lib/mp_multigroup.c may rely on: each group behaves as a mail slot of its own.
use aosv_project.Prelude.{ℕ, ◌<◌, ◌≡◌, min, false, List, [], ◌∷◌, length, ℤ, pos, is_negative, has}
use aosv_project.Prelude.Bytes.{take}
use aosv_project.Mailbox.{Mailbox, held}
use aosv_project.Programs.{Library}
use aosv_project.Programs.Slot.{posted}

-- Nothing has changed but the slots of these groups.
abbrev pub Outside : {S : Type 0} → (ℕ → S → Mailbox) → List ℕ → S → S → Type 0
Outside view ds s t = (i : ℕ) → has i ds ≡ false → view i t ≡ view i s

-- The group `desc` is opened as `file_of desc`; `cap` is the most that a slot holds.
pub record IsSlots {S : Type 0} (lib : Library S) (cap : ℕ) : Type 1 where
  pub Valid : S → Type 0
  pub Storable : List ℕ → Type 0
  pub view : ℕ → S → Mailbox
  pub file_of : ℕ → ℤ
  pub file_open : (desc : ℕ) → is_negative (file_of desc) ≡ false
  pub not_empty : (m : List ℕ) → Storable m → 0 < length m
  pub starts :
      (desc : ℕ) (s : S)
      → Valid s
      → Valid (lib.open_group desc s).1
        × ((lib.open_group desc s).0 ≡ file_of desc)
        × Outside view [] s (lib.open_group desc s).1
  pub ends :
      (desc : ℕ) (s : S)
      → Valid s
      → Valid (lib.close_group (file_of desc) s)
        × Outside view [] s (lib.close_group (file_of desc) s)
  pub sends :
      (desc : ℕ) (m : List ℕ) (s : S)
      → Valid s
      → Storable m
      → held (view desc s) < cap
      → Valid (lib.send_message (file_of desc) m s).1
        × ((lib.send_message (file_of desc) m s).0 ≡ pos (length m))
        × (view desc (lib.send_message (file_of desc) m s).1 ≡ posted (view desc s) m)
        × Outside view (desc ∷ []) s (lib.send_message (file_of desc) m s).1
  pub finds_none :
      (desc n : ℕ) (s : S)
      → Valid s
      → (view desc s).available ≡ []
      → Valid (lib.retrieve_message (file_of desc) n s).1
        × ((lib.retrieve_message (file_of desc) n s).0.0 ≡ pos 0)
        × (view desc (lib.retrieve_message (file_of desc) n s).1 ≡ view desc s)
        × Outside view (desc ∷ []) s (lib.retrieve_message (file_of desc) n s).1
  pub retrieves :
      (desc n : ℕ) (s : S) (m : List ℕ) (rest : List (List ℕ))
      → Valid s
      → (view desc s).available ≡ m ∷ rest
      → Valid (lib.retrieve_message (file_of desc) n s).1
        × ((lib.retrieve_message (file_of desc) n s).0 ≡ (pos (min n (length m)), take n m))
        × (view desc (lib.retrieve_message (file_of desc) n s).1
            ≡ record (view desc s) { available = rest })
        × Outside view (desc ∷ []) s (lib.retrieve_message (file_of desc) n s).1
