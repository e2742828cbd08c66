-- ===== src/Programs/Slot.antt =====
-- What a program may rely on: a group behaves as the mail slot of Mailbox.antt. These are laws of the
-- library's calls, and any implementation that has them will do.
use aosv_project.Prelude.{
  ◌⊎◌, ℕ, ◌^◌, true, ◌≤◌, ◌<◌, ◌≡◌, min, List, [], ◌∷◌, ◌++◌, length, ℤ, pos, negsuc, is_negative,
  if◌then◌else◌, ◌==◌,
}
use aosv_project.Prelude.Bytes.{take}
use aosv_project.Mailbox.{Mailbox, held}
use aosv_project.Programs.{Library}

-- The mail slot with one more message.
abbrev pub posted : Mailbox → List ℕ → Mailbox
posted q m =
    if q.delay == 0
    then record q { available = q.available ++ m ∷ [] }
    else record q { delayed = q.delayed ++ m ∷ [] }

-- `Valid` are the states in which the file `fd` is open, `Storable` the texts that can be sent, and `cap`
-- is the most that the slot holds.
pub record IsSlot {S : Type 0} (lib : Library S) (fd : ℤ) (cap : ℕ) : Type 1 where
  pub Valid : S → Type 0
  pub Storable : List ℕ → Type 0
  pub view : S → Mailbox
  pub not_empty : (m : List ℕ) → Storable m → 0 < length m
  pub sends :
      (m : List ℕ) (s : S)
      → Valid s
      → Storable m
      → held (view s) < cap
      → Valid (lib.send_message fd m s).1
        × ((lib.send_message fd m s).0 ≡ pos (length m))
        × (view (lib.send_message fd m s).1 ≡ posted (view s) m)
  pub sends_full :
      (m : List ℕ) (s : S)
      → Valid s
      → Storable m
      → cap ≤ held (view s)
      → Valid (lib.send_message fd m s).1
        × ((lib.send_message fd m s).0 ≡ pos 0)
        × (view (lib.send_message fd m s).1 ≡ view s)
  pub finds_none :
      (n : ℕ) (s : S)
      → Valid s
      → (view s).available ≡ []
      → Valid (lib.retrieve_message fd n s).1
        × ((lib.retrieve_message fd n s).0.0 ≡ pos 0)
        × (view (lib.retrieve_message fd n s).1 ≡ view s)
  pub retrieves :
      (n : ℕ) (s : S) (m : List ℕ) (rest : List (List ℕ))
      → Valid s
      → (view s).available ≡ m ∷ rest
      → Valid (lib.retrieve_message fd n s).1
        × ((lib.retrieve_message fd n s).0 ≡ (pos (min n (length m)), take n m))
        × (view (lib.retrieve_message fd n s).1 ≡ record (view s) { available = rest })
  pub revokes :
      (s : S)
      → Valid s
      → Valid (lib.revoke_delayed_messages fd s)
        × (view (lib.revoke_delayed_messages fd s)
            ≡ record (view s) { available = (view s).delayed ++ (view s).available; delayed = [] })
  pub delays :
      (msecs : ℕ) (s : S)
      → Valid s
      → 0 < msecs
      → msecs < 2 ^ 32
      → Valid (lib.set_send_delay fd (pos msecs) s).1
        × ((j : ℕ) × (0 < j)
            × (view (lib.set_send_delay fd (pos msecs) s).1 ≡ record (view s) { delay = j }))
  pub refuses_delay :
      (n : ℕ) (s : S)
      → Valid s
      → Valid (lib.set_send_delay fd (negsuc n) s).1
        × (is_negative (lib.set_send_delay fd (negsuc n) s).0 ≡ true)
        × (view (lib.set_send_delay fd (negsuc n) s).1 ≡ view s)
  pub awakes :
      (s : S) → Valid s → Valid (lib.awake_barrier fd s) × (view (lib.awake_barrier fd s) ≡ view s)
  -- Time can pass without a change where no message waits for its delay, and no time where one does.
  pub sleeps :
      (n : ℕ) (s : S)
      → Valid s
      → (n ≡ 0) ⊎ ((view s).delayed ≡ [])
      → Valid (lib.sleep n s) × (view (lib.sleep n s) ≡ view s)
