-- ===== src/Mailbox.antt =====
-- What a group device promises, with no lists of the kernel, semaphores or works: a mail slot with
-- messages that can be read and messages that still wait for their delay (the primitives of
-- README.md, as kmodule/group_dev.c gives them). The device is proved to implement it in
-- Device/Refinement.

pub mod Order
pub mod Receipt
use aosv_project.Prelude.{ℕ, ◌+◌, ◌≤◌, ◌<◌, ◌≡◌, List, [], ◌∷◌, ◌++◌, length}

-- A message is its bytes; both lists begin with the oldest. `delay` is in jiffies.
pub record Mailbox : Type 0 where
  pub available : List (List ℕ)
  pub delayed : List (List ℕ)
  pub delay : ℕ

pub data Event : Type 0 where
  post : List ℕ → Event  -- a write stores a message
  refuse : Event  -- a call fails and changes nothing
  find_full : Event  -- a write finds no room
  deliver : List ℕ → ℕ → Event  -- a read takes a message and returns so many bytes of it
  lose : List ℕ → Event  -- a read takes a message and fails to copy it out
  find_empty : Event  -- a read finds no message
  publish : Event  -- the delay of one message is over
  skip_publish : Event  -- a delay is over, and no message waits
  publish_all : Event  -- the delayed messages are revoked
  change_delay : ℕ → Event
  keep : Event  -- a call on the barrier

abbrev pub held : Mailbox → ℕ
held q = length q.available + length q.delayed

-- The steps of the mail slot, with at most `cap` messages of at most `size` bytes.
pub data Step (cap size : ℕ) (q r : Mailbox) : Event → Type 0 where
  posts_now :
      {m : List ℕ}
      → q.delay ≡ 0
      → 0 < length m
      → length m ≤ size
      → held q < cap
      → r ≡ record q { available = q.available ++ m ∷ [] }
      → Step cap size q r (post m)
  posts_later :
      {m : List ℕ}
      → 0 < q.delay
      → 0 < length m
      → length m ≤ size
      → held q < cap
      → r ≡ record q { delayed = q.delayed ++ m ∷ [] }
      → Step cap size q r (post m)
  refuses : r ≡ q → Step cap size q r refuse
  finds_full : cap ≤ held q → r ≡ q → Step cap size q r find_full
  delivers :
      {m : List ℕ} {n : ℕ}
      → q ≡ record r { available = m ∷ r.available }
      → n ≤ length m
      → Step cap size q r (deliver m n)
  loses : {m : List ℕ} → q ≡ record r { available = m ∷ r.available } → Step cap size q r (lose m)
  finds_empty : q.available ≡ [] → r ≡ q → Step cap size q r find_empty
  publishes :
      {m : List ℕ} {rest : List (List ℕ)}
      → q.delayed ≡ m ∷ rest
      → r ≡ record q { available = q.available ++ m ∷ []; delayed = rest }
      → Step cap size q r publish
  skips : q.delayed ≡ [] → r ≡ q → Step cap size q r skip_publish
  publishes_all :
      r ≡ record q { available = q.delayed ++ q.available; delayed = [] }
      → Step cap size q r publish_all
  changes_delay : {j : ℕ} → r ≡ record q { delay = j } → Step cap size q r (change_delay j)
  keeps : r ≡ q → Step cap size q r keep

pub data Steps (cap size : ℕ) : Mailbox → Mailbox → List Event → Type 0 where
  end : {q : Mailbox} → Steps cap size q q []
  and_then :
      {q r s : Mailbox} {e : Event} {es : List Event}
      → Step cap size q r e
      → Steps cap size r s es
      → Steps cap size q s (e ∷ es)

-- The messages that a list of events puts in, and those that it takes out, oldest first.
abbrev pub posts : List Event → List (List ℕ)
posts [] = []
posts (post m ∷ es) = m ∷ posts es
posts (_ ∷ es) = posts es

abbrev pub takes : List Event → List (List ℕ)
takes [] = []
takes (deliver m n ∷ es) = m ∷ takes es
takes (lose m ∷ es) = m ∷ takes es
takes (_ ∷ es) = takes es
