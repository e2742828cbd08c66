-- ===== src/Kernel.antt =====
-- What the module takes from the Linux kernel: a run that ends or faults, the services that it
-- calls, and the outcome of each call that can fail. No file of the repository defines these.
use aosv_project.Prelude.{ℕ, ◌≤◌, ◌<◌, ◌≡◌, refl, Bool, Option}

-- `oops`: a null pointer, freed memory or a byte outside of its block was used.
pub data Run {ℓ} (A : Type ℓ) : Type ℓ where
  done : A → Run A
  oops : Run A

infixl 5 ◌>>=◌
abbrev pub ◌>>=◌ {ℓ κ} : {A : Type ℓ} {B : Type κ} → Run A → (A → Run B) → Run B
done a >>= f = f a
oops >>= f = oops

-- The run ends, in a result that meets `P`.
abbrev pub Ends {ℓ} : {A : Type ℓ} → (A → Type 0) → Run A → Type 0
Ends P (done a) = P a
Ends P oops = ⊥

-- The same as an equation.
pub Ends-result {ℓ} :
    {A : Type ℓ} (P : A → Type 0) (m : Run A) → Ends P m → (a : A) × (m ≡ done a) × P a
Ends-result P (done a) h = (a, refl, h)
Ends-result P oops h = elim h [ ]

-- `ksize n` is the size of the block that the allocator hands out for `n` bytes.
pub record Services : Type 0 where
  pub ksize : ℕ → ℕ
  pub msecs_to_jiffies : ℕ → ℕ
  pub jiffies_to_msecs : ℕ → ℕ

-- The documented behaviour: a block is never smaller than the request, an empty request has no
-- byte, and a delay is rounded up to whole jiffies.
pub record IsLinux (k : Services) : Type 0 where
  pub ksize_le : (n : ℕ) → n ≤ k.ksize n
  pub ksize_zero : k.ksize 0 ≡ 0
  pub jiffies_zero : k.msecs_to_jiffies 0 ≡ 0
  pub jiffies_pos : (n : ℕ) → 0 < n → 0 < k.msecs_to_jiffies n

-- A run and what comes after it.
pub Ends-bind {ℓ κ} :
    {A : Type ℓ} {B : Type κ} (P : A → Type 0) (Q : B → Type 0) (m : Run A) (f : A → Run B)
    → Ends P m
    → ((a : A) → P a → Ends Q (f a))
    → Ends Q (m >>= f)
Ends-bind P Q (done a) f h next = next a h
Ends-bind P Q oops f h next = elim h [ ]

-- Of one system call: which allocations succeed, the address of a new `struct work`, and how many
-- bytes `copy_from_user` or `copy_to_user` leaves uncopied.
pub record Outcomes : Type 0 where
  pub data_block : Bool
  pub msg_block : Bool
  pub work_block : Option ℕ
  pub uncopied : ℕ
