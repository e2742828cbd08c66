-- ===== src/Prelude/Bytes.antt =====
-- Blocks of memory as lists of bytes.
use Prim.Native.Nat.{ℕ, zero, suc, ◌≤◌, ◌<◌}
use mathlib.Core.Path.{◌≡◌, refl, ap}
use mathlib.Core.Option.{Option, none, some}
use mathlib.Core.List.{List, [], ◌∷◌, ◌++◌}
use native.Mathlib.Omega.{arith}
use aosv_project.Prelude.Lists.{length}

abbrev pub take {ℓ} : {A : Type ℓ} → ℕ → List A → List A
take zero xs = []
take (suc n) [] = []
take (suc n) (x ∷ xs) = x ∷ take n xs

abbrev pub drop {ℓ} : {A : Type ℓ} → ℕ → List A → List A
drop zero xs = xs
drop (suc n) [] = []
drop (suc n) (x ∷ xs) = drop n xs

abbrev pub replicate {ℓ} : {A : Type ℓ} → ℕ → A → List A
replicate zero a = []
replicate (suc n) a = a ∷ replicate n a

-- The first bytes of a block are overwritten by `xs`, as far as the block goes.
abbrev pub overwrite : List ℕ → List ℕ → List ℕ
overwrite [] block = block
overwrite (x ∷ xs) [] = []
overwrite (x ∷ xs) (y ∷ block) = x ∷ overwrite xs block

-- `block[i] = v`; `none` where `i` lies outside the block.
abbrev pub store : List ℕ → ℕ → ℕ → Option (List ℕ)
store [] i v = none
store (x ∷ xs) zero v = some (v ∷ xs)
store (x ∷ xs) (suc i) v = elim (store xs i v) [ none ↦ none | some ys ↦ some (x ∷ ys) ]

pub length-replicate {ℓ} : {A : Type ℓ} (n : ℕ) (a : A) → length (replicate n a) ≡ n
length-replicate zero a = refl
length-replicate (suc n) a = ap suc (length-replicate n a)

pub length-overwrite : (xs block : List ℕ) → length (overwrite xs block) ≡ length block
length-overwrite [] block = refl
length-overwrite (x ∷ xs) [] = refl
length-overwrite (x ∷ xs) (y ∷ block) = ap suc (length-overwrite xs block)

-- A store hits the block exactly when its index is below the block's size.
pub store_out : (block : List ℕ) (i v : ℕ) → length block ≤ i → store block i v ≡ none
store_out [] i v h = refl
store_out (x ∷ xs) zero v h = absurd (omega arith)
store_out (x ∷ xs) (suc i) v h = ground (arith, store_out xs i v)

-- The block after such a store.
abbrev pub put : List ℕ → ℕ → ℕ → List ℕ
put [] i v = []
put (x ∷ xs) zero v = v ∷ xs
put (x ∷ xs) (suc i) v = x ∷ put xs i v

pub store_in :
    (block : List ℕ) (i v : ℕ) → i < length block → store block i v ≡ some (put block i v)
store_in [] i v h = absurd (omega arith)
store_in (x ∷ xs) zero v h = refl
store_in (x ∷ xs) (suc i) v h = ground (arith, store_in xs i v)

pub length-put : (xs : List ℕ) (i v : ℕ) → length (put xs i v) ≡ length xs
length-put [] i v = refl
length-put (x ∷ xs) zero v = refl
length-put (x ∷ xs) (suc i) v = ap suc (length-put xs i v)

pub take-put : (n : ℕ) (xs : List ℕ) (i v : ℕ) → n ≤ i → take n (put xs i v) ≡ take n xs
take-put zero xs i v h = refl
take-put (suc n) [] i v h = refl
take-put (suc n) (x ∷ xs) zero v h = absurd (omega arith)
take-put (suc n) (x ∷ xs) (suc i) v h = ap (◌∷◌ x) (take-put n xs i v (omega arith))

-- What was copied in can be read back, up to any shorter length.
pub take-overwrite-take :
    (n l : ℕ) (xs block : List ℕ)
    → n ≤ l
    → l ≤ length xs
    → l ≤ length block
    → take n (overwrite (take l xs) block) ≡ take n xs
take-overwrite-take zero l xs block h hx hb = refl
take-overwrite-take (suc n) zero xs block h hx hb = absurd (omega arith)
take-overwrite-take (suc n) (suc l) [] block h hx hb = absurd (omega arith)
take-overwrite-take (suc n) (suc l) (x ∷ xs) [] h hx hb = absurd (omega arith)
take-overwrite-take (suc n) (suc l) (x ∷ xs) (y ∷ block) h hx hb =
    ap (◌∷◌ x) (take-overwrite-take n l xs block (omega arith) (omega arith) (omega arith))

pub length-take : (n : ℕ) (xs : List ℕ) → n ≤ length xs → length (take n xs) ≡ n
length-take zero xs h = refl
length-take (suc n) [] h = absurd (omega arith)
length-take (suc n) (x ∷ xs) h = ap suc (length-take n xs (omega arith))

pub take-take : (n l : ℕ) (xs : List ℕ) → n ≤ l → take n (take l xs) ≡ take n xs
take-take zero l xs h = refl
take-take (suc n) zero xs h = absurd (omega arith)
take-take (suc n) (suc l) [] h = refl
take-take (suc n) (suc l) (x ∷ xs) h = ap (◌∷◌ x) (take-take n l xs (omega arith))

pub take-whole {ℓ} : {A : Type ℓ} (n : ℕ) (xs : List A) → length xs ≤ n → take n xs ≡ xs
take-whole zero [] h = refl
take-whole (suc n) [] h = refl
take-whole zero (x ∷ xs) h = absurd (omega arith)
take-whole (suc n) (x ∷ xs) h = ap (◌∷◌ x) (take-whole n xs (omega arith))

pub take-append : (xs ys : List ℕ) → take (length xs) (xs ++ ys) ≡ xs
take-append [] ys = refl
take-append (x ∷ xs) ys = ap (◌∷◌ x) (take-append xs ys)
