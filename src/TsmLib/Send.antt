-- ===== src/TsmLib/Send.antt =====
-- lib/tsm_lib.c: `send_message` and `retrieve_message`.
use aosv_project.Prelude.{
  ℕ, zero, suc, true, false, List, [], ◌∷◌, Option, none, some, ◌==◌, if◌then◌else◌, ℤ, minus_one,
  is_negative,
}
use aosv_project.Prelude.Bytes.{store}
use aosv_project.Kernel.{Run, done, oops, ◌>>=◌}
use aosv_project.TsmLib.{Done, finished, kept, minus_einval, minus_eio, write, read}

-- `msg[i]` in memory that ends with the list.
abbrev pub load : List ℕ → ℕ → Run ℕ
load [] i = oops
load (x ∷ xs) zero = done x
load (x ∷ xs) (suc i) = load xs i

abbrev pub save : List ℕ → ℕ → ℕ → Run (List ℕ)
save mem i v = elim (store mem i v) [ none ↦ oops | some m ↦ done m ]

-- `strlen`: the bytes before the first 0.
abbrev pub strlen : List ℕ → Run ℕ
strlen [] = oops
strlen (x ∷ xs) = elim (x == 0) [ true ↦ done 0 | false ↦ strlen xs >>= λ n. done (suc n) ]

-- The call, and the message's memory after it.
pub record Sent : Type 0 where
  pub done_call : Done
  pub memory : Option (List ℕ)

abbrev pub sent : Done → Option (List ℕ) → Sent
sent c m = record { done_call = c; memory = m }

-- The byte behind the largest message becomes 0 for the length of a `strlen`.
unfoldable pub send_clipped : (answer : ℤ) (fd : ℤ) (max : ℕ) → List ℕ → Run Sent
send_clipped answer fd max msg = do
  victim ← load msg max
  cut ← save msg max 0
  length ← strlen cut
  back ← save cut max victim
  done (
      if length == 0
      then sent (finished minus_one minus_einval []) (some back)
      else sent (finished answer kept (write fd back length ∷ [])) (some back))

-- `answer` is what the system call `write` returns.
unfoldable pub send_message : (answer : ℤ) (fd : ℤ) (max : ℕ) → Option (List ℕ) → Run Sent
unfolding send_clipped
send_message answer fd max msg =
    if is_negative fd
    then done (sent (finished minus_one minus_einval []) msg)
    else (if max == 0 then done (sent (finished minus_one minus_eio []) msg) else elim msg [
      | none ↦ done (sent (finished minus_one minus_einval []) none)
      | some m ↦ send_clipped answer fd max m
    ])

-- `length` is a `size_t`, never negative.
unfoldable pub retrieve_message : (answer : ℤ) (fd : ℤ) (length : ℕ) → Done
retrieve_message answer fd length =
    if is_negative fd
    then finished minus_one minus_einval []
    else finished answer kept (read fd length ∷ [])
