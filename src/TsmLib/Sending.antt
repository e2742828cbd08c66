-- ===== src/TsmLib/Sending.antt =====
-- What `send_message` of lib/tsm_lib.c passes to `write`, and how it treats the caller's memory.
use aosv_project.Prelude.{
  ℕ, zero, suc, ◌≤◌, ◌<◌, ◌≡◌, refl, ap, false, List, [], ◌∷◌, some, ◌==◌, if◌then◌else◌, ℤ,
  minus_one, is_negative, arith, length,
}
use aosv_project.Prelude.Bytes.{store_in, put, length-put}
use aosv_project.Kernel.{done, oops}
use aosv_project.TsmLib.{finished, kept, minus_einval, write}
use aosv_project.TsmLib.Send.{load, strlen, sent, send_message}

-- The length of a text of at most `max` bytes: the bytes before the first 0 among them.
unfoldable pub strnlen : ℕ → List ℕ → ℕ
strnlen zero mem = 0
strnlen (suc max) [] = 0
strnlen (suc max) (x ∷ mem) = if x == 0 then 0 else suc (strnlen max mem)

pub strnlen-le : (max : ℕ) (mem : List ℕ) → strnlen max mem ≤ max
unfolding strnlen
strnlen-le zero mem = omega arith
strnlen-le (suc max) [] = omega arith
strnlen-le (suc max) (x ∷ mem) = ground (arith, strnlen-le max mem)

-- With a 0 at `max` the end of the text is found there at the latest.
strlen-put :
    (max : ℕ) (mem : List ℕ) → max < length mem → strlen (put mem max 0) ≡ done (strnlen max mem)
unfolding strnlen
strlen-put max [] h = absurd (omega arith)
strlen-put zero (x ∷ mem) h = refl
strlen-put (suc max) (x ∷ mem) h = ground (arith, strlen-put max mem)

-- The byte at an index, and the memory after it is put back.
load_in :
    (mem : List ℕ) (i v : ℕ)
    → i < length mem
    → (b : ℕ) × (load mem i ≡ done b) × (put (put mem i v) i b ≡ mem)
load_in [] i v h = absurd (omega arith)
load_in (x ∷ mem) zero v h = (x, refl, refl)
load_in (x ∷ mem) (suc i) v h =
    let (b, e, f) = load_in mem i v (omega arith) in (b, e, ap (◌∷◌ x) f)

load_out : (mem : List ℕ) (i : ℕ) → length mem ≤ i → load mem i ≡ oops
load_out [] i h = refl
load_out (x ∷ mem) zero h = absurd (omega arith)
load_out (x ∷ mem) (suc i) h = load_out mem i (omega arith)

module _ (answer fd : ℤ) (opened_fd : is_negative fd ≡ false) (max : ℕ) (positive : 0 < max)
    (msg : List ℕ) where
  -- With a group's file and a known largest size, for a message whose memory reaches beyond `max` bytes: an empty text is refused with no system
  -- call, and of any other the bytes before the first 0, `max` at most, are written in one system
  -- call; the memory is as before.
  pub send_message_lem :
      max < length msg
      → send_message answer fd max (some msg)
        ≡ done (
            if strnlen max msg == 0
            then sent (finished minus_one minus_einval []) (some msg)
            else sent (finished answer kept (write fd msg (strnlen max msg) ∷ [])) (some msg))
  unfolding send_message
  send_message_lem h =
      let (victim, loaded, back) = load_in msg max 0 h in
      ground (
        arith,
        loaded,
        back,
        store_in msg max 0 h,
        strlen-put max msg h,
        length-put msg max 0,
        store_in (put msg max 0) max victim,
      )

  -- With a group's file and a known largest size, where the memory ends before that, the function reads beyond it, whatever the text.
  pub send_message-oops : length msg ≤ max → send_message answer fd max (some msg) ≡ oops
  unfolding send_message
  send_message-oops h = ground (arith, load_out msg max h)
