-- ===== src/TsmLib/Delivery.antt =====
-- A text on its way: `send_message` of lib/tsm_lib.c, `group_write` and `group_read` of
-- kmodule/group_dev.c.
use aosv_project.Prelude.{
  ℕ, ◌-◌, ◌<◌, ◌≤◌, ◌^◌, ◌≡◌, sym, ap, ◌∙◌, true, false, List, [], ◌∷◌, none, some, ℤ, pos,
  is_negative, arith, length, min,
}
use aosv_project.Prelude.Bytes.{take, take-take}
use aosv_project.Kernel.{done, Services, Outcomes}
use aosv_project.Device.{GroupDev, Message, IsIdle, opened}
use aosv_project.Device.Write.{Params, group_write, write_result}
use aosv_project.Device.Read.{group_read, read_result}
use aosv_project.Device.Posting.{
  clipped, accepts, message_of, posted, posted-IsIdle, group_write-done, group_read-done,
  contents-message_of, message_of-whole, taken,
}
use aosv_project.Device.Refinement.{served}
use aosv_project.TsmLib.{finished, kept, write}
use aosv_project.TsmLib.Send.{send_message, sent}
use aosv_project.TsmLib.Sending.{strnlen, strnlen-le, send_message_lem}

module _ (k : Services) (p : Params) (small : p.max_storage_size < 2 ^ 32) (o : Outcomes)
    (answer fd : ℤ) (opened_fd : is_negative fd ≡ false) (text : List ℕ) (d : GroupDev)
    (v : IsIdle d) where
  -- With the largest size that the module gives out, and a message's memory that reaches beyond it:
  -- the bytes of the text before the first 0, the largest size at most, go to `write` in one system
  -- call; an idle device without delay, messages or failures stores them, if the block has a byte to
  -- spare for the terminator; and the next read returns as many of them as it asks for.
  pub text-delivered :
      (l : ℕ)
      → 0 < strnlen p.max_message_size text
      → p.max_message_size < length text
      → d.message_list ≡ []
      → d.delay ≡ 0
      → d.messages_number < p.max_storage_size
      → served o (strnlen p.max_message_size text) ≡ true
      → strnlen p.max_message_size text < k.ksize (strnlen p.max_message_size text)
      → (send_message answer fd p.max_message_size (some text)
          ≡ done (
              sent
                (finished answer kept (write fd text (strnlen p.max_message_size text) ∷ []))
                (some text)))
        × ((e : GroupDev) × (group_write k p o opened text (strnlen p.max_message_size text) d
              ≡ done (write_result e (pos (strnlen p.max_message_size text))))
            × ((f : GroupDev) × (group_read o opened l e
                  ≡ done (
                      read_result f
                        (pos (min l (strnlen p.max_message_size text)))
                        (take (min l (strnlen p.max_message_size text)) text)))))
  text-delivered l some_text longer empty now room served_all block =
      (sending, (posted_dev, posting, (_, reading)))
    where
      n : ℕ
      n = strnlen p.max_message_size text

      msg : Message
      msg = message_of k text n

      posted_dev : GroupDev
      posted_dev = posted o msg d

      short : n ≤ p.max_message_size
      short = strnlen-le p.max_message_size text

      sending :
          send_message answer fd p.max_message_size (some text)
          ≡ done (sent (finished answer kept (write fd text n ∷ [])) (some text))
      sending = ground (
        arith,
        send_message_lem answer fd opened_fd p.max_message_size (omega (arith, short)) text longer,
      )

      fits : clipped p n ≡ n
      fits = ground (arith, short)

      passes : accepts p o n d ≡ true
      passes = ground arith

      posting : group_write k p o opened text n d ≡ done (write_result posted_dev (pos n))
      posting =
          group_write-done k p o text n d v small passes (omega (arith, fits, ap k.ksize fits))
          ∙ ap (λ size. done (write_result (posted o (message_of k text size) d) (pos size))) fits

      -- Without a delay no work is made.
      idle : IsIdle posted_dev
      idle = rw now (
          rw now at (
            posted-IsIdle (record o { work_block = none }) msg d v (message_of-whole k text n block)
              (omega arith) λ w e. absurd (ground arith)))

      bytes : take (min l n) msg.block ≡ take (min l n) text
      bytes =
          sym (take-take (min l n) n msg.block (omega arith))
          ∙ ap (take (min l n)) (contents-message_of k text n block (omega (arith, short)))
          ∙ take-take (min l n) n text (omega arith)

      reading :
          group_read o opened l posted_dev
          ≡ done (
              read_result
                (record (taken [] posted_dev) { live = posted_dev.live - 1 - 1 })
                (pos (min l n))
                (take (min l n) text))
      reading = ground (arith, bytes, group_read-done o l posted_dev idle [] msg)
