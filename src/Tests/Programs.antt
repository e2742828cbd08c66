-- ===== src/Tests/Programs.antt =====
-- A program that opens a group, sends a text and changes the delay, and works that expire.
use aosv_project.TsmLib.Delivery
use aosv_project.Prelude.Bytes.{replicate}
use aosv_project.Device.{GroupDev, opened}
use aosv_project.Device.Write.{group_write, write_result}
use aosv_project.Device.Read.{group_read, read_result}
use aosv_project.Manager.Install.{new_device}
use aosv_project.Manager.Installation.{new_device-IsIdle}
use aosv_project.TsmLib.Sending.{strnlen}
use aosv_project.Device.Race.{flush_interrupted}
use aosv_project.Prelude.{
  refl, ℕ, List, ◌∷◌, [], pos, some, ◌≡◌, arith, true, minus_one, if◌then◌else◌, ◌==◌,
}
use aosv_project.TsmLib.Sending
use aosv_project.TsmLib.Opening
use aosv_project.Device.Flush
use aosv_project.Device.Race
use aosv_project.Kernel.{done, oops}
use aosv_project.TsmLib.{finished, kept, write}
use aosv_project.TsmLib.Send.{send_message, sent}
use aosv_project.TsmLib.Open.{Answers}
use aosv_project.Device.Works.{fflush_workqueue}
use aosv_project.Device.Flush.{revoked, expired}
use aosv_project.Device.Race.{flush_interrupted}
use aosv_project.Tests.Devices.{defaults, fine, box, sample, sample-IsIdle}

-- "ok", and memory behind it.
abbrev text : List ℕ
text = 111 ∷ 107 ∷ 0 ∷ 5 ∷ 6 ∷ []

abbrev long_text : List ℕ
long_text = 111 ∷ 107 ∷ 0 ∷ replicate 40 5

send_message_lem_example :
    send_message (pos 2) (pos 3) 4 (some text)
    ≡ done (sent (finished (pos 2) kept (write (pos 3) text 2 ∷ [])) (some text))
unfolding strnlen
send_message_lem_example =
    Sending.send_message_lem (pos 2) (pos 3) refl 4 (omega arith) text (omega arith)

-- The second attempt to open the group's file succeeds.
abbrev answers : Answers
answers = record {
  tsm_fd = pos 3;
  install_ret = pos 0;
  size_ret = pos 0;
  size = 32;
  name_block = true;
  device_fd = λ i. if i == 0 then minus_one else pos 4;
}

fflush_workqueue-done_example : fflush_workqueue sample ≡ done (revoked sample)
fflush_workqueue-done_example = Flush.fflush_workqueue-done sample sample-IsIdle

flush_interrupted-oops_example : flush_interrupted 3 sample ≡ oops
flush_interrupted-oops_example = Race.flush_interrupted-oops 3 sample sample-IsIdle refl

-- A device that holds nothing.
abbrev bare : GroupDev
bare = new_device 7 true

text-delivered_example :
    (send_message (pos 2) (pos 3) 32 (some long_text)
      ≡ done (sent (finished (pos 2) kept (write (pos 3) long_text 2 ∷ [])) (some long_text)))
    × ((e : GroupDev) × (group_write box defaults fine opened long_text 2 bare
          ≡ done (write_result e (pos 2)))
        × ((f : GroupDev) × (group_read fine opened 10 e
              ≡ done (read_result f (pos 2) (111 ∷ 107 ∷ [])))))
unfolding strnlen new_device
text-delivered_example =
    Delivery.text-delivered box defaults (omega arith) fine (pos 2) (pos 3) refl long_text bare
      (new_device-IsIdle 7 true).0 10 (omega arith) (omega arith) refl refl (omega arith) refl
      (omega arith)
