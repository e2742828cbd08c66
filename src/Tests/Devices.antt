-- ===== src/Tests/Devices.antt =====
-- A device with one message to read, one delayed message and its work, under the module's default
-- parameters.
use aosv_project.Prelude.{
  ℕ, ◌≤◌, ◌≡◌, refl, true, List, [], ◌∷◌, ◌++◌, some, inl, arith, leb, ◌==◌, if◌then◌else◌, pos,
  ◌+◌, ◌/◌, ◌*◌,
}
use aosv_project.Kernel.{done, Ends, Services, IsLinux, Outcomes}
use aosv_project.Mailbox.{Event, posts, takes, held}
use aosv_project.Mailbox.Order.{queue}
use aosv_project.Device.{Message, GroupDev, all_set, IsIdle, opened}
use aosv_project.Device.Write.{Params, group_write, write_result}
use aosv_project.Device.Read.{group_read}
use aosv_project.Device.Flags.{check_bit, is_flushing}
use aosv_project.Device.Works.{add_delayed_work, run_work}
use aosv_project.Device.Calls.{Call, read, write, expire, step, run}
use aosv_project.Device.Posting
use aosv_project.Device.Refinement.{view}
use aosv_project.Device.Histories
use aosv_project.Device.Histories.{AllProper, AllShow, Realised}
use aosv_project.Device.Blocks

-- The block sizes of the allocator up to 64 bytes, and a byte more above; a jiffy of 4 ms.
abbrev slab : ℕ → ℕ
slab n =
    if n == 0
    then 0
    else (if leb n 8
        then 8
        else (if leb n 16 then 16 else (if leb n 32 then 32 else (if leb n 64 then 64 else n))))

abbrev pub box : Services
box = record { ksize = slab; msecs_to_jiffies = λ m. (m + 3) / 4; jiffies_to_msecs = λ j. 4 * j }

pub box-IsLinux : IsLinux box
box-IsLinux = record {
  ksize_le = λ n. ground arith;
  ksize_zero = refl;
  jiffies_zero = refl;
  jiffies_pos = λ n h. omega arith;
}

abbrev pub defaults : Params
defaults = record { max_message_size = 32; max_storage_size = 64 }

-- Every allocation and copy succeeds; a new work lies at address 9.
abbrev pub fine : Outcomes
fine = record { data_block = true; msg_block = true; work_block = some 9; uncopied = 0 }

abbrev faulty_copy : Outcomes
faulty_copy = record { data_block = true; msg_block = true; work_block = some 9; uncopied = 1 }

abbrev pub hello : Message
hello = record { data_size = 2; block = 104 ∷ 105 ∷ 0 ∷ 0 ∷ 0 ∷ 0 ∷ 0 ∷ 0 ∷ [] }

abbrev pub later : Message
later = record { data_size = 1; block = 120 ∷ 0 ∷ 0 ∷ 0 ∷ 0 ∷ 0 ∷ 0 ∷ 0 ∷ [] }

abbrev pub sample : GroupDev
sample = record {
  minor = 7;
  flags = 1;
  messages_number = 2;
  message_sem = 1;
  message_list = hello ∷ [];
  delay = 5;
  wq_sem = 1;
  delay_list = 3 ∷ [];
  queued = 3 ∷ [];
  pending_sem = 1;
  pending_list = later ∷ [];
  has = all_set true;
  live = 5;
}

pub sample-IsIdle : IsIdle sample
sample-IsIdle = record {
  pointers = refl;
  message_free = refl;
  pending_free = refl;
  wq_free = refl;
  flags_byte = omega arith;
  not_flushing = refl;
  small = omega arith;
  counted = refl;
  linked = refl;
  distinct = (refl, tt);
  no_works = λ e. cc;
  whole = (omega arith, tt);
  whole_pending = (omega arith, tt);
}

abbrev calls : List Call
calls = read fine 10 ∷ write fine (111 ∷ 107 ∷ []) 2 ∷ expire 3 ∷ []

calls-AllProper : AllProper box defaults calls sample
unfolding step group_read group_write check_bit add_delayed_work run_work is_flushing
calls-AllProper = (tt, ((omega arith, omega arith, λ w e. ground arith), (refl, tt)))

run-Realised_example : Realised box defaults calls sample (run box defaults calls sample)
run-Realised_example =
    Histories.run-Realised box defaults box-IsLinux (omega arith) calls sample sample-IsIdle
      calls-AllProper

run_fifo_example :
    Ends
      (λ r.
        (es : List Event) × AllShow box defaults calls es r.1
        × (takes es ++ queue (view r.0) ≡ queue (view sample) ++ posts es))
      (run box defaults calls sample)
run_fifo_example =
    Histories.run_fifo box defaults box-IsLinux (omega arith) calls sample sample-IsIdle
      calls-AllProper tt (inl (omega arith))

run_capacity_example : Ends (λ r. held (view r.0) ≤ 64) (run box defaults calls sample)
run_capacity_example =
    Histories.run_capacity box defaults box-IsLinux (omega arith) calls sample sample-IsIdle
      calls-AllProper (omega arith)

group_write-cases_example :
    group_write box defaults fine opened (111 ∷ 107 ∷ []) 2 sample
    ≡ done (
        write_result
          (Posting.posted fine (Posting.message_of box (111 ∷ 107 ∷ []) 2) sample)
          (pos 2))
group_write-cases_example =
    Posting.group_write-cases box defaults fine (111 ∷ 107 ∷ []) 2 sample sample-IsIdle
      (omega arith)

step-blocks_example :
    Ends (λ r. r.0.live ≡ Blocks.blocks r.0 + 2) (step box defaults (read faulty_copy 10) sample)
step-blocks_example =
    Blocks.step-blocks box defaults box-IsLinux (omega arith) (read faulty_copy 10) sample
      sample-IsIdle tt 0 refl
