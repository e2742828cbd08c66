-- ===== src/Programs/Ordinary/Logs.antt =====
-- lib/mt_ordinary.c on an idle group device.
use aosv_project.Prelude.{
  ℕ, ◌+◌, ◌≤◌, ◌<◌, ◌^◌, ◌≡◌, refl, ap, ◌∙◌, false, List, [], ◌∷◌, ◌++◌, map, length, some, ℤ,
  is_negative, true,
}
use aosv_project.Kernel.{Services, IsLinux}
use aosv_project.Device.{GroupDev, IsIdle}
use aosv_project.Device.Write.{Params}
use aosv_project.Device.Refinement.{view}
use aosv_project.Programs.Slot.{IsSlot}
use aosv_project.Programs.Workers.Logs.{here_text-Storable}
use aosv_project.Programs.{Library, Line, stage, message_size}
use aosv_project.Programs.Exchange.{got}
use aosv_project.Programs.Stages.{in_group}
use aosv_project.Programs.OnDevice.{World, IsFine, library_of}
use aosv_project.Programs.OnDevice.Laws.{library_of-IsSlot, library_of-closes}
use aosv_project.Programs.Workers.{here_text}
use aosv_project.Programs.Ordinary.{
  Choice, total_write, total_read, remaining_messages, mt_ordinary, sections, children,
}
use aosv_project.Programs.Ordinary.Finds.{holding}
use aosv_project.Programs.Ordinary.Remaining.{AllSendable, mt_ordinary-ends}

-- The numbers that `gettid` gives are below a million.
abbrev pub AllShort : List Choice → Type 0
AllShort [] = Unit {0}
AllShort (c ∷ cs) = (c.tid < 10 ^ 6) × AllShort cs

short-AllSendable :
    {S : Type 0} (lib : Library S) (fd : ℤ) (cap : ℕ) (slot : IsSlot lib fd cap) (cs : List Choice)
    → AllShort cs
    → ((tid : ℕ) → tid < 10 ^ 6 → slot.Storable (here_text tid))
    → AllSendable lib fd cap slot cs
short-AllSendable lib fd cap slot [] h st = tt
short-AllSendable lib fd cap slot (c ∷ cs) h st =
    (st c.tid h.0, short-AllSendable lib fd cap slot cs h.1 st)

module _ (k : Services) (p : Params) (w : World) (fine_world : IsFine w) (linux : IsLinux k)
    (small : p.max_storage_size < 2 ^ 32) (in_buffer : p.max_message_size < message_size) (file : ℤ)
    (is_open : is_negative file ≡ false) (d : GroupDev) (v : IsIdle d) (empty : view d ≡ holding [])
    (size : 15 ≤ p.max_message_size) (block : (n : ℕ) → 9 ≤ n → n ≤ 15 → n < k.ksize n) where
  -- What the threads log, one after the other.
  abbrev pub thread_lines : List Choice → List Line
  thread_lines cs = (sections (library_of k p w file) file cs d).lines

  -- On an idle device with no message and no delay, which takes 9 to 15 bytes with a byte to spare in
  -- their block, and has a largest size of 15 or more and below the 64 bytes of the program's buffer,
  -- where no allocation and no copy fails and `gettid` gives numbers below a million: if
  -- the threads of lib/mt_ordinary.c can be created, and the device has room for all that they draw to
  -- write, then the program ends, unless a thread sleeps for good, in whatever order the threads take the semaphore. After the lines of
  -- the threads it reads as many messages as `remaining_messages` says, no fewer; the device is idle and
  -- keeps the others, and with those it keeps and those it read the messages are as many as were written,
  -- less at most what the threads drew to read.
  pub mt_ordinary-library_of :
      (created whole calls : ℕ) (cs : List Choice)
      → AllShort cs
      → children ≤ created
      → total_write cs ≤ p.max_storage_size
      → (e : GroupDev) × (ms kept : List (List ℕ)) × (mt_ordinary
            (library_of k p w file)
            created
            whole
            calls
            cs
            d
          ≡ some (stage true (in_group 0 file (thread_lines cs ++ map got ms)) e))
        × (length ms ≡ remaining_messages cs)
        × (total_write cs ≤ length ms + length kept + total_read cs)
        × IsIdle e
        × (view e ≡ holding kept)
  mt_ordinary-library_of created whole calls cs short enough room =
      let slot = library_of-IsSlot k p w fine_world linux small file is_open in_buffer in
      let (e, ms, kept, log, count, adds_up, idle, q) =
        mt_ordinary-ends (library_of k p w file) file p.max_storage_size slot created whole calls cs
          d d
          (short-AllSendable (library_of k p w file) file p.max_storage_size slot cs short
            (here_text-Storable k p size block))
          enough refl is_open v empty room in
      (
        e,
        ms,
        kept,
        log
            ∙ ap
                (λ (x : GroupDev).
                  some (stage true (in_group 0 file (thread_lines cs ++ map got ms)) x))
                (library_of-closes k p w file is_open e),
        count,
        adds_up,
        idle,
        q,
      )
