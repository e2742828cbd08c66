-- ===== src/Lib.antt =====
-- A verification of the thread synchronization and messaging subsystem: a Linux kernel module in which
-- the threads of a group exchange messages through a device file and wait for each other on a barrier,
-- and the library through which programs use it.
--
-- The program. A program opens a group with `open_group` (lib/tsm_lib.c), which asks the control device
-- /dev/tsm (kmodule/tsm.c) by ioctl to install the group. The manager (kmodule/group_dev_manager.c)
-- keeps the list of groups, at most one for each of 256 numbers; for a new one it allocates a device with
-- its two message lists, its semaphores and its workqueue, and registers a device file. On that file the
-- program reads, writes and sends ioctl commands, which the group device (kmodule/group_dev.c) serves.
-- With a delay a written message is pending, and a work of the workqueue makes one pending message
-- available when its timer expires; the revocation (`fflush_workqueue`) makes all available and frees
-- all works. Removing the module frees every group.
--
-- The files.
--   Prelude: shared names, tests on numbers, lists and bytes.
--   Kernel: what the module takes from Linux. A `Run` ends or faults (`oops`: a null pointer, freed
--     memory, or a byte outside of its block). `Services` are the allocator's block sizes and the
--     conversion of milliseconds, with their documented behaviour `IsLinux`; `Outcomes` say for each
--     call which allocations and copies succeed, and are arguments, so the theorems on the module hold for
--     all. The programs of lib run in a `World` (Programs/OnDevice), which says how the allocations of their
--     calls go and what becomes of a device after a use of memory that is not allowed; the theorems on
--     programs assume that no allocation and no copy fails (`IsFine`).
--   Mailbox: the abstract mail slot that a group device promises, as a step relation; its order
--     (Mailbox/Order) and its receipts and capacity (Mailbox/Receipt).
--   Device: kmodule/group_dev.h and kmodule/group_dev.c. Device/Flags, Messages, Works, Read, Write and
--     Ioctl hold the functions; Device/Flush and Posting what each does; Device/Calls a history of calls
--     and timers; Device/Refinement that each call is a step of the mail slot; Device/Histories the
--     theorems on whole histories; Device/Blocks the memory; Device/Race a work that runs during a
--     flush; Device/Delays the delays; Device/Barrier the threads on the barrier, step by step, and
--     Device/Barrier/Waking the theorems on them. Device/Threads has any number of threads inside of the
--     calls of one device, from one semaphore operation to the next; below it are what they own
--     (Ownership, Turns, Consistency), how they get on (Progress), what a late log line reads (Logging)
--     and that a thread on its own is the whole call (Alone). Device/Timers has any number of threads that
--     add works, flush them or run them, from one access to the list of works to the next; below it are
--     where each work is (Accounts, Turns, Places), a timer that comes too early (Early), timers that come
--     in time (Timely, Neighbours, Tidying, Orderly), and that then nothing crashes (Safety) or waits forever
--     (Progress); and that a thread on its own does what the whole call does (Alone).
--   Manager: kmodule/group_dev_manager.h and kmodule/group_dev_manager.c. Manager/Names, Install,
--     Registry and Free hold the functions; Manager/Cleanup, Catalogue, Naming,
--     Installation and Teardown the theorems.
--   System: the module as a whole, its control device and its groups together; System/Soundness what holds
--     throughout a history, System/Lifetime the removal after it.
--   Tsm: kmodule/tsm.c, the control device and the module's entry and exit.
--   TsmLib: lib/tsm_lib.c. TsmLib/Open, Send and Control hold the functions, TsmLib/Sending and Opening
--     the theorems, TsmLib/Delivery a text on its way through library and device.
--   Programs: programs of lib that use the library, over any implementation of its
--     calls. Programs/Slot are the laws of a mail slot that they rely on, Programs/Exchange, Stages and
--     Runs what they log and leave under these laws, Programs/OnDevice the library's functions on a group
--     device, which has the laws (OnDevice/Writing, Reading and Laws), and OnDevice/Logs the programs on it. Programs/Workers has the
--     two programs whose children write at once, what the children post together (Workers/Posts,
--     Workers/Deliveries),
--     what the parent reads (Workers/Returns), and both on a group device (Workers/Logs);
--     Programs/Ordinary the one whose threads take turns by a semaphore (Ordinary/Finds, Remaining, Logs);
--     Programs/Chaotic the one whose threads take none (Chaotic/Tally, Ends, Logs);
--     Programs/Groups the one with a group for each child (Groups/Laws the laws of several mail slots, Writers,
--     Waiting and Reports what the children and the program do under them, Devices several devices, which have
--     them, and Logs the program on these);
--     Programs/Naps the two whose children sleep on the barrier (Naps/Leaving, Ends, Late).
--   Tests: concrete devices, groups and programs, to which the theorems are applied.
--
-- How code and model correspond. A `list_head` is a list, its first entry the one that `list_add` put in
-- last. A semaphore is a count: `down` lowers it and `up` raises it, and the theorems on whole calls start
-- where it is 1, since a thread enters only when it is. The calls of a device are thus a sequence, in the
-- order in which they take it; Device/Race has an interleaving in which a function that takes no
-- semaphore meets one that holds it, Device/Threads all those of message_sem and pending_sem, where a
-- message is an address that is used once, Device/Timers all those of wq_sem, where a timer may expire at
-- any moment and the workqueue has one thread, and Device/Barrier all those of the barrier, which takes none;
-- there `wait_event`, `waitqueue_active` and `wake_up_all` of Linux have their documented behaviour, and the test
-- of the queue may come before the barrier is seen to be down (`look_ahead`), where a theorem does not exclude it. A `struct work` is its address, `queued` lists the works that are allocated and whose timer runs.
-- `live` counts the blocks that a device's calls have allocated and not freed; `held` are the blocks that an installation holds; the manager keeps them
-- for each group (`parts`), and those that a failed installation leaves behind (`lost`). A variable that the code may read before it is
-- set is an argument (`stale_err`, `stale_ret`). `unsigned int` and `unsigned short` counters wrap around
-- at 2 ^ 32 and 2 ^ 16. Threads that wait on a barrier are a list, which an awakening returns.
--
-- Bounds and fuel. The loops over lists recur on the list. `open_loop` has the 10000 attempts of the
-- source for fuel. Ten digits are the fuel of `print_decimal`, enough for every number below 10 ^ 10 and
-- so for every `int`.
--
-- The log of a program is the list of its lines; a message that is read appears with the bytes that are
-- copied, where the program prints its buffer as a text. Loops of the programs have their number of
-- rounds for fuel.
--
-- Not modelled: what only logs in the kernel (kmodule/kern.h, message_print, message_list_print), the
-- registration of file operations and the naming of device nodes by the kernel and by 99-tsm.rules, the
-- scheduler, a timer that expires while `drain_workqueue` waits, and of the programs of lib the keyboard
-- (lib/test.c), the sleep of lib/mt_ordinary.c's threads, and threads that cannot be joined.
mod Prelude
pub mod Kernel
pub mod Mailbox
pub mod Device
pub mod Manager
pub mod Tsm
pub mod TsmLib
pub mod System
pub mod Programs
mod Tests
