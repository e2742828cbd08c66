-- ===== src/TsmLib.antt =====
-- lib/tsm_lib.c: the library that user programs call. What the operating system answers is an
-- argument of each function; its system calls come out as values.
pub mod Open
pub mod Send
pub mod Sending
pub mod Opening
pub mod Delivery
pub mod Control
use aosv_project.Prelude.{ℕ, List, ℤ, pos, negsuc}

-- The variable `errno` after a call; the library stores negative numbers in it.
pub data Errno : Type 0 where
  kept minus_einval minus_enodev minus_enosys minus_enomem minus_eio : Errno

pub data Syscall : Type 0 where
  open_tsm : Syscall
  install_ioctl : ℤ → ℕ → Syscall  -- the file descriptor and the group's
  max_size_ioctl : ℤ → Syscall
  close : ℤ → Syscall
  open_device : List ℕ → Syscall
  sleep : Syscall
  write : ℤ → List ℕ → ℕ → Syscall
  read : ℤ → ℕ → Syscall
  ioctl : ℤ → ℕ → Syscall  -- sleep, awake and revoke, by the number in kmodule/ioctl.h
  ioctl_delay : ℤ → ℤ → Syscall

pub record Done : Type 0 where
  pub ret : ℤ
  pub errno : Errno
  pub calls : List Syscall  -- in the order in which they are made

abbrev pub finished : ℤ → Errno → List Syscall → Done
finished r e cs = record { ret = r; errno = e; calls = cs }
