-- ===== src/TsmLib/Open.antt =====
-- lib/tsm_lib.c: `open_group` and `close_group`.
use aosv_project.Prelude.{
  ℕ, zero, suc, ◌+◌, Bool, true, false, List, [], ◌∷◌, ◌++◌, Option, none, some, ◌==◌,
  if◌then◌else◌, ℤ, pos, minus_one, is_negative,
}
use aosv_project.Manager.Names.{group_path}
use aosv_project.TsmLib.{
  Done, finished, kept, minus_einval, minus_enodev, minus_enosys, minus_enomem, Syscall, open_tsm,
  install_ioctl, max_size_ioctl, close, open_device, sleep,
}

-- ATTEMPTS
abbrev pub attempts : ℕ
attempts = 10000

-- What the system answers: to the opening of the control device, to its two commands (with the size
-- that the second one gives), to `malloc`, and to each attempt to open the group's file.
pub record Answers : Type 0 where
  pub tsm_fd : ℤ
  pub install_ret : ℤ
  pub size_ret : ℤ
  pub size : ℕ
  pub name_block : Bool
  pub device_fd : ℕ → ℤ

-- `fuel` attempts are left, `i` have been made. SLEEP_TIME is passed to `sleep` as 0 seconds.
unfoldable pub open_loop : (fuel i : ℕ) → Answers → List ℕ → ℤ × List Syscall
open_loop zero i s path = (minus_one, [])
open_loop (suc fuel) i s path = elim (is_negative (s.device_fd i)) [
  | false ↦ (s.device_fd i, open_device path ∷ [])
  | true ↦ let rest = open_loop fuel (i + 1) s path in (rest.0, open_device path ∷ sleep ∷ rest.1)
]

-- From the closing of the control device on.
unfoldable pub open_named : Answers → ℕ → List Syscall → Done
unfolding open_loop group_path
open_named s desc before =
    if s.name_block
    then (let r = open_loop attempts 0 s (group_path desc) in finished r.0 kept (before ++ r.1))
    else finished minus_one minus_enomem before

-- The call and the library's `max_message_size` after it; `max` is its value before.
unfoldable pub open_group : Answers → (max : ℕ) → Option ℕ → Done × ℕ
unfolding open_named
open_group s max none = (finished minus_one minus_einval [], max)
open_group s max (some desc) =
    let fd = s.tsm_fd in
    let installing = open_tsm ∷ install_ioctl fd desc ∷ [] in
    let asking = open_tsm ∷ install_ioctl fd desc ∷ max_size_ioctl fd ∷ [] in
    if is_negative fd
    then (finished minus_one minus_enodev (open_tsm ∷ []), max)
    else (if is_negative s.install_ret
        then (finished minus_one minus_enosys (installing ++ close fd ∷ []), max)
        else (if max == 0
            then (if is_negative s.size_ret
                then (finished minus_one minus_enosys (asking ++ close fd ∷ []), max)
                else (open_named s desc (asking ++ close fd ∷ []), s.size))
            else (open_named s desc (installing ++ close fd ∷ []), max)))

unfoldable pub close_group : ℤ → Done
close_group fd =
    if is_negative fd
    then finished minus_one minus_einval []
    else finished (pos 0) kept (close fd ∷ [])
