-- ===== src/TsmLib/Control.antt =====
-- lib/tsm_lib.c: `sleep_on_barrier`, `awake_barrier`, `set_send_delay`, `revoke_delayed_messages`.
use aosv_project.Prelude.{ℕ, [], ◌∷◌, if◌then◌else◌, ℤ, minus_one, is_negative}
use aosv_project.TsmLib.{Done, finished, kept, minus_einval, ioctl, ioctl_delay}

-- A command without an argument, by its number in kmodule/ioctl.h.
abbrev control : ℕ → (answer fd : ℤ) → Done
control number answer fd =
    if is_negative fd
    then finished minus_one minus_einval []
    else finished answer kept (ioctl fd number ∷ [])

unfoldable pub sleep_on_barrier : (answer fd : ℤ) → Done
sleep_on_barrier = control 2

unfoldable pub awake_barrier : (answer fd : ℤ) → Done
awake_barrier = control 3

unfoldable pub revoke_delayed_messages : (answer fd : ℤ) → Done
revoke_delayed_messages = control 5

unfoldable pub set_send_delay : (answer fd delay : ℤ) → Done
set_send_delay answer fd delay =
    if is_negative fd
    then finished minus_one minus_einval []
    else (if is_negative delay
        then finished minus_one minus_einval []
        else finished answer kept (ioctl_delay fd delay ∷ []))
