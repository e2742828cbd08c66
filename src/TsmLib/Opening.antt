-- ===== src/TsmLib/Opening.antt =====
-- What `open_group` of lib/tsm_lib.c returns, and that it leaves the control device closed.
use aosv_project.Prelude.{
  ℕ, zero, suc, ◌+◌, ◌≡◌, Bool, not, ◌&&◌, ◌||◌, true, false, List, [], ◌∷◌, some, none, ◌==◌,
  Option, ℤ, minus_one, is_negative,
}
use aosv_project.TsmLib.{Syscall, close, install_ioctl, open_device}
use aosv_project.TsmLib.Open.{Answers}

-- The first attempt at or after `i`, of `fuel` in all, that gives a file descriptor.
unfoldable pub first_fd : (fuel i : ℕ) → Answers → Option ℕ
first_fd zero i s = none
first_fd (suc fuel) i s = elim (is_negative (s.device_fd i)) [
  | false ↦ some i
  | true ↦ first_fd fuel (i + 1) s
]

-- The value of the first good attempt, or -1 after all have failed.
abbrev pub fd_of : Answers → Option ℕ → ℤ
fd_of s none = minus_one
fd_of s (some i) = s.device_fd i

-- Which descriptors are closed, in this order.
abbrev pub closings : List Syscall → List ℤ
closings [] = []
closings (close fd ∷ cs) = fd ∷ closings cs
closings (_ ∷ cs) = closings cs

-- Which groups are asked to be installed, and on which descriptor.
abbrev pub installs : List Syscall → List (ℤ × ℕ)
installs [] = []
installs (install_ioctl fd desc ∷ cs) = (fd, desc) ∷ installs cs
installs (_ ∷ cs) = installs cs

-- Which files of groups are opened.
abbrev pub OpensOnly : List ℕ → List Syscall → Type 0
OpensOnly path [] = Unit {0}
OpensOnly path (open_device q ∷ cs) = (q ≡ path) × OpensOnly path cs
OpensOnly path (_ ∷ cs) = OpensOnly path cs

-- Everything before the file of the group succeeds.
abbrev pub reaches : Answers → (max : ℕ) → Bool
reaches s max =
    not (is_negative s.tsm_fd)
    && (not (is_negative s.install_ret)
        && ((not (max == 0) || not (is_negative s.size_ret)) && s.name_block))
