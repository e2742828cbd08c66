-- ===== src/Device/Delays.antt =====
-- The delay that `IOCTL_SET_SEND_DELAY` sets, and what it does to the next write.
use aosv_project.Prelude.{ℕ, ◌%◌, ◌^◌, ◌<◌, ◌≤◌, ◌≡◌, ◌↔◌, [], arith, pos, minus_one}
use aosv_project.Kernel.{Services, IsLinux}
use aosv_project.Device.{GroupDev}
use aosv_project.Device.Messages.{set_delay}
use aosv_project.Device.Ioctl.{ioctl_set_delay, ioctl_result, returns}

module _ (k : Services) (linux : IsLinux k) where
  -- With the documented services: an argument that is negative as a `long` is refused and changes nothing. Any other is accepted,
  -- and then the device has no delay exactly if the low 32 bits of the argument are zero: 2 ^ 32 ms
  -- is no delay at all.
  pub ioctl_set_delay-zero :
      (arg : ℕ) (d : GroupDev)
      → (2 ^ 63 ≤ arg → ioctl_set_delay k arg d ≡ ioctl_result d (returns minus_one) [])
        × (arg < 2 ^ 63
            → ((ioctl_set_delay k arg d).reply ≡ returns (pos 0))
              × (((ioctl_set_delay k arg d).dev.delay ≡ 0) ↔ (arg % 2 ^ 32 ≡ 0)))
  unfolding ioctl_set_delay set_delay
  ioctl_set_delay-zero arg d = (
    λ h. ground arith,
    λ h. (
      ground arith,
      (
        λ e. ground (arith, linux.jiffies_pos (arg % 2 ^ 32)),
        λ e. ground (arith, linux.jiffies_zero),
      ),
    ),
  )
