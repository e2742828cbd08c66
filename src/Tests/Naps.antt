-- ===== src/Tests/Naps.antt =====
-- The children of lib/mp_sleep.c on the barrier of a device.
use aosv_project.Prelude.{refl, ◌≡◌, [], ◌∷◌, some, none, pos, arith}
use aosv_project.Device.Barrier.{deserted}
use aosv_project.Programs.{opened, closed}
use aosv_project.Programs.Naps.{Naps, mp_sleep, unslept}
use aosv_project.Programs.Naps.Ends
use aosv_project.Programs.Naps.Late
use aosv_project.Tests.Devices.{sample}

abbrev nobody : Naps
nobody = unslept (deserted sample)

mp_sleep-ends_example :
    mp_sleep (pos 3) 3 (2 ∷ 0 ∷ 2 ∷ 1 ∷ 0 ∷ []) (0 ∷ [], 2 ∷ []) (1 ∷ []) nobody
    ≡ some (opened 1 (pos 3) ∷ closed 1 (pos 3) ∷ [])
mp_sleep-ends_example =
    Ends.mp_sleep-ends (pos 3) 3 (2 ∷ 0 ∷ 2 ∷ 1 ∷ 0 ∷ []) (0 ∷ [], 2 ∷ []) (1 ∷ []) sample refl
      (omega arith) (omega arith) λ j l. ground arith

mp_sleep-hangs_example :
    mp_sleep (pos 3) 3 (2 ∷ 0 ∷ 2 ∷ []) (0 ∷ [], 2 ∷ []) (1 ∷ 1 ∷ []) nobody ≡ none
mp_sleep-hangs_example =
    Late.mp_sleep-hangs (pos 3) 3 1 (2 ∷ 0 ∷ 2 ∷ []) (0 ∷ [], 2 ∷ []) (1 ∷ 1 ∷ []) sample refl
      (omega arith) (omega arith) (omega arith) refl (refl, refl)
