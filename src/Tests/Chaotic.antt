-- ===== src/Tests/Chaotic.antt =====
-- lib/mt_ordinary_chaotic.c on a new device, with three threads that take turns in laps.
use aosv_project.Prelude.{ℕ, zero, suc, List, [], ◌∷◌, pos}
use aosv_project.Device.{GroupDev}
use aosv_project.TsmLib.Send
use aosv_project.Programs.OnDevice.{library_of}
use aosv_project.Programs.Chaotic.{Drawn, Chaos}
use aosv_project.Programs.Chaotic.Ends.{awakened}
use aosv_project.Programs.Chaotic.Logs
use aosv_project.Tests.Devices.{box}
use aosv_project.Tests.Logs.{good_days, sizes, bare}

abbrev draws : List Drawn
draws =
    record { tid = 4000; to_write = 1; to_read = 1; to_awake = 0; to_sleep = 1 }
    ∷ record { tid = 4003; to_write = 0; to_read = 1; to_awake = 3; to_sleep = 0 }
    ∷ record { tid = 4006; to_write = 2; to_read = 0; to_awake = 1; to_sleep = 1 }
    ∷ []

abbrev laps : ℕ → List ℕ
laps zero = []
laps (suc n) = 0 ∷ 1 ∷ 2 ∷ laps n

-- When the program awakens the barrier, two threads are asleep and one has ended.
abbrev beds : Chaos GroupDev
beds = awakened (library_of box sizes good_days (pos 3)) (pos 3) (laps 9) draws bare
