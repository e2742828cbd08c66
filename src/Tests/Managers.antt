-- ===== src/Tests/Managers.antt =====
-- A list with one installed group, and the outcomes of an installation.
use aosv_project.Prelude.{
  length, ◌+◌, ◌≤◌, ◌++◌, refl, ◌≡◌, arith, true, false, [], ◌∷◌, some, none, pos, minus_one, not,
  ◌==◌, has, if◌then◌else◌,
}
use aosv_project.Kernel.{Ends, done}
use aosv_project.Manager.Installation
use aosv_project.Manager.Cleanup
use aosv_project.Manager.Naming
use aosv_project.Manager.Naming.{read_digits}
use aosv_project.Manager.Names.{
  codes, group_name, group_path, group_format_length, group_dev_length,
}
use aosv_project.Manager.Teardown
use aosv_project.Manager.{rank, Manager, good, GroupDevices}
use aosv_project.Manager.Install.{Setup, new_device, install_device}
use aosv_project.Manager.Registry.{install_group}
use aosv_project.Manager.Free.{group_free}
use aosv_project.Manager.Cleanup.{device_parts}
use aosv_project.Manager.Catalogue.{IsCatalogue, minors}
use aosv_project.Manager.Installation.{entered, with_device}
use aosv_project.Manager.Teardown.{nothing_left, NoneLeft}
use aosv_project.Device.{GroupDev, IsIdle, all_set}
use aosv_project.Tests.Devices.{sample, sample-IsIdle}

abbrev pub setup : Setup
setup = record {
  alloc = λ part. true;
  workqueue = true;
  region_err = pos 0;
  region_major = 240;
  stale_err = pos 0;
}

-- The variable that nobody sets happens to hold -1.
abbrev unlucky : Setup
unlucky = record setup { stale_err = minus_one }

-- The last allocation fails.
abbrev short_of_memory : Setup
short_of_memory = record setup { alloc = λ part. not (rank part == 7) }

abbrev groups : GroupDevices
groups = record { used = 1; major = 240; group_devs_list = new_device 7 true ∷ [] }

abbrev manager : Manager
manager = record {
  group_devs = good groups;
  group_dev_class = true;
  nodes = 7 ∷ [];
  parts = λ i. device_parts true;
  lost = [];
}

groups-IsCatalogue : IsCatalogue groups
unfolding new_device
groups-IsCatalogue = record { counted = refl; distinct = (refl, tt); below = (omega arith, tt) }

install_group-cases_example :
    install_group true true setup (some 8) manager
    ≡ done (with_device manager setup 8 groups, pos 0)
unfolding new_device
install_group-cases_example =
    Installation.install_group-cases true true setup manager groups refl groups-IsCatalogue 8

install_group-IsCatalogue_example :
    Ends
      (λ r.
        (gs' : GroupDevices) × (r.0.group_devs ≡ good gs')
        × IsCatalogue gs'
        × (r.1 ≡ (if has 8 (minors gs'.group_devs_list) then pos 0 else minus_one)))
      (install_group true true setup (some 8) manager)
install_group-IsCatalogue_example =
    Installation.install_group-IsCatalogue true true setup manager groups refl groups-IsCatalogue 8

install_device-cases_example :
    install_device short_of_memory 8 240 ≡ record { device = none; held = []; major = 240 }
install_device-cases_example = Cleanup.install_device-cases short_of_memory 8 240

group_free-done_example :
    group_free (11 ∷ []) (device_parts true) sample ≡ done (nothing_left (11 ∷ []) sample)
group_free-done_example = Teardown.group_free-done (11 ∷ []) sample sample-IsIdle refl refl

-- The sample without its workqueue and its work.
abbrev workless : GroupDev
workless = record sample { has = all_set false; queued = []; delay_list = []; live = 4 }

workless-IsIdle : IsIdle workless
workless-IsIdle = record {
  pointers = refl;
  message_free = refl;
  pending_free = refl;
  wq_free = refl;
  flags_byte = omega arith;
  not_flushing = refl;
  small = omega arith;
  counted = refl;
  linked = refl;
  distinct = tt;
  no_works = λ e. refl;
  whole = (omega arith, tt);
  whole_pending = (omega arith, tt);
}

abbrev one_group : GroupDevices
one_group = record { used = 1; major = 240; group_devs_list = sample ∷ [] }

names-fit_example :
    (length (group_name 255) + 1 ≤ group_format_length)
    × (length (group_path 255) + 1 ≤ group_dev_length)
    × (group_path 255 ≡ codes "/dev/synch/" ++ group_name 255)
names-fit_example = Naming.names-fit 255 (omega arith)
