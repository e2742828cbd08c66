-- ===== src/Tests/Logs.antt =====
-- A new device, and a kernel in which all goes well, for the programs of lib.
use aosv_project.Prelude.{refl, [], true}
use aosv_project.Prelude.{minus_one}
use aosv_project.Device.{GroupDev, IsIdle}
use aosv_project.Device.Write.{Params}
use aosv_project.Device.Calls.{answer}
use aosv_project.Manager.Install.{new_device}
use aosv_project.Manager.Installation.{new_device-IsIdle}
use aosv_project.Programs.OnDevice.Logs
use aosv_project.Programs.OnDevice.{World, IsFine, fine, fresh, fresh-new}

abbrev pub sizes : Params
sizes = record { max_message_size = 40; max_storage_size = 64 }

abbrev pub bare : GroupDev
bare = new_device 0 true

pub bare-IsIdle : IsIdle bare
bare-IsIdle = (new_device-IsIdle 0 true).0

-- A kernel in which all goes well; what it would do after a use of memory that is not allowed does not
-- matter, so such a call leaves the device and answers -1.
abbrev pub good_days : World
good_days = record {
  outcomes = λ d. fine (fresh d.queued);
  after_oops = λ d. (answer minus_one [], d);
}

pub good_days-IsFine : IsFine good_days
good_days-IsFine = record {
  address = λ d. fresh d.queued;
  goes_well = λ d. refl;
  unused = λ d. fresh-new d.queued;
}
