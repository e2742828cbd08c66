-- ===== src/Tests/Timers.antt =====
-- A thread that adds a work, step by step, and a timer that expires.
use aosv_project.Prelude.{◌≡◌, refl, [], ◌∷◌, false}
use aosv_project.Device.Timers.{
  idle, add_enter, add_queue, add_link, add_leave, run_test, crashes, work_step, WorkThreads, adds,
  takes_step, WorkReach, begins, goes_on, no_timers, WorkShared,
}
use aosv_project.Device.Timers.Accounts.{IsAccounted}
use aosv_project.Device.Works.{add_delayed_work, run_work}
use aosv_project.Device.Timers.Alone
use aosv_project.Device.Timers.Alone.{solo_work, ShowsWorks, EndsAlike}
use aosv_project.Tests.Devices.{sample, sample-IsIdle, fine}
use aosv_project.Device.Timers.Places
use aosv_project.Device.Timers.Early
use aosv_project.Device.Timers.Safety
use aosv_project.Device.Timers.Progress

-- A work that is about to be queued, that is queued, and that is linked; then the semaphore is free again.
abbrev about : WorkThreads
about = record {
  shared = record no_timers.shared { wq_sem = 0 };
  threads = add_queue 0 ∷ [];
  next = 1;
}

abbrev waiting : WorkThreads
waiting = record about {
  shared = record about.shared { queued = 0 ∷ [] };
  threads = add_link 0 ∷ [];
}

abbrev linked : WorkThreads
linked = record about {
  shared = record waiting.shared { delay_list = 0 ∷ [] };
  threads = add_leave ∷ [];
}

abbrev at_rest : WorkThreads
at_rest = record linked { shared = record linked.shared { wq_sem = 1 }; threads = idle ∷ [] }

abbrev expired : WorkThreads
expired = record at_rest {
  shared = record at_rest.shared { queued = []; running = 0 ∷ [] };
  threads = run_test 0 ∷ idle ∷ [];
}

about-WorkReach : WorkReach no_timers about
unfolding work_step
about-WorkReach =
    goes_on (goes_on begins adds)
      (takes_step [] [] (add_enter 0) (add_queue 0) about.shared refl refl)

WorkReach-IsAccounted_example : IsAccounted about
WorkReach-IsAccounted_example = Places.WorkReach-IsAccounted about-WorkReach

add_link-crashes_example :
    (t : WorkThreads) × WorkReach about t
    × (t.threads ≡ idle ∷ add_link 0 ∷ [])
    × (work_step (add_link 0) t.shared ≡ crashes)
add_link-crashes_example = Early.add_link-crashes 0 [] [] about refl refl refl refl refl refl

-- The works of the sample device, and a new one at address 9.
abbrev works : WorkShared
works = record {
  wq_sem = 1;
  flushing = false;
  delay_list = 3 ∷ [];
  queued = 3 ∷ [];
  running = [];
  unlinked = [];
  freed = [];
}

works-ShowsWorks : ShowsWorks sample works
works-ShowsWorks = record { wq_sem = refl; flushing = refl; delay_list = refl; queued = refl }

solo-works_example :
    EndsAlike (add_delayed_work fine sample) (solo_work 4 (add_enter 9) works)
    × EndsAlike
        (run_work 3 sample)
        (solo_work 3 (run_test 3) (record works { queued = []; running = 3 ∷ [] }))
solo-works_example =
    Alone.solo-works 9 3 fine sample works sample-IsIdle works-ShowsWorks refl refl refl refl refl
      refl
