-- ===== src/Device/Histories.antt =====
-- Whole histories of a device: any list of calls and timers, from an idle device on.
use aosv_project.Prelude.{ℕ, ◌≤◌, ◌<◌, ◌^◌, ◌≡◌, refl, List, [], ◌∷◌, ◌++◌}
use aosv_project.Kernel.{Run, done, Ends, Services, IsLinux}
use aosv_project.Mailbox.{
  Event, Steps, end, and_then, posts, takes, held, publish_all, change_delay,
}
use aosv_project.Mailbox.Order.{IsSteady, IsOrdered, queue, Steps-fifo}
use aosv_project.Mailbox.Receipt.{Steps-capacity}
use aosv_project.Device.{GroupDev, IsIdle}
use aosv_project.Device.Write.{Params}
use aosv_project.Device.Ioctl.{set_send_delay, revoke_delayed_messages}
use aosv_project.Device.Calls.{Call, read, write, ioctl, expire, Answer, step, run}
use aosv_project.Device.Refinement.{view, Shows, Suits, IsProper, Implements}
use aosv_project.Device.Refinement.Reads.{read-Implements}
use aosv_project.Device.Refinement.Writes.{write-Implements}
use aosv_project.Device.Refinement.Commands.{expire-Implements, ioctl-Implements}

-- Each call of the history is proper where it is made.
abbrev pub AllProper : Services → Params → List Call → GroupDev → Type 0
AllProper k p [] d = Unit {0}
AllProper k p (c ∷ cs) d = IsProper k p c d × Ends (λ r. AllProper k p cs r.0) (step k p c d)

-- Each event is one that its call can be, and its answer shows it.
abbrev pub AllShow : Services → Params → List Call → List Event → List Answer → Type 0
AllShow k p [] [] [] = Unit {0}
AllShow k p (c ∷ cs) (e ∷ es) (a ∷ as') = Suits k p c e × Shows e a × AllShow k p cs es as'
AllShow k p _ _ _ = ⊥

-- A history without a new delay or a revocation.
abbrev pub SteadyCalls : List Call → Type 0
SteadyCalls [] = Unit {0}
SteadyCalls (ioctl set_send_delay arg queue ∷ cs) = ⊥
SteadyCalls (ioctl revoke_delayed_messages arg queue ∷ cs) = ⊥
SteadyCalls (_ ∷ cs) = SteadyCalls cs

pub record Realised (k : Services) (p : Params) (cs : List Call) (d : GroupDev)
    (m : Run (GroupDev × List Answer)) : Type 0 where
  pub dev : GroupDev
  pub results : List Answer
  pub events : List Event
  pub ends : m ≡ done (dev, results)
  pub idle : IsIdle dev
  pub steps : Steps p.max_storage_size p.max_message_size (view d) (view dev) events
  pub shows : AllShow k p cs events results

module _ (k : Services) (p : Params) (linux : IsLinux k) (small : p.max_storage_size < 2 ^ 32) where
  pub step-Implements :
      (c : Call) (d : GroupDev) → IsIdle d → IsProper k p c d → Implements k p c d (step k p c d)
  step-Implements (read o n) d v h = read-Implements k p o n d v
  step-Implements (write o buf n) d v h = write-Implements k p linux small o buf n d v h
  step-Implements (ioctl cmd arg queue) d v h = ioctl-Implements k p cmd arg queue d v
  step-Implements (expire w) d v h = expire-Implements k p w d v h

  Realised-cons :
      (c : Call) (cs : List Call) (d : GroupDev) (one : Implements k p c d (step k p c d))
      → Realised k p cs one.dev (run k p cs one.dev)
      → Realised k p (c ∷ cs) d (run k p (c ∷ cs) d)
  unfolding run
  Realised-cons c cs d one rest = record {
    dev = rest.dev;
    results = one.result ∷ rest.results;
    events = one.event ∷ rest.events;
    ends = rw (one.ends, rest.ends);
    idle = rest.idle;
    steps = and_then one.allowed rest.steps;
    shows = (one.suits, one.shows, rest.shows);
  }

  -- With the documented services and a `max_storage_size` below 2 ^ 32, any history of proper calls and
  -- timers (`IsProper`: a write whose block has a byte to spare and whose new work is no queued one, a
  -- timer of a queued work) on an idle device ends, leaves the device idle, and is a run of the mail
  -- slot: each call is an event that suits it (`Suits`: a write posts its own bytes, clipped, a read
  -- delivers as many bytes as it asks for and the message has) and gets the answer that shows the
  -- event.
  pub run-Realised :
      (cs : List Call) (d : GroupDev)
      → IsIdle d
      → AllProper k p cs d
      → Realised k p cs d (run k p cs d)
  unfolding run
  run-Realised [] d v h = record {
    dev = d;
    results = [];
    events = [];
    ends = refl;
    idle = v;
    steps = end;
    shows = tt;
  }
  run-Realised (c ∷ cs) d v h =
      let one : Implements k p c d (step k p c d) = step-Implements c d v h.0 in
      Realised-cons c cs d one (run-Realised cs one.dev one.idle (rw one.ends at h.1))

SteadyCalls-tail : (c : Call) (cs : List Call) → SteadyCalls (c ∷ cs) → SteadyCalls cs
SteadyCalls-tail (ioctl set_send_delay arg queue) cs s = absurd s
SteadyCalls-tail (ioctl revoke_delayed_messages arg queue) cs s = absurd s
SteadyCalls-tail _ cs s = s

never_revokes :
    (k : Services) (p : Params) (c : Call) (cs : List Call)
    → SteadyCalls (c ∷ cs)
    → ¬ Suits k p c publish_all
never_revokes k p (ioctl revoke_delayed_messages arg queue) cs s h = s
never_revokes k p _ cs s h = h

never_delays :
    (k : Services) (p : Params) (c : Call) (cs : List Call) (j : ℕ)
    → SteadyCalls (c ∷ cs)
    → ¬ Suits k p c (change_delay j)
never_delays k p (ioctl set_send_delay arg queue) cs j s h = s
never_delays k p _ cs j s h = h

one-IsSteady :
    (k : Services) (p : Params) (c : Call) (cs : List Call) (e : Event) (es : List Event)
    → SteadyCalls (c ∷ cs)
    → Suits k p c e
    → IsSteady es
    → IsSteady (e ∷ es)
one-IsSteady k p c cs publish_all es s h t = absurd (never_revokes k p c cs s h)
one-IsSteady k p c cs (change_delay j) es s h t = absurd (never_delays k p c cs j s h)
one-IsSteady k p c cs _ es s h t = t

-- The events of steady calls are steady.
events-IsSteady :
    (k : Services) (p : Params) (cs : List Call) (es : List Event) (as' : List Answer)
    → SteadyCalls cs
    → AllShow k p cs es as'
    → IsSteady es
events-IsSteady k p [] [] [] s h = tt
events-IsSteady k p [] [] (a ∷ as') s h = tt
events-IsSteady k p [] (e ∷ es) as' s h = absurd h
events-IsSteady k p (c ∷ cs) [] as' s h = tt
events-IsSteady k p (c ∷ cs) (e ∷ es) [] s h = absurd h
events-IsSteady k p (c ∷ cs) (e ∷ es) (a ∷ as') s h =
    one-IsSteady k p c cs e es s h.0 (events-IsSteady k p cs es as' (SteadyCalls-tail c cs s) h.2)

module _ (k : Services) (p : Params) (linux : IsLinux k) (small : p.max_storage_size < 2 ^ 32)
    (cs : List Call) (d : GroupDev) (v : IsIdle d) (proper : AllProper k p cs d) where
  whole_run : Realised k p cs d (run k p cs d)
  whole_run = run-Realised k p linux small cs d v proper

  -- First in, first out: on an idle device a proper history of reads, writes, timers and calls on the
  -- barrier (services and `max_storage_size` as in `run-Realised`) ends, and the messages that its
  -- reads took, oldest first, and then those that the device still holds, are those that it held at
  -- the start and then those that its writes posted. At the start the device must have a delay, or
  -- no delayed message.
  pub run_fifo :
      SteadyCalls cs
      → IsOrdered (view d)
      → Ends
          (λ r.
            (es : List Event) × AllShow k p cs es r.1
            × (takes es ++ queue (view r.0) ≡ queue (view d) ++ posts es))
          (run k p cs d)
  run_fifo s o = rw whole_run.ends (
    whole_run.events,
    whole_run.shows,
    Steps-fifo whole_run.steps
        (events-IsSteady k p cs whole_run.events whole_run.results s whole_run.shows) o,
  )

  -- A proper history (services and `max_storage_size` as in `run-Realised`) that starts on an idle
  -- device with at most `max_storage_size` messages ends with at most so many.
  pub run_capacity :
      held (view d) ≤ p.max_storage_size
      → Ends (λ r. held (view r.0) ≤ p.max_storage_size) (run k p cs d)
  run_capacity h = rw whole_run.ends (Steps-capacity whole_run.steps h)
