-- ===== src/Watchdog.antt =====
-- src/tools/watchdog.c: the process that starts the server, waits for it and starts it again. Each event
-- is what a system call gives or a signal that arrives between two of them.
pub mod Restarts
pub mod Signals
mod Tests
use under_flow.Base.{
  ℕ, ◌+◌, Bool, true, false, Option, none, some, List, [], ◌∷◌, ◌++◌, if◌then◌else◌, ◌==◌,
}

-- `status` of `waitpid`; an `execv` that fails is `exited 127`.
pub data Status : Type 0 where
  exited : ℕ → Status
  killed : ℕ → Status

pub data Event : Type 0 where
  tested : Event
  fork_failed : Event
  forked : ℕ → Event
  published : Event
  wait_interrupted : Event
  wait_failed : Event
  waited : Status → Event
  signal : ℕ → Event

-- Where `main` is: before the test of `g_stop`; between the test and `fork`; between `fork` and
-- `g_child_pid = pid`; in `waitpid`; past the loop.
pub data Place : Type 0 where
  at_head : Place
  before_fork : Place
  after_fork : ℕ → Place
  waiting : ℕ → Place
  ended : Place

-- The two globals, and the number of servers that were started and the signals that were passed on.
pub record Watchdog : Type 0 where
  pub g_stop : Bool
  pub g_child_pid : Option ℕ
  pub place : Place
  pub started : ℕ
  pub kills : List (ℕ × ℕ)

abbrev pub initial : Watchdog
initial = record { g_stop = false; g_child_pid = none; place = at_head; started = 0; kills = [] }

unfoldable pub on_terminate : ℕ → Watchdog → Watchdog
on_terminate sig w = record w {
  g_stop = true;
  kills = elim w.g_child_pid [ none ↦ w.kills | some pid ↦ w.kills ++ ((pid, sig) ∷ []) ];
}

-- The part of a round behind `waitpid`. A `waitpid` that failed leaves the status 0, which reads as an
-- exit with code 0.
abbrev after_wait : Status → Watchdog → Watchdog
after_wait (exited code) w = record w {
  g_child_pid = none;
  place = if w.g_stop then ended else if code == 0 then ended else at_head;
}
after_wait (killed sig) w = record w {
  g_child_pid = none;
  place = if w.g_stop then ended else at_head;
}

-- `main` at its place when the event comes; an event that cannot come there changes nothing.
abbrev at_place : Place → Event → Watchdog → Watchdog
at_place at_head tested w = record w { place = if w.g_stop then ended else before_fork }
at_place before_fork fork_failed w = record w { place = at_head }
at_place before_fork (forked pid) w = record w { place = after_fork pid; started = w.started + 1 }
at_place (after_fork pid) published w = record w { g_child_pid = some pid; place = waiting pid }
at_place (waiting pid) wait_interrupted w = if w.g_stop then after_wait (exited 0) w else w
at_place (waiting pid) wait_failed w = after_wait (exited 0) w
at_place (waiting pid) (waited status) w = after_wait status w
at_place _ _ w = w

unfoldable pub step : Watchdog → Event → Watchdog
unfolding on_terminate
step w (signal sig) = on_terminate sig w
step w tested = at_place w.place tested w
step w fork_failed = at_place w.place fork_failed w
step w (forked pid) = at_place w.place (forked pid) w
step w published = at_place w.place published w
step w wait_interrupted = at_place w.place wait_interrupted w
step w wait_failed = at_place w.place wait_failed w
step w (waited status) = at_place w.place (waited status) w

unfoldable pub run : Watchdog → List Event → Watchdog
unfolding step
run w [] = w
run w (e ∷ es) = run (step w e) es
