-- ===== src/Watchdog/Signals.antt =====
-- src/tools/watchdog.c and SIGINT or SIGTERM.
use under_flow.Base.{ℕ, ◌+◌, ◌≤◌, ◌≡◌, true, some, List, [], ◌∷◌, ◌++◌, arith}
use under_flow.Watchdog.{
  wait_interrupted, wait_failed, Status, exited, killed, Event, waited, signal, Watchdog, Place,
  at_head, before_fork, after_fork, waiting, ended, run, step, on_terminate,
}

-- A server that is started although the watchdog is to stop: the test came before the signal.
abbrev pub pending : Place → ℕ
pending at_head = 0
pending before_fork = 1
pending (after_fork pid) = 0
pending (waiting pid) = 0
pending ended = 0

step-stopped :
    (w : Watchdog) (e : Event)
    → w.g_stop ≡ true
    → ((step w e).g_stop ≡ true)
      × ((step w e).started + pending (step w e).place ≤ w.started + pending w.place)
unfolding step on_terminate
step-stopped w e stop = ground arith

-- Once a signal has come, whatever happens: no server is started any more, but for the one whose `fork`
-- was already past the test of `g_stop`.
no_restart :
    (w : Watchdog) (es : List Event)
    → w.g_stop ≡ true
    → (run w es).started ≤ w.started + pending w.place
unfolding run
no_restart w [] stop = omega arith
no_restart w (e ∷ es) stop = ground (arith, step-stopped w e stop, no_restart (step w e) es)

-- A signal that comes while the watchdog waits for its server is passed on to the server, and the
-- watchdog ends when the server does, however that ends.
stop_lem :
    (w : Watchdog) (pid sig : ℕ) (status : Status)
    → w.place ≡ waiting pid
    → w.g_child_pid ≡ some pid
    → ((step w (signal sig)).kills ≡ w.kills ++ ((pid, sig) ∷ []))
      × ((run w (signal sig ∷ waited status ∷ [])).place ≡ ended)
unfolding run step on_terminate
stop_lem w pid sig (exited code) at child = ground arith
stop_lem w pid sig (killed by) at child = ground arith

-- Nothing that a watchdog which waits would wake up for: no other signal, and no result of `waitpid`.
abbrev pub IsQuiet : Event → Type 0
IsQuiet (signal sig) = ⊥
IsQuiet (waited status) = ⊥
IsQuiet wait_interrupted = ⊥
IsQuiet wait_failed = ⊥
IsQuiet _ = Unit {0}
