-- ===== src/Watchdog/Restarts.antt =====
-- src/tools/watchdog.c without signals: every server that crashes is followed by another.
use under_flow.Base.{
  ℕ, ◌+◌, ◌≡◌, Bool, true, false, none, List, [], ◌∷◌, arith, length, ◌==◌, not, All,
}
use under_flow.Watchdog.{
  tested, Status, exited, killed, Event, forked, published, waited, Watchdog, at_head, run, step,
}

abbrev is_crash : Status → Bool
is_crash (exited code) = not (code == 0)
is_crash (killed sig) = true

-- The lives of servers, one after the other: the process and how it ends.
abbrev pub lives : List (ℕ × Status) → List Event
lives [] = []
lives ((pid, status) ∷ rest) = tested ∷ forked pid ∷ published ∷ waited status ∷ lives rest

-- The watchdog between two servers, after `started` of them.
abbrev pub ready : ℕ → List (ℕ × ℕ) → Watchdog
ready started kills = record {
  g_stop = false;
  g_child_pid = none;
  place = at_head;
  started = started;
  kills = kills;
}

-- However often the server crashes, with an exit code that is not 0 or by a signal: the watchdog starts
-- one server for each crash, and is ready to start the next.
pub restart_lem :
    (crashes : List (ℕ × Status)) (started : ℕ) (kills : List (ℕ × ℕ))
    → All (λ c. is_crash c.1 ≡ true) crashes
    → run (ready started kills) (lives crashes) ≡ ready (started + length crashes) kills
unfolding run step
restart_lem [] started kills all = ground arith
restart_lem ((pid, exited code) ∷ rest) started kills all =
    ground (arith, restart_lem rest (started + 1) kills all.1)
restart_lem ((pid, killed sig) ∷ rest) started kills all =
    ground (arith, restart_lem rest (started + 1) kills all.1)
