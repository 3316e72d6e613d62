-- ===== src/Watchdog/Tests.antt =====
-- Two crashes and a signal, at src/tools/watchdog.c.
use under_flow.Base.{false, ℕ, ◌≡◌, refl, some, none, ◌∷◌, [], List}
use under_flow.Watchdog.{Status, exited, killed, Watchdog, after_fork, waiting, run}
use under_flow.Watchdog.Restarts.{ready, lives, restart_lem}

abbrev crashes : List (ℕ × Status)
crashes = (70, exited 127) ∷ (71, killed 11) ∷ []

restart_lem_example : run (ready 0 []) (lives crashes) ≡ ready 2 []
restart_lem_example = restart_lem crashes 0 [] (refl, (refl, tt))

abbrev watching : Watchdog
watching = record {
  g_stop = false;
  g_child_pid = some 70;
  place = waiting 70;
  started = 1;
  kills = [];
}

abbrev starting : Watchdog
starting = record {
  g_stop = false;
  g_child_pid = none;
  place = after_fork 70;
  started = 1;
  kills = [];
}
