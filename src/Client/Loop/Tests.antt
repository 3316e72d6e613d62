-- ===== src/Client/Loop/Tests.antt =====
-- The loop of src/client/ui_client.c at work: a raid that is survived, and Ctrl-C during one.
use under_flow.Base.{◌++◌, ℕ, ◌++◌, refl, some, true, false, List, [], ◌∷◌, arith}
use under_flow.Base.Int.{pos}
use under_flow.Base.Text.{Text, bytes}
use under_flow.Userdb.{zero_record}
use under_flow.Server.{Server}
use under_flow.Server.World.{bob, world}
use under_flow.Server.Raid.{no_pending}
use under_flow.Sessions.{Outside}
use under_flow.Client.{received, answer}
use under_flow.Client.Line.{key_code}
use under_flow.Client.Line.Typing.{Act, put, undo}
use under_flow.Client.Loop.{
  Loop, Scene, loop_start, Event, turn, sigint, pressed, happen_all, happen, handle_sigint, round,
  sync, body, press,
}
use under_flow.Client.Loop.Raids.{InRaid, raid_lem}

abbrev scene : Scene
scene = record { rows = 40; columns = 120; now = 100; ms = 100000 }

abbrev begun : Loop
begun = loop_start (pos 1000) (pos 10000)

abbrev raided : Server
raided = record world {
  raid = record { deadline = 115; pending_keys = bob ∷ no_pending; passcode = bytes "x" };
}

abbrev alone : Outside
alone = record {
  other = λ t. t;
  now = 110;
  roll = 3;
  second_roll = 7;
  allocated = true;
  spawned = true;
  junk = (zero_record, 0);
}

-- "y" is taken back, and "x" entered.
abbrev plan : List Act
plan = put (bytes "y") ∷ undo ∷ put (bytes "x") ∷ []

abbrev in_raid : Loop
in_raid = record begun {
  state = record begun.state { mode = under_flow.Client.ClientMode.panic };
  g_in_raid = true;
}

-- Ctrl-C, a key with Ctrl-C at the head of its round, and Ctrl-C again.
abbrev interrupted : List Event
interrupted = sigint ∷ turn true scene (pressed (key_code 120)) ∷ sigint ∷ []

raid_lem_example : InRaid (happen_all interrupted in_raid)
unfolding happen handle_sigint round sync body press
raid_lem_example =
    raid_lem interrupted in_raid
      (record { raiding = refl; guarded = refl; unasked = refl; goes_on = refl })
      (λ e. e, refl, (λ e. omega (arith, e.0), refl, (λ e. e, refl, tt)))
