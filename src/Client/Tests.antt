-- ===== src/Client/Tests.antt =====
-- A client of src/client/ui_client.c beside the small server.
use under_flow.Base.{OnSome, true, ℕ, ◌≤◌, ◌≡◌, refl, List, [], ◌∷◌, map, arith, length, filter_by}
use under_flow.Base.Int.{pos}
use under_flow.Market.Freeze.{IsCoherent}
use under_flow.Protocol.{Packet, market_spawn, market_remove, news_leak, news_recover}
use under_flow.Server.World.{world, bob}
use under_flow.Sessions.{Outside, dispatch}
use under_flow.Client.Commands.{enter}
use under_flow.Client.Locks.{sent, locked_lem}
use under_flow.Base.Text.{bytes}
use under_flow.Userdb.{zero_record}
use under_flow.Client.{round_end, start, receive_all}
use under_flow.Client.Flags.{IsConsistent, receive_all-IsConsistent}

world-IsCoherent : IsCoherent world.market
unfolding under_flow.Base.Masks.meets
world-IsCoherent = record { word = omega arith; agree = (λ h. (omega arith, refl), tt) }

abbrev news : List (ℕ × Packet)
news =
    (100, market_spawn (pos 5) 18 (pos 800) [])
    ∷ (101, news_leak 16 180)
    ∷ (102, market_remove (pos 5))
    ∷ (103, news_recover 16)
    ∷ []

receive_all-IsConsistent_example : IsConsistent (receive_all news (start (pos 1000) (pos 10000)))
receive_all-IsConsistent_example =
    receive_all-IsConsistent news (start (pos 1000) (pos 10000))
      (record { marked = tt; mkt_fits = omega arith; npc_fits = omega arith })

abbrev quiet : Outside
quiet = record {
  other = λ t. t;
  now = 100;
  roll = 3;
  second_roll = 7;
  allocated = true;
  spawned = true;
  junk = (zero_record, 0);
}

locked_lem_example :
    OnSome
      (λ request. record ((dispatch quiet 5 bob request world).1) { out = [] } ≡ world)
      (sent (enter round_end (bytes "gg")))
locked_lem_example = locked_lem (bytes "gg") quiet 5 bob world
