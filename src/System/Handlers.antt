-- ===== src/System/Handlers.antt =====
-- What the handlers of src/server/server_main.c do to the boards and the goal of the round.
use under_flow.Base.{◌∷◌, [], ◌∷◌, ℕ, ◌≡◌, refl, ◌∙◌, Bool, List, arith}
use under_flow.Base.Int.{ℤ}
use under_flow.Base.Text.{Text}
use under_flow.Market.{Market}
use under_flow.Npc.{Board}
use under_flow.Protocol.{Packet, Notice, forced_end}
use under_flow.Server.{Server, unicast_to_key}
use under_flow.Server.Round.{fire_round_end_countdown, handle_fake_endround}
use under_flow.Server.Raid.{
  fire_self_police_raid, burn_user_by_key, burn_all, victims_of, periodic_raid_timeout,
  fire_periodic_police_raid, start_raid,
}
use under_flow.Server.Desk.{
  handle_dispose, handle_inventory, handle_rumor, handle_fake_rich, check_bankruptcy, pay_rumor,
}

-- The boards and the goal.
pub record View : Type 0 where
  pub market : Market
  pub npcs : Board
  pub goal : ℤ

abbrev pub view : Server → View
view s = record { market = s.market; npcs = s.npcs; goal = s.round.goal_money }

pub countdown-view :
    (spawned : Bool) (announce : Notice) (s : Server)
    → view (fire_round_end_countdown spawned announce s) ≡ view s
unfolding fire_round_end_countdown
countdown-view spawned announce s = ground arith

unicast-view : (key : Text) (pkt : Packet) (s : Server) → view (unicast_to_key key pkt s) ≡ view s
unfolding unicast_to_key
unicast-view key pkt s = ground arith

pub burn-view : (key : Text) (s : Server) → view (burn_user_by_key key s) ≡ view s
unfolding burn_user_by_key
burn-view key s = grind (arith, unicast-view)

burn_all-view : (keys : List Text) (s : Server) → view (burn_all keys s) ≡ view s
unfolding burn_all
burn_all-view [] s = refl
burn_all-view (key ∷ keys) s = burn_all-view keys (burn_user_by_key key s) ∙ burn-view key s

pub raid_timeout-view : (s : Server) → view (periodic_raid_timeout s) ≡ view s
unfolding periodic_raid_timeout
raid_timeout-view s = burn_all-view (victims_of s.raid.pending_keys) _

pub periodic_raid-view :
    (now roll : ℕ) (spawned : Bool) (s : Server)
    → view (fire_periodic_police_raid now roll spawned s) ≡ view s
unfolding fire_periodic_police_raid start_raid
periodic_raid-view now roll spawned s = ground arith

pub self_raid-view :
    (now roll : ℕ) (spawned : Bool) (sock : ℕ) (key : Text) (s : Server)
    → view (fire_self_police_raid now roll spawned sock key s) ≡ view s
unfolding fire_self_police_raid start_raid
self_raid-view now roll spawned sock key s = ground arith

pub endround-view : (spawned : Bool) (s : Server) → view (handle_fake_endround spawned s) ≡ view s
unfolding handle_fake_endround
endround-view spawned s = countdown-view spawned forced_end s

pub dispose-view :
    (sock : ℕ) (key : Text) (doc_id : ℤ) (s : Server)
    → view (handle_dispose sock key doc_id s) ≡ view s
unfolding handle_dispose
dispose-view sock key doc_id s = ground arith

pub rumor-view :
    (now sock : ℕ) (key target : Text) (s : Server)
    → view (handle_rumor now sock key target s) ≡ view s
unfolding handle_rumor pay_rumor handle_inventory
rumor-view now sock key target s = grind (arith, unicast-view)

pub rich-view : (sock : ℕ) (key : Text) (s : Server) → view (handle_fake_rich sock key s) ≡ view s
unfolding handle_fake_rich
rich-view sock key s = ground arith

pub bankruptcy-view :
    (sock : ℕ) (key : Text) (s : Server) → view (check_bankruptcy sock key s).1 ≡ view s
unfolding check_bankruptcy
bankruptcy-view sock key s = ground arith
