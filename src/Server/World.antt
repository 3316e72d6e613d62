-- ===== src/Server/World.antt =====
-- A small server for the examples: two users, one document for sale and one offer.
use under_flow.Base.{
  All, ℕ, ◌≡◌, refl, ◌+◌, ◌<◌, ◌≤◌, Bool, true, false, Option, none, some, List, [], ◌∷◌, arith,
  inl, inr, if◌then◌else◌, ◌⊎◌, ◌≢◌, take, replicate, ◌&&◌, ◌||◌,
}
use under_flow.Base.Int.{ℤ, pos}
use under_flow.Base.Text.{Text}
use under_flow.Market.{MarketSlot, market_find}
use under_flow.Market.Listing.{Distinct}
use under_flow.Npc.{NpcSlot}
use under_flow.Npc.Offers.{offered}
use under_flow.Userdb.{UserRecord, zero_record, userdb_find}
use under_flow.Sandbox.{DocFile, dir_get, user_dir, sandbox_buy, sandbox_read_doc, sandbox_count}
use under_flow.Sandbox.Files.{IsDir}
use under_flow.Sandbox.Move.{IsSound}
use under_flow.Server.{Server}
use under_flow.Server.Buy.Effect.{CanBuy}
use under_flow.Server.Round.{fresh_round}

abbrev pub ada : Text
ada = 0x61 ∷ []

abbrev pub bob : Text
bob = 0x62 ∷ []

abbrev pub doc : ℤ → DocFile
doc id = record { doc_id = id; tags = 18; base_price = pos 800; name = 0x64 ∷ [] }

abbrev pub account : Text → ℤ → UserRecord
account key money = record zero_record { key = key; money = money }

abbrev pub slot : MarketSlot
slot = record {
  doc_id = pos 5;
  tags = 18;
  base_price = pos 800;
  name = 0x64 ∷ [];
  active = true;
  is_frozen = false;
  spawn_time = 100;
  lifespan_sec = 60;
}

abbrev pub offer : NpcSlot
offer = record {
  npc_id = pos 102;
  required_tags = 18;
  bounty = pos 1200;
  active = true;
  spawn_time = 100;
}

-- Document 5 is for sale, ada has document 7 and bob can pay the debt.
abbrev pub world : Server
world = record {
  market = record { slots = slot ∷ []; frozen = 0 };
  npcs = offer ∷ [];
  users = record {
    openable = true;
    writable = true;
    records = account ada (pos 1000) ∷ account bob (pos 12000) ∷ [];
  };
  disk = record {
    writable = true;
    master = (pos 5, doc (pos 5)) ∷ [];
    users = (ada, (pos 7, doc (pos 7)) ∷ []) ∷ (bob, []) ∷ [];
  };
  round = fresh_round;
  rumor_cd_until = 0;
  raid = record { deadline = 0; pending_keys = replicate 10 []; passcode = [] };
  clients = record { sock = 4; key = ada } ∷ record { sock = 5; key = bob } ∷ [];
  out = [];
}

pub world-Distinct : Distinct world.market
world-Distinct k = ground arith

pub world-offered : (k : ℤ) → offered k world.npcs ≤ 1
world-offered k = ground arith

master-IsDir : IsDir world.disk.master
unfolding under_flow.Sandbox.Files.files_of
master-IsDir j = ground arith

users-IsDir : (key : Text) (d : List (ℤ × DocFile)) → user_dir key world.disk ≡ some d → IsDir d
unfolding under_flow.Sandbox.Files.files_of under_flow.Sandbox.user_dir_in
users-IsDir key d e j = ground (arith, e)

pub world-IsSound : IsSound world.disk
world-IsSound = record { master_dir = master-IsDir; user_dirs = users-IsDir }

pub ada_can : CanBuy ada (pos 5) world slot (account ada (pos 1000)) 0 (doc (pos 5))
unfolding market_find sandbox_count under_flow.Sandbox.user_dir_in under_flow.Base.Text.same_text
    userdb_find under_flow.Userdb.find_from under_flow.Base.Text.strncmp_eq dir_get
ada_can = record {
  listed_as = refl;
  not_frozen = refl;
  has_room = refl;
  known = refl;
  affordable = refl;
  on_disk = refl;
}

pub bob_can : CanBuy bob (pos 5) world slot (account bob (pos 12000)) 1 (doc (pos 5))
unfolding market_find sandbox_count under_flow.Sandbox.user_dir_in under_flow.Base.Text.same_text
    userdb_find under_flow.Userdb.find_from under_flow.Base.Text.strncmp_eq dir_get
bob_can = record {
  listed_as = refl;
  not_frozen = refl;
  has_room = refl;
  known = refl;
  affordable = refl;
  on_disk = refl;
}
