-- ===== src/Server/Raid/Tests.antt =====
-- Raids, rumors and bankruptcies of src/server/server_main.c in a small world.
use under_flow.Base.{
  ◌++◌, set, All, ℕ, ◌≡◌, refl, ◌+◌, ◌<◌, ◌≤◌, Bool, true, false, Option, none, some, List, [], ◌∷◌,
  arith, inl, inr, if◌then◌else◌, ◌⊎◌, ◌≢◌, take, replicate, ◌&&◌, ◌||◌,
}
use under_flow.Base.Int.{pos}
use under_flow.Base.Text.{Text}
use under_flow.Userdb.{UserRecord, zero_record, userdb_find}
use under_flow.Protocol.{invalid_session}
use under_flow.Server.{Server, send_error}
use under_flow.Server.World.{ada, bob, account, world}
use under_flow.Server.Raid.{
  victims_of, no_pending, periodic_raid_timeout, handle_minigame_submit, pending_idx,
}
use under_flow.Server.Raid.Burning.{raid_timeout_lem}
use under_flow.Server.Raid.Answers.{minigame_lem}
use under_flow.Userdb.{burned}

-- A raid on bob.
abbrev raided : Server
raided = record world {
  raid = record { deadline = 115; pending_keys = bob ∷ replicate 9 []; passcode = 0x78 ∷ [] };
}

raid_timeout_lem_example :
    let s' = periodic_raid_timeout raided in
    (userdb_find bob s'.users ≡ some (burned (account bob (pos 12000)), 1))
    × (s'.raid ≡ record { deadline = 0; pending_keys = no_pending; passcode = 0x78 ∷ [] })
    × (record s' { users = raided.users; disk = raided.disk; raid = raided.raid; out = raided.out }
        ≡ raided)
unfolding victims_of under_flow.Base.Text.strncmp_eq under_flow.Base.Text.same_text userdb_find
    under_flow.Userdb.find_from
raid_timeout_lem_example = raid_timeout_lem bob raided refl

minigame_lem_example :
    let s' = handle_minigame_submit (λ t. t) 110 5 bob (0x78 ∷ []) raided in
    let left = userdb_find bob raided.users in
    (s'.raid ≡ record raided.raid { pending_keys = set raided.raid.pending_keys 0 [] })
    × (pending_idx bob s'.raid.pending_keys ≡ none)
    × ((other' : Server → Server) (now' : ℕ) (passcode' : Text)
        → handle_minigame_submit other' now' 5 bob passcode' s' ≡ send_error 5 invalid_session s')
    × (userdb_find bob s'.users ≡ left)
    × (userdb_find bob (periodic_raid_timeout s').users ≡ left)
unfolding pending_idx under_flow.Base.Text.same_text under_flow.Base.Text.strncmp_eq
minigame_lem_example =
    minigame_lem (λ t. t) 110 5 bob (0x78 ∷ []) raided 0 refl refl refl (ground arith) refl

-- Bob without money and without documents.
abbrev ruined : Server
ruined = record world {
  users = record world.users { records = account ada (pos 1000) ∷ account bob (pos 0) ∷ [] };
}
