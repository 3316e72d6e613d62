-- ===== src/Server/Payoff/Tests.antt =====
-- Payoffs, escapes and the scoreboard of src/server/server_main.c in a small world.
use under_flow.Base.{
  All, ℕ, ◌≡◌, refl, ◌+◌, ◌<◌, ◌≤◌, Bool, true, false, Option, none, some, List, [], ◌∷◌, arith,
  inl, inr, if◌then◌else◌, ◌⊎◌, ◌≢◌, take, replicate, ◌&&◌, ◌||◌,
}
use under_flow.Base.Int.{pos}
use under_flow.Base.Text.{Text}
use under_flow.Userdb.{UserRecord, zero_record, userdb_find}
use under_flow.Sandbox.{DocFile, dir_get, user_dir, sandbox_buy, sandbox_read_doc, sandbox_count}
use under_flow.Protocol.{ScoreRemaining}
use under_flow.Server.Round.{fresh_round}
use under_flow.Server.Payoff.{handle_payoff, record_escape}
use under_flow.Server.Payoff.Schedule.{escape_all, escape_all_lem, entries_from}
use under_flow.Server.Payoff.Effect.{payoff_succeeds}
use under_flow.Server.World.{ada, bob, doc, account, world}

abbrev ranked : List ScoreRemaining
ranked =
    record { key = ada; money = pos 700 }
    ∷ record { key = bob; money = pos 1200 }
    ∷ record { key = []; money = pos 900 }
    ∷ []

abbrev escapes : List (ℕ × Text)
escapes = (100, ada) ∷ (130, bob) ∷ (160, []) ∷ (190, ada) ∷ []

escapes-AreTimed : All (λ e. 0 < e.0) escapes
escapes-AreTimed = ground arith

escape_all_lem_example :
    let r = escape_all escapes fresh_round in
    (r.goal_money ≡ pos 14000)
    × (r.escaped_count ≡ 4)
    × (r.escape_log ≡ entries_from 0 ((100, ada) ∷ (130, bob) ∷ (160, []) ∷ []))
    × (r.cap_reached_at ≡ 130)
escape_all_lem_example = escape_all_lem escapes escapes-AreTimed

payoff_succeeds_example :
    let s' = handle_payoff 100 true 5 bob world in
    let r = record_escape 100 bob fresh_round in
    (userdb_find ada s'.users ≡ some (account ada (pos 1000), 0))
    × (sandbox_count bob s'.disk ≡ some 0)
    × (s'.disk.master ≡ world.disk.master)
    × (sandbox_read_doc ada (pos 7) s'.disk ≡ some (doc (pos 7)))
    × (record s'.round { round_end_active = false } ≡ r)
    × (s'.round.round_end_active ≡ false)
    × (record s' { users = world.users; disk = world.disk; round = world.round; out = [] } ≡ world)
unfolding userdb_find under_flow.Userdb.find_from under_flow.Base.Text.strncmp_eq
    under_flow.Base.Text.same_text under_flow.Sandbox.user_dir_in sandbox_read_doc record_escape
    dir_get
payoff_succeeds_example =
    payoff_succeeds 100 true 5 bob world (account bob (pos 12000)) 1 [] ada (pos 7) refl refl refl
      refl refl
