-- ===== src/Sessions/Tests.antt =====
-- Clients of src/server/server_main.c that come, log in and leave.
use under_flow.Base.{
  ℕ, suc, ◌≤◌, ◌≡◌, refl, true, false, some, none, ◌∷◌, [], ◌++◌, arith, count_by, if◌then◌else◌,
  replicate, List,
}
use under_flow.Base.Int.{pos}
use under_flow.Server.{Client}
use under_flow.Server.World.{world, ada}
use under_flow.Userdb.{zero_record}
use under_flow.Protocol.{req_buy, trigger_leak, req_inven}
use under_flow.Sessions.Ends.{handler-release}
use under_flow.Sessions.{
  Outside, serving, client_handler, no_client, initial_clients, is_duplicate, claim_key,
  release_slot, sync_boards, find_or_append,
}
use under_flow.Sessions.Unique.{
  connected, holds, IsTable, ◌⟶*◌, here, next, accept, login, unique_keys,
}
use under_flow.Sessions.Race.{double_login}

abbrev ada_on_4 : List Client
ada_on_4 = record { sock = 4; key = ada } ∷ replicate 9 no_client

ada_comes : initial_clients ⟶* ada_on_4
unfolding initial_clients under_flow.Sessions.accept_client claim_key is_duplicate
ada_comes = next (accept 3 refl refl) (next (login 3 ada (omega arith) refl) here)

unique_keys_example : IsTable ada_on_4
unique_keys_example = unique_keys ada_on_4 ada_comes

abbrev two_waiting : List Client
two_waiting = record { sock = 4; key = [] } ∷ record { sock = 5; key = [] } ∷ []

double_login_example :
    (is_duplicate 4 ada two_waiting ≡ false)
    × (is_duplicate 5 ada two_waiting ≡ false)
    × (count_by (holds ada) (claim_key 5 ada (claim_key 4 ada two_waiting)) ≡ 2)
unfolding under_flow.Base.Text.strncmp_eq under_flow.Base.Text.same_text
double_login_example =
    double_login 3 4 ada two_waiting (λ e. omega (arith, e)) (omega arith) refl refl (omega arith)
      (omega arith)

abbrev one_free : List Client
one_free = record { sock = 4; key = ada } ∷ no_client ∷ []

abbrev one_waiting : List Client
one_waiting = record { sock = 4; key = ada } ∷ record { sock = 5; key = [] } ∷ []

abbrev quiet : Outside
quiet = record {
  other = λ t. t;
  now = 100;
  roll = 3;
  second_roll = 7;
  allocated = true;
  spawned = true;
  junk = (zero_record, 0);
}

handler-release_example :
    connected 4
      (client_handler 4
        (serving ada)
        ((quiet, req_buy (pos 5)) ∷ (quiet, trigger_leak) ∷ (quiet, req_inven) ∷ [])
        world).clients
    ≡ 0
handler-release_example =
    handler-release 3 (serving ada)
      ((quiet, req_buy (pos 5)) ∷ (quiet, trigger_leak) ∷ (quiet, req_inven) ∷ []) world
      ((λ t. refl), ((λ t. refl), ((λ t. refl), tt))) (omega arith)
