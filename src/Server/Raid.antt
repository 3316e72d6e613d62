-- ===== src/Server/Raid.antt =====
-- The police raid of src/server/server_main.c: its start for everybody or for one user, the passcode that
-- a user submits, and the time limit. `now` is `time(NULL)`, `roll` is `rand()` and `spawned` says
-- whether the thread of the time limit starts.
pub mod Burning
pub mod Answers
mod Tests
use under_flow.Base.{
  ◌-◌, ℕ, zero, suc, ◌+◌, ◌%◌, Bool, true, false, ◌&&◌, not, Option, none, some, List, [], ◌∷◌,
  ◌++◌, map, if◌then◌else◌, ◌==◌, ltb, take, set, get_elem?, replicate,
}
use under_flow.Base.Text.{Text, strncpy, strncmp_eq, same_text, is_set, bytes}
use under_flow.Userdb.{UserRecord, max_key_len, userdb_find, userdb_burn_at}
use under_flow.Sandbox.{sandbox_purge_user}
use under_flow.Protocol.{
  max_text_len, game_over, burned_account, police_raid, chat, raid_alert, minigame_ok,
  invalid_session,
}
use under_flow.Server.{
  Server, RaidState, max_clients, packet_send, send_error, broadcast_packet, unicast_to_key,
}
use under_flow.Server.Round.{copy_key, snapshot_keys}

abbrev periodic_raid_time_limit_sec : ℕ
periodic_raid_time_limit_sec = 15

abbrev raid_passcodes : List Text
raid_passcodes =
    bytes "pUrge"
    ∷ bytes "OverRidE"
    ∷ bytes "BLAckOUt"
    ∷ bytes "FiRewALL"
    ∷ bytes "GHOsT"
    ∷ bytes "ZeROdAy"
    ∷ bytes "LoCkDOWN"
    ∷ bytes "SHadOW"
    ∷ bytes "UNdErFLOW"
    ∷ bytes "pASSWORD"
    ∷ bytes "DEADLINE"
    ∷ bytes "dEBUG"
    ∷ bytes "WhITeHaT"
    ∷ bytes "BLAcKHAt"
    ∷ bytes "BLAckBoX"
    ∷ bytes "WhITeBOx"
    ∷ []

-- The index is below the number of passcodes, 16, so there always is one.
unfoldable pick_raid_passcode : ℕ → Text
pick_raid_passcode roll = elim (get_elem? raid_passcodes (roll % 16)) [
  | none ↦ []
  | some passcode ↦ passcode
]

abbrev burn_found : Text → Server → Server
burn_found key s = elim (userdb_find key s.users) [
  | none ↦ s
  | some (rec, offset) ↦ record s { users = (userdb_burn_at offset s.users).1 }
]

unfoldable pub burn_user_by_key : Text → Server → Server
burn_user_by_key key s =
    let t = burn_found key s in
    unicast_to_key key (game_over burned_account)
      (record t { disk = sandbox_purge_user key t.disk })

unfoldable pub burn_all : List Text → Server → Server
unfolding burn_user_by_key
burn_all [] s = s
burn_all (key ∷ keys) s = burn_all keys (burn_user_by_key key s)

-- The snapshot of the keys that have not answered.
unfoldable pub victims_of : List Text → List Text
victims_of [] = []
victims_of (key ∷ keys) = if is_set key then copy_key key ∷ victims_of keys else victims_of keys

abbrev pub no_pending : List Text
no_pending = replicate max_clients []

abbrev pub clear_raid : Server → Server
clear_raid s = record s { raid = record s.raid { deadline = 0; pending_keys = no_pending } }

-- `periodic_raid_timeout_thread` after its sleep.
unfoldable pub periodic_raid_timeout : Server → Server
unfolding burn_all victims_of
periodic_raid_timeout s = burn_all (victims_of s.raid.pending_keys) (clear_raid s)

-- The state of a raid that starts, with its pending keys.
unfoldable pub start_raid : ℕ → ℕ → List Text → Server → Server
unfolding pick_raid_passcode
start_raid now roll keys s = record s {
  raid = record {
    deadline = now + periodic_raid_time_limit_sec;
    pending_keys = take max_clients (map copy_key keys ++ no_pending);
    passcode = strncpy (max_text_len - 1) (pick_raid_passcode roll);
  };
}

unfoldable pub fire_periodic_police_raid : ℕ → ℕ → Bool → Server → Server
unfolding start_raid
fire_periodic_police_raid now roll spawned s =
    let keys = snapshot_keys s.clients in
    let started = start_raid now roll keys s in
    let passcode = started.raid.passcode in
    let raid = police_raid passcode periodic_raid_time_limit_sec in
    let told = broadcast_packet (chat (raid_alert passcode)) (broadcast_packet raid started) in
    if not (s.raid.deadline == 0) then s else elim keys [
      | [] ↦ record started { raid = record started.raid { deadline = 0 } }
      | ◌∷◌ key rest ↦ if spawned then told else clear_raid told
    ]

unfoldable pub fire_self_police_raid : ℕ → ℕ → Bool → ℕ → Text → Server → Server
unfolding start_raid
fire_self_police_raid now roll spawned sock key s =
    let started = start_raid now roll (key ∷ []) s in
    let told =
      packet_send sock (police_raid started.raid.passcode periodic_raid_time_limit_sec) started in
    if not (s.raid.deadline == 0)
    then send_error sock invalid_session s
    else if spawned
    then told
    else send_error sock invalid_session (clear_raid told)

-- The index of the first pending key that is the user's.
unfoldable pub pending_idx : Text → List Text → Option ℕ
pending_idx key [] = none
pending_idx key (k ∷ ks) =
    let later = pending_idx key ks in
    if is_set k && strncmp_eq max_key_len k key
    then some 0
    else elim later [ none ↦ none | some i ↦ some (i + 1) ]

abbrev pub answered : ℕ → Server → Server
answered i s = record s { raid = record s.raid { pending_keys = set s.raid.pending_keys i [] } }

-- Between its two critical sections the other threads may run: `other`.
unfoldable pub handle_minigame_submit : (Server → Server) → ℕ → ℕ → Text → Text → Server → Server
unfolding pending_idx burn_user_by_key
handle_minigame_submit other now sock key passcode s =
    if not (s.raid.deadline == 0) && ltb now s.raid.deadline
    then elim (pending_idx key s.raid.pending_keys) [
      | none ↦ send_error sock invalid_session s
      | some i ↦
          if same_text passcode (strncpy (max_text_len - 1) s.raid.passcode)
          then packet_send sock minigame_ok (answered i (other s))
          else burn_user_by_key key (answered i (other s))
    ]
    else send_error sock invalid_session s
