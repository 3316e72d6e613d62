-- ===== src/Events/Leak.antt =====
-- The public leak of src/server/events.c: one tag of the documents on offer is frozen for a while.
pub mod Recovery
use under_flow.Base.{
  ℕ, zero, suc, ◌+◌, ◌-◌, ◌%◌, Bool, true, false, ◌&&◌, not, Option, none, some, List, [], ◌∷◌,
  if◌then◌else◌, ltb, length, get_elem?,
}
use under_flow.Base.Masks.{meets}
use under_flow.Market.{market_frozen_mask, market_active_tags, freeze_tags, unfreeze_tags}
use under_flow.Protocol.{news_leak, news_recover}
use under_flow.Server.{Server, broadcast_packet}
use under_flow.Events.Tags.{tag_list}

abbrev pub leak_prob_pct : ℕ
leak_prob_pct = 35

abbrev pub leak_dur_min_sec : ℕ
leak_dur_min_sec = 180

abbrev pub leak_dur_max_sec : ℕ
leak_dur_max_sec = 300

-- The tags of the table that are on offer and not frozen.
unfoldable pub leakable : ℕ → ℕ → List ℕ → List ℕ
leakable present frozen [] = []
leakable present frozen (t ∷ ts) =
    if meets t present && not (meets t frozen)
    then t ∷ leakable present frozen ts
    else leakable present frozen ts

-- The argument of `leak_recovery_thread`.
pub record LeakRecoveryArg : Type 0 where
  pub mask : ℕ
  pub duration_sec : ℕ

-- The tag that is frozen, if there is one.
unfoldable pub leak_pick : ℕ → Server → Option ℕ
unfolding leakable
leak_pick roll s =
    let avail = leakable (market_active_tags s.market) (market_frozen_mask s.market) tag_list in
    get_elem? avail (roll % length avail)

-- `allocated` and `spawned` say whether `malloc` and `pthread_create` succeed. The result is the argument
-- of the recovery thread where the source returns 1, and `none` where it returns 0. No other thread comes in
-- between its locks.
unfoldable pub fire_public_leak : ℕ → ℕ → Bool → Bool → Server → Option LeakRecoveryArg × Server
unfolding leak_pick
fire_public_leak pick_roll dur_roll allocated spawned s =
    let duration = leak_dur_min_sec + dur_roll % (leak_dur_max_sec - leak_dur_min_sec + 1) in
    elim (leak_pick pick_roll s) [
      | none ↦ (none, s)
      | some mask ↦
          let frozen = record s { market = freeze_tags mask s.market } in
          let told = broadcast_packet (news_leak mask duration) frozen in
          if allocated && spawned
          then (some (record { mask = mask; duration_sec = duration }), told)
          else (none, record told { market = unfreeze_tags mask told.market })
    ]

-- `leak_recovery_thread` after its sleep.
unfoldable pub leak_recovery : LeakRecoveryArg → Server → Server
leak_recovery arg s =
    broadcast_packet (news_recover arg.mask) (record s { market = unfreeze_tags arg.mask s.market })

-- `roll` decides; the rest is for the leak.
unfoldable pub event_try_public_leak :
    ℕ → ℕ → ℕ → Bool → Bool → Server → Option LeakRecoveryArg × Server
unfolding fire_public_leak
event_try_public_leak roll pick_roll dur_roll allocated spawned s =
    if ltb (roll % 100) leak_prob_pct
    then fire_public_leak pick_roll dur_roll allocated spawned s
    else (none, s)
