-- ===== src/Events/Tests.antt =====
-- What src/server/events.c does to the boards, in a small world.
use under_flow.Base.{
  map, none, some, OnSome, Bool, OnSome-intro, OnSome-intro, OnSome-intro, OnSome-intro,
  OnSome-intro, OnSome-intro, OnSome-intro, OnSome-intro, OnSome-intro, OnSome-intro, OnSome-intro,
  OnSome-intro, ℕ, zero, suc, ◌+◌, ◌≤◌, ◌≡◌, ◌↔◌, refl, true, false, ◌%◌, ◌*◌, ◌∷◌, [], arith, All,
  inl, inr, Bool-cases, length,
}
use under_flow.Base.Int.{ℤ, pos, add32, eq_ℤ}
use under_flow.Base.Masks.{covers}
use under_flow.Market.{has_aged, market_find, MarketSlot, is_tag_frozen, max_market_slots}
use under_flow.Market.Freeze.{IsCoherent}
use under_flow.Npc.{popcount_u32}
use under_flow.Server.World.{world, doc, slot, world-Distinct}
use under_flow.Wire.Labels.{get_tag_name}
use under_flow.Events.Names.{tag_short}
use under_flow.Events.Tags.{tag_list, event_random_tags}
use under_flow.Events.Tags.Choice.{all_tags, random_tags_lem}
use under_flow.Events.Spawn.{Engine, Rolls, event_spawn_market, event_age_market}
use under_flow.Events.Spawn.Stock.{IsStocked, HasFile, age-IsStocked, spawn-IsStocked}
use under_flow.Events.Leak.{fire_public_leak}
use under_flow.Sandbox.{dir_get}
use under_flow.Sandbox.Files.{IsDir}
use under_flow.Events.Leak.Recovery.{LeakOutcome, leak_lem}

random_tags_lem_example :
    let tags = event_random_tags (λ i. i + 1) world.market in
    (is_tag_frozen tags world.market ≡ false)
    × (covers all_tags tags ≡ true)
    × (popcount_u32 tags ≤ 3)
    × ((tags ≡ 0) ↔ All (λ t. is_tag_frozen t world.market ≡ true) tag_list)
random_tags_lem_example = random_tags_lem (λ i. i + 1) world.market

world-IsCoherent : IsCoherent world.market
unfolding under_flow.Base.Masks.meets
world-IsCoherent = record { word = omega arith; agree = (λ h. (omega arith, refl), tt) }

leak_lem_example :
    let (started, s') = fire_public_leak 3 50 true true world in LeakOutcome world world s' started
leak_lem_example = leak_lem 3 50 true true world world world-IsCoherent (omega arith)

world-IsStocked : IsStocked world
unfolding under_flow.Market.market_find under_flow.Sandbox.dir_get
world-IsStocked d = go (eq_ℤ (pos 5) d)
  where
    go :
        (b : Bool) → OnSome (HasFile world.disk.master) (elim b [ true ↦ some slot | false ↦ none ])
    go true = (doc (pos 5), refl, refl, refl)
    go false = tt

age-IsStocked_example :
    let s' = event_age_market 500 world in
    IsStocked s'
    × ((d : ℤ) (x : MarketSlot)
        → market_find d world.market ≡ some x
        → has_aged 500 x ≡ true
        → (market_find d s'.market ≡ none)
          × (true ≡ true → IsDir world.disk.master → dir_get d s'.disk.master ≡ none))
    × ((d : ℤ) (x : MarketSlot)
        → market_find d world.market ≡ some x
        → has_aged 500 x ≡ false
        → market_find d s'.market ≡ some x)
age-IsStocked_example = age-IsStocked 500 world world-Distinct (omega arith) world-IsStocked

abbrev engine : Engine
engine = record { doc_id_counter = pos 200; npc_id_counter = pos 400; server = world }

abbrev rolls : Rolls
rolls = record { tags = λ i. i + 1; price = 2; extension = 0; name = 1; life = 7 }

spawn-IsStocked_example : IsStocked (event_spawn_market 500 rolls engine).server
unfolding add32
spawn-IsStocked_example = spawn-IsStocked 500 rolls engine refl world-IsStocked

-- The labels of the client are the short names of the documents.
tag_labels : map get_tag_name tag_list ≡ tag_short
unfolding get_tag_name
tag_labels = refl
