-- ===== src/Client/Loop/Raids.antt =====
-- A SIGINT during a police raid, in the loop of src/client/ui_client.c.
use under_flow.Base.{
  subst, ap, Bool-cases, inl, inr, ◌==◌, sym, ◌∙◌, ℕ, ◌≡◌, refl, Bool, true, false, List, [], ◌∷◌,
  if◌then◌else◌, arith,
}
use under_flow.Base.Text.{same_text, bytes}
use under_flow.Client.{panic, received}
use under_flow.Client.Commands.{enter}
use under_flow.Protocol.{Packet, chat, Request}
use under_flow.Client.Line.{Key, no_key, backspace, resize, key_code, c_string}
use under_flow.Client.Loop.{
  Scene, ticks, panic_tick, round_end_tick, glitch_tick, on_packet, end_if_over, press_enter,
  receive, press, Loop, Turn, quiet, arrived, lost, pressed, Event, turn, sigint, happen,
  happen_all, handle_sigint, sync, round, body, is_panic,
}

-- The client is in a raid, and its handler knows it.
pub record InRaid (l : Loop) : Type 0 where
  pub raiding : l.state.mode ≡ panic
  pub guarded : l.g_in_raid ≡ true
  pub unasked : l.g_quit_req ≡ false
  pub goes_on : l.running ≡ true

-- What ends the program even in a raid: a lost connection and "/quit".
abbrev pub Ends : Turn → Loop → Type 0
Ends lost l = Unit {0}
Ends (pressed (key_code ch)) l =
    (ch ≡ 10) × (same_text (c_string l.line.input) (bytes "/quit") ≡ true)
Ends _ l = ⊥

abbrev EndsAt : Event → Loop → Type 0
EndsAt (turn caught sc t) l = Ends t l
EndsAt sigint l = ⊥

-- A step leaves the flags of the handler alone, and ends the program only when it leaves the raid.
record Goes (l m : Loop) : Type 0 where
  guarded : m.g_in_raid ≡ l.g_in_raid
  unasked : m.g_quit_req ≡ l.g_quit_req
  goes_on : m.state.mode ≡ panic → m.running ≡ l.running

Goes-trans : (l m n : Loop) → Goes l m → Goes m n → n.state.mode ≡ m.state.mode → Goes l n
Goes-trans l m n h k e = record {
  guarded = k.guarded ∙ h.guarded;
  unasked = k.unasked ∙ h.unasked;
  goes_on = λ p. k.goes_on p ∙ h.goes_on (sym e ∙ p);
}

-- The countdowns also leave the mode alone.
abbrev Calm : Loop → Loop → Type 0
Calm l m = Goes l m × (m.state.mode ≡ l.state.mode)

Calm-trans : (l m n : Loop) → Calm l m → Calm m n → Calm l n
Calm-trans l m n h k = (Goes-trans l m n h.0 k.0 k.1, k.1 ∙ h.1)

panic_tick-Calm : (now : ℕ) (l : Loop) → Calm l (panic_tick now l).0
unfolding panic_tick
panic_tick-Calm now l = ground arith

round_end_tick-Calm : (now : ℕ) (l : Loop) → Calm l (round_end_tick now l).0
unfolding round_end_tick
round_end_tick-Calm now l = ground arith

glitch_tick-Calm : (now ms : ℕ) (l : Loop) → Calm l (glitch_tick now ms l).0
unfolding glitch_tick
glitch_tick-Calm now ms l = ground arith

ticks-Calm : (now ms : ℕ) (l : Loop) → Calm l (ticks now ms l).0
unfolding ticks
ticks-Calm now ms l =
    let l1 = (panic_tick now l).0 in
    let l2 = (round_end_tick now l1).0 in
    Calm-trans l l2 _ (Calm-trans l l1 l2 (panic_tick-Calm now l) (round_end_tick-Calm now l1))
      (glitch_tick-Calm now ms l2)

on_packet-Goes :
    (sc : Scene) (pkt : Packet) (l : Loop) (requests : List Request)
    → Goes l (on_packet sc pkt (record l { state = received sc.now pkt l.state; sent = requests }))
unfolding on_packet received
on_packet-Goes sc (chat notice) l requests = ground arith
on_packet-Goes sc _ l requests = ground arith

end_if_over-Goes : (l m : Loop) → Goes l m → Goes l (end_if_over m)
end_if_over-Goes l m h = ground arith

receive-Goes : (sc : Scene) (pkt : Packet) (l : Loop) → Goes l (receive sc pkt l)
unfolding receive
receive-Goes sc pkt l = end_if_over-Goes l _ (on_packet-Goes sc pkt l _)

enter-Goes :
    (sc : Scene) (l : Loop)
    → l.state.mode ≡ panic
    → same_text (c_string l.line.input) (bytes "/quit") ≡ false
    → Goes l (press_enter sc l)
unfolding press_enter enter
enter-Goes sc l p q =
    rw (p, q, enter, press_enter) (record { guarded = refl; unasked = refl; goes_on = λ _. refl })

press-Goes :
    (sc : Scene) (key : Key) (l : Loop)
    → l.state.mode ≡ panic
    → ¬ (Ends (pressed key) l)
    → Goes l (press sc key l)
unfolding press
press-Goes sc no_key l p n = ground arith
press-Goes sc resize l p n = ground arith
press-Goes sc backspace l p n = ground arith
press-Goes sc (key_code ch) l p n = elim (Bool-cases (ch == 10)) [
  | inr q ↦ rw q (record { guarded = refl; unasked = refl; goes_on = λ _. refl })
  | inl q ↦
      let at_enter : ch ≡ 10 = ground (arith, q) in
      elim (Bool-cases (same_text (c_string l.line.input) (bytes "/quit"))) [
        | inl r ↦ absurd (n (at_enter, r))
        | inr r ↦ rw q (enter-Goes sc l p r)
      ]
]

if-Goes : (b : Bool) (l x y : Loop) → Goes l x → Goes l y → Goes l (if b then x else y)
if-Goes true l x y h k = h
if-Goes false l x y h k = k

body-Goes :
    (sc : Scene) (t : Turn) (l : Loop) → l.state.mode ≡ panic → ¬ (Ends t l) → Goes l (body sc t l)
unfolding body
body-Goes sc quiet l p n = (ticks-Calm sc.now sc.ms l).0
body-Goes sc (arrived pkt) l p n =
    let m = receive sc pkt l in
    let k = ticks-Calm sc.now sc.ms m in
    if-Goes m.running l _ m (Goes-trans l m _ (receive-Goes sc pkt l) k.0 k.1)
      (receive-Goes sc pkt l)
body-Goes sc lost l p n = absurd (n tt)
body-Goes sc (pressed key) l p n = press-Goes sc key l p n

handle_sigint-raid : (l : Loop) → l.g_in_raid ≡ true → handle_sigint l ≡ l
unfolding handle_sigint
handle_sigint-raid l g = rw (g, handle_sigint) refl

-- At its head a round in a raid does not stop, caught or not.
sync-raid : (caught : Bool) (l : Loop) → InRaid l → sync caught l ≡ l
unfolding sync
sync-raid caught l h =
    let known : is_panic l.state.mode ≡ true = rw (h.raiding, is_panic) refl in
    let same = ap (λ b. record l { g_in_raid = b }) (known ∙ sym h.guarded) in go caught same
  where
    go : (b : Bool) → record l { g_in_raid = is_panic l.state.mode } ≡ l → sync b l ≡ l
    go true e = ap handle_sigint e ∙ handle_sigint-raid l h.guarded
    go false e = e

round-InRaid :
    (caught : Bool) (sc : Scene) (t : Turn) (l : Loop)
    → InRaid l
    → ¬ (Ends t l)
    → (round caught sc t l).state.mode ≡ panic
    → InRaid (round caught sc t l)
round-InRaid caught sc t l h n p =
    let k = body-Goes sc t l h.raiding n in
    subst InRaid (sym same) (record {
      raiding = sym (ap (λ (m : Loop). m.state.mode) same) ∙ p;
      guarded = k.guarded ∙ h.guarded;
      unasked = k.unasked ∙ h.unasked;
      goes_on = k.goes_on (sym (ap (λ (m : Loop). m.state.mode) same) ∙ p) ∙ h.goes_on;
    })
  where
    run_on :
        (m : Loop)
        → m ≡ l
        → (if m.g_quit_req then record m { running = false } else body sc t m) ≡ body sc t l
    run_on m e =
        ap (λ (x : Loop). if x.g_quit_req then record x { running = false } else body sc t x) e
        ∙ rw h.unasked refl

    same : round caught sc t l ≡ body sc t l
    same = unfold round in run_on (sync caught l) (sync-raid caught l h)

happen-InRaid :
    (e : Event) (l : Loop)
    → InRaid l
    → ¬ (EndsAt e l)
    → (happen e l).state.mode ≡ panic
    → InRaid (happen e l)
unfolding happen
happen-InRaid sigint l h n p = subst InRaid (sym (handle_sigint-raid l h.guarded)) h
happen-InRaid (turn caught sc t) l h n p =
    let on = ap (λ b. if b then round caught sc t l else l) h.goes_on in
    subst InRaid (sym on)
      (round-InRaid caught sc t l h n (ap (λ (m : Loop). m.state.mode) (sym on) ∙ p))

-- The mode stays `panic` through the events, and none of them is the end of the connection or a line
-- "/quit".
abbrev StaysInRaid : List Event → Loop → Type 0
StaysInRaid [] l = Unit {0}
StaysInRaid (e ∷ es) l =
    (¬ (EndsAt e l)) × ((happen e l).state.mode ≡ panic) × StaysInRaid es (happen e l)

-- Once the head of a round has seen the raid, Ctrl-C has no effect as long as it lasts: through any packets,
-- keys, time-outs and SIGINTs the client runs on, if it does not lose its connection and no line is "/quit".
pub raid_lem : (es : List Event) (l : Loop) → InRaid l → StaysInRaid es l → InRaid (happen_all es l)
unfolding happen_all
raid_lem [] l h stays = h
raid_lem (e ∷ es) l h stays = raid_lem es (happen e l) (happen-InRaid e l h stays.0 stays.1) stays.2
