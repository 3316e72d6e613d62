-- ===== src/Client/Locks.antt =====
-- The end of a round in src/client/ui_client.c: game commands are locked, so that what a client sends
-- leaves the server of src/server/server_main.c as it is.
use under_flow.Base.{
  take, ℕ, ◌≡◌, Bool, false, Option, none, some, [], ◌∷◌, arith, OnSome, Bool-cases, inl, inr, ◌==◌,
}
use under_flow.Base.Text.{Text, same_text, bytes}
use under_flow.Protocol.{Request}
use under_flow.Server.{Server}
use under_flow.Sessions.{Outside, dispatch, say}
use under_flow.Client.{round_end}
use under_flow.Client.Commands.{
  Entered, quit, send, locked, local_rumor, local_ok, local_over, nothing, enter, epilogue_line,
}

-- The packet of a line.
abbrev pub sent : Entered → Option Request
sent (send request) = some request
sent quit = none
sent locked = none
sent local_rumor = none
sent local_ok = none
sent local_over = none
sent nothing = none

-- A chat line that is no command is told to everybody, and that is all.
only_said :
    (spawned : Bool) (now sock : ℕ) (key : Text) (b : ℕ) (bs : Text) (s : Server)
    → (b == 47) ≡ false
    → record (say spawned now sock key (b ∷ bs) s) { out = s.out } ≡ s
unfolding say same_text
only_said spawned now sock key b bs s c = ground (arith, c)

-- While the scoreboard is shown, no line that a client enters changes the server: what it sends, if it
-- sends anything, is dispatched without any effect but on the packets that are sent out.
pub locked_lem :
    (input : Text) (o : Outside) (sock : ℕ) (key : Text) (s : Server)
    → OnSome
        (λ request. record ((dispatch o sock key request s).1) { out = s.out } ≡ s)
        (sent (enter round_end input))
unfolding enter epilogue_line dispatch say same_text
locked_lem [] o sock key s = tt
locked_lem (b ∷ bs) o sock key s = elim (Bool-cases (same_text (b ∷ bs) (bytes "/quit"))) [
  | inl q ↦ rw q tt
  | inr q ↦ elim (Bool-cases (b == 47)) [
    | inl c ↦ rw (q, c) tt
    | inr c ↦ rw (q, c) (only_said o.spawned o.now sock key b (take 254 bs) s c)
  ]
]
