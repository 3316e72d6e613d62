-- ===== src/Client/Loop/Submits.antt =====
-- A line that is typed and entered in the loop of src/client/ui_client.c, and the passcode of a raid on its
-- way to src/server/server_main.c.
use under_flow.Base.{
  ◌+◌, ◌-◌, ◌≤◌, ◌<◌, ◌≡◌, ◌≢◌, refl, sym, ◌∙◌, ap, subst, true, false, List, [], ◌∷◌, ◌++◌, All,
  map, ◌==◌, arith, if◌then◌else◌,
}
use under_flow.Base.Text.{Text, same_text, bytes, strncpy}
use under_flow.Protocol.{req_minigame_submit, max_text_len}
use under_flow.Client.{panic}
use under_flow.Client.Commands.{enter, send}
use under_flow.Client.Line.{
  Line, empty_line, Key, no_key, resize, backspace, key_code, edit, edit_all, c_string,
}
use under_flow.Client.Line.Typing.{
  Act, put, undo, drop, PutsChars, acts, all_keys, bytes_of, size_of, typing_lem,
}
use under_flow.Client.Loop.{
  Loop, Scene, pressed, Event, turn, happen, happen_all, sync, round, body, press, obey, is_panic,
  press_enter,
}

abbrev key_turn : Scene → Key → Event
key_turn sc key = turn false sc (pressed key)

-- A loop that differs from another only in its line and in the flag of the handler.
record Typed (l : Loop) (text : Line) (m : Loop) : Type 0 where
  same_state : m.state ≡ l.state
  typed : m.line ≡ text
  on : m.running ≡ true
  unasked : m.g_quit_req ≡ false
  same_sent : m.sent ≡ l.sent

-- Keys that edit the line.
abbrev Edits : Key → Type 0
Edits backspace = Unit {0}
Edits (key_code ch) = (ch == 10) ≡ false
Edits _ = ⊥

press-edit :
    (sc : Scene) (key : Key) (l : Loop)
    → Edits key
    → press sc key l ≡ record l { line = edit sc.columns key l.line }
unfolding press
press-edit sc backspace l e = refl
press-edit sc (key_code ch) l e = rw e refl
press-edit sc no_key l e = elim e [ ]
press-edit sc resize l e = elim e [ ]

key_turn-press :
    (sc : Scene) (key : Key) (l : Loop)
    → l.running ≡ true
    → l.g_quit_req ≡ false
    → happen (key_turn sc key) l ≡ press sc key (sync false l)
unfolding happen round body sync
key_turn-press sc key l on unasked =
    let m = sync false l in
    ap (λ b. if b then round false sc (pressed key) l else l) on
    ∙ ap (λ b. if b then record m { running = false } else press sc key m) unasked

keys-Typed :
    (sc : Scene) (keys : List Key) (start l : Loop) (text : Line)
    → All Edits keys
    → Typed start text l
    → Typed start (edit_all sc.columns keys text) (happen_all (map (key_turn sc) keys) l)
unfolding happen_all edit_all
keys-Typed sc [] start l text ok h = h
keys-Typed sc (key ∷ keys) start l text ok h =
    keys-Typed sc keys start (happen (key_turn sc key) l) (edit sc.columns key text) ok.1 (
      subst (Typed start (edit sc.columns key text)) (sym step) (record {
        same_state = h.same_state;
        typed = ap (edit sc.columns key) h.typed;
        on = h.on;
        unasked = h.unasked;
        same_sent = h.same_sent;
      }))
  where
    step :
        happen (key_turn sc key) l
        ≡ record l { line = edit sc.columns key l.line; g_in_raid = is_panic l.state.mode }
    step =
        key_turn-press sc key l h.on h.unasked
        ∙ unfold sync in press-edit sc key (sync false l) ok.0

char-Edits : (c : Text) → All (λ b. (32 ≤ b) × (b ≤ 255) × (b ≢ 127)) c → All Edits (map key_code c)
char-Edits [] h = tt
char-Edits (b ∷ bs) h = (ground (arith, h.0), char-Edits bs h.1)

All-append : (xs ys : List Key) → All Edits xs → All Edits ys → All Edits (xs ++ ys)
All-append [] ys h k = k
All-append (x ∷ xs) ys h k = (h.0, All-append xs ys h.1 k)

plan-Edits : (plan : List Act) → All PutsChars plan → All Edits (all_keys plan)
plan-Edits [] h = tt
plan-Edits (put c ∷ later) h =
    All-append (map key_code c) (all_keys later) (char-Edits c h.0.printable) (plan-Edits later h.1)
plan-Edits (undo ∷ later) h = (tt, plan-Edits later h.1)
plan-Edits (drop ∷ later) h = (refl, plan-Edits later h.1)

happen_all-append :
    (es fs : List Event) (l : Loop) → happen_all (es ++ fs) l ≡ happen_all fs (happen_all es l)
unfolding happen_all
happen_all-append [] fs l = refl
happen_all-append (e ∷ es) fs l = happen_all-append es fs (happen e l)

-- The keys of a line and Enter.
abbrev pub entering : Scene → List Act → List Event
entering sc plan = map (key_turn sc) (all_keys plan) ++ (key_turn sc (key_code 10) ∷ [])

in_panic :
    (text : Text)
    → same_text text (bytes "/quit") ≡ false
    → enter panic text ≡ send (req_minigame_submit (strncpy (max_text_len - 1) text))
unfolding enter
in_panic text q = rw q refl

enter-panic :
    (sc : Scene) (l : Loop)
    → l.state.mode ≡ panic
    → same_text (c_string l.line.input) (bytes "/quit") ≡ false
    → press sc (key_code 10) l ≡ record l {
      line = empty_line;
      sent =
          l.sent ++ (req_minigame_submit (strncpy (max_text_len - 1) (c_string l.line.input)) ∷ []);
    }
unfolding press press_enter
enter-panic sc l p q =
    ap (λ e. obey sc e l) (ap (λ mode. enter mode (c_string l.line.input)) p ∙ in_panic _ q)

synced :
    (sc : Scene) (l : Loop)
    → l.state.mode ≡ panic
    → same_text (c_string l.line.input) (bytes "/quit") ≡ false
    → press sc (key_code 10) (sync false l) ≡ record l {
      line = empty_line;
      g_in_raid = is_panic l.state.mode;
      sent =
          l.sent ++ (req_minigame_submit (strncpy (max_text_len - 1) (c_string l.line.input)) ∷ []);
    }
unfolding sync
synced sc l p q = enter-panic sc (sync false l) p q

-- A line that is typed in a raid, on a screen that has room for it: Enter sends the characters that are
-- left of it, as the passcode; the state of the game is as it was.
pub submit_lem :
    (sc : Scene) (plan : List Act) (l : Loop)
    → l.state.mode ≡ panic
    → l.running ≡ true
    → l.g_quit_req ≡ false
    → l.line ≡ empty_line
    → All PutsChars plan
    → size_of plan < 256
    → size_of plan + 44 < sc.columns
    → same_text (bytes_of (acts plan [])) (bytes "/quit") ≡ false
    → let m = happen_all (entering sc plan) l in
      (m.sent
        ≡ l.sent
          ++ (req_minigame_submit (strncpy (max_text_len - 1) (bytes_of (acts plan []))) ∷ []))
      × (m.line ≡ empty_line)
      × (m.running ≡ true)
      × (m.state ≡ l.state)
unfolding happen_all
submit_lem sc plan l p on unasked fresh ok small wide no_quit =
    let keys = map (key_turn sc) (all_keys plan) in
    let h =
      keys-Typed sc (all_keys plan) l l empty_line (plan-Edits plan ok) (record {
        same_state = refl;
        typed = fresh;
        on = on;
        unasked = unasked;
        same_sent = refl;
      }) in
    let k = happen_all keys l in
    let text : c_string k.line.input ≡ bytes_of (acts plan []) =
      ap (λ (t : Line). c_string t.input) h.typed ∙ typing_lem sc.columns plan ok small wide in
    let after_sync =
      synced sc k (ap (λ s. s.mode) h.same_state ∙ p)
        (ap (λ t. same_text t (bytes "/quit")) text ∙ no_quit) in
    let last =
      happen_all-append keys (key_turn sc (key_code 10) ∷ []) l
      ∙ key_turn-press sc (key_code 10) k h.on h.unasked
      ∙ after_sync in
    let sends = λ (t : Text). req_minigame_submit (strncpy (max_text_len - 1) t) ∷ [] in
    (
      ap (λ (m : Loop). m.sent) last
          ∙ ap (λ t. k.sent ++ sends t) text
          ∙ ap (λ r. r ++ sends (bytes_of (acts plan []))) h.same_sent,
      ap (λ (m : Loop). m.line) last,
      ap (λ (m : Loop). m.running) last ∙ h.on,
      ap (λ (m : Loop). m.state) last ∙ h.same_state,
    )
