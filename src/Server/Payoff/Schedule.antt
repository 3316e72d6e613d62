-- ===== src/Server/Payoff/Schedule.antt =====
-- The round state of src/server/server_main.c over a sequence of escapes.
use mathlib.Core.List.{append-nil, append_assoc}
use under_flow.Base.{
  if◌then◌else◌, leb, false, ◌∙◌, length-append, subst, ℕ, zero, suc, ◌+◌, ◌*◌, ◌≡◌, refl, ap, List,
  [], ◌∷◌, ◌++◌, length, take, set, replicate, min, arith, ◌<◌, ◌-◌, All,
}
use under_flow.Base.Int.{ℤ, pos, add32}
use under_flow.Base.Text.{Text}
use under_flow.Protocol.{max_score_escaped}
use under_flow.Server.{RoundState, EscapeLogEntry}
use under_flow.Server.Round.{copy_key, empty_entry, fresh_round}
use under_flow.Server.Payoff.{next_goal, record_escape}

-- One escape after another, each at its time.
unfoldable pub escape_all : List (ℕ × Text) → RoundState → RoundState
unfolding record_escape
escape_all [] r = r
escape_all ((now, key) ∷ es) r = escape_all es (record_escape now key r)

-- The goal after `n` escapes, the time of the second escape, and the log, counted from `n`.
abbrev goal_after : ℕ → ℤ
goal_after n = pos (min 14000 (10000 + 2000 * n))

abbrev second_at : List (ℕ × Text) → ℕ
second_at [] = 0
second_at (e ∷ []) = 0
second_at (e ∷ e' ∷ es) = e'.0

abbrev pub entries_from : ℕ → List (ℕ × Text) → List EscapeLogEntry
entries_from n [] = []
entries_from n ((now, key) ∷ es) =
    record { key = copy_key key; money_at_escape = goal_after n; escape_order = n + 1 }
    ∷ entries_from (n + 1) es

next_goal-after : (n : ℕ) → next_goal (goal_after n) ≡ goal_after (n + 1)
unfolding next_goal add32
next_goal-after zero = refl
next_goal-after (suc zero) = refl
next_goal-after (suc (suc n)) =
    let here : min 14000 (10000 + 2000 * suc (suc n)) ≡ 14000 = omega arith in
    let there : min 14000 (10000 + 2000 * (suc (suc n) + 1)) ≡ 14000 = omega arith in
    rw (here, there) refl

-- The log with the entries `done` in it.
abbrev log_of : List EscapeLogEntry → List EscapeLogEntry
log_of done = take max_score_escaped (done ++ replicate max_score_escaped empty_entry)

log_of-add :
    (done : List EscapeLogEntry) (e : EscapeLogEntry)
    → (if leb (length done + 1) max_score_escaped
        then set (log_of done) (length done + 1 - 1) e
        else log_of done)
      ≡ log_of (done ++ (e ∷ []))
log_of-add [] e = refl
log_of-add (a ∷ []) e = refl
log_of-add (a ∷ b ∷ []) e = refl
log_of-add (a ∷ b ∷ c ∷ ds) e =
    let full : leb (length (a ∷ b ∷ c ∷ ds) + 1) max_score_escaped ≡ false = ground arith in
    rw full refl

-- The state after the escapes whose log entries are `done`.
abbrev IsOnSchedule : List EscapeLogEntry → RoundState → Type 0
IsOnSchedule done r =
    (r.goal_money ≡ goal_after (length done))
    × (r.escaped_count ≡ length done)
    × (r.escape_log ≡ log_of done)

abbrev entry_after : ℕ → Text → EscapeLogEntry
entry_after n key = record {
  key = copy_key key;
  money_at_escape = goal_after n;
  escape_order = n + 1;
}

escape-IsOnSchedule :
    (done : List EscapeLogEntry) (now : ℕ) (key : Text) (r : RoundState)
    → IsOnSchedule done r
    → IsOnSchedule (done ++ (entry_after (length done) key ∷ [])) (record_escape now key r)
unfolding record_escape
escape-IsOnSchedule done now key r (g, c, l) =
    let long = length-append done (entry_after (length done) key ∷ []) in
    rw (g, c, l, long) (next_goal-after (length done), refl, log_of-add done _)

escapes-IsOnSchedule :
    (es : List (ℕ × Text)) (done : List EscapeLogEntry) (r : RoundState)
    → IsOnSchedule done r
    → IsOnSchedule (done ++ entries_from (length done) es) (escape_all es r)
unfolding escape_all
escapes-IsOnSchedule [] done r h = rw (append-nil done) h
escapes-IsOnSchedule ((now, key) ∷ es) done r h =
    let e = entry_after (length done) key in
    let long = length-append done (e ∷ []) in
    let long' : length (done ++ (e ∷ [])) ≡ length done + 1 = long in
    let rest =
      escapes-IsOnSchedule es (done ++ (e ∷ [])) (record_escape now key r)
        (escape-IsOnSchedule done now key r h) in
    subst (λ xs. IsOnSchedule xs (escape_all es (record_escape now key r)))
      (append_assoc done (e ∷ []) (entries_from (length done + 1) es))
      (subst
        (λ k.
          IsOnSchedule (done ++ (e ∷ []) ++ entries_from k es)
            (escape_all es (record_escape now key r)))
        long' rest)

cap-stays :
    (es : List (ℕ × Text)) (r : RoundState)
    → 0 < r.cap_reached_at
    → (escape_all es r).cap_reached_at ≡ r.cap_reached_at
unfolding escape_all record_escape
cap-stays [] r h = refl
cap-stays ((now, key) ∷ es) r h =
    let same : (record_escape now key r).cap_reached_at ≡ r.cap_reached_at = ground (arith, h) in
    cap-stays es (record_escape now key r) (omega (arith, same, h)) ∙ same

length-entries_from : (n : ℕ) (es : List (ℕ × Text)) → length (entries_from n es) ≡ length es
length-entries_from n [] = refl
length-entries_from n (e ∷ es) = ap suc (length-entries_from (n + 1) es)

cap-second_at :
    (es : List (ℕ × Text))
    → All (λ e. 0 < e.0) es
    → (escape_all es fresh_round).cap_reached_at ≡ second_at es
unfolding escape_all record_escape next_goal add32
cap-second_at [] h = refl
cap-second_at (e ∷ []) h = refl
cap-second_at (e ∷ e' ∷ es) h =
    cap-stays es (record_escape e'.0 e'.1 (record_escape e.0 e.1 fresh_round)) h.1.0

-- After any sequence of escapes from a fresh round, at times that are not 0: the goal is 10000 and
-- 2000 more for each escape, at most 14000; the log holds the first three escapes in order, each with
-- its key and the goal that it paid; and the time at which the goal reached its cap is that of the
-- second escape.
pub escape_all_lem :
    (es : List (ℕ × Text))
    → All (λ e. 0 < e.0) es
    → let r = escape_all es fresh_round in
      (r.goal_money ≡ goal_after (length es))
      × (r.escaped_count ≡ length es)
      × (r.escape_log ≡ take max_score_escaped (entries_from 0 es ++ fresh_round.escape_log))
      × (r.cap_reached_at ≡ second_at es)
escape_all_lem es h =
    let (g, c, l) = escapes-IsOnSchedule es [] fresh_round (refl, refl, refl) in
    let n = length-entries_from 0 es in (g ∙ ap goal_after n, c ∙ n, l, cap-second_at es h)
