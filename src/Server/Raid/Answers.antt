-- ===== src/Server/Raid/Answers.antt =====
-- The answers to the raid of src/server/server_main.c: who is pending, and what becomes of an answer.
use under_flow.Base.{
  zero, suc, ℕ, ◌-◌, ◌<◌, ◌≡◌, refl, ap, set, ◌∙◌, true, false, ◌&&◌, not, none, some, List, [],
  ◌∷◌, if◌then◌else◌, arith, Bool-cases, inl, inr, ltb, ◌==◌, All, length, take_all,
}
use under_flow.Base.Swap.{All-set}
use under_flow.Base.Text.{strncmp_eq, is_set, Text, same_text, strncpy}
use under_flow.Userdb.{userdb_find}
use under_flow.Protocol.{minigame_ok, invalid_session, max_text_len}
use under_flow.Server.{max_key_len, packet_send, send_error, Server}
use under_flow.Server.Raid.{
  answered, pending_idx, handle_minigame_submit, burn_user_by_key, victims_of,
  periodic_raid_timeout,
}
use under_flow.Server.Raid.Burning.{burn_hit, named, burn-keeps, same_key_refl, raid_timeout_lem}

-- The user is pending in no slot but this one.
abbrev pub OnlyAt : Text → ℕ → List Text → Type 0
OnlyAt key i [] = Unit {0}
OnlyAt key zero (k ∷ ks) = pending_idx key ks ≡ none
OnlyAt key (suc i) (k ∷ ks) = ((is_set k && strncmp_eq max_key_len k key) ≡ false) × OnlyAt key i ks

-- A user who was pending in one slot is in none once it is cleared.
pub no_longer :
    (key : Text) (i : ℕ) (ks : List Text) → OnlyAt key i ks → pending_idx key (set ks i []) ≡ none
unfolding pending_idx
no_longer key i [] h = refl
no_longer key zero (k ∷ ks) h = rw h refl
no_longer key (suc i) (k ∷ ks) h = rw (h.0, no_longer key i ks h.1) refl

-- A key that fits its buffer of 32 bytes.
abbrev pub Fits : Text → Type 0
Fits k = length k < max_key_len

-- Whoever is pending in no slot is no victim.
spared :
    (key : Text) (ks : List Text)
    → All Fits ks
    → pending_idx key ks ≡ none
    → named key (victims_of ks) ≡ false
unfolding pending_idx victims_of
spared key [] fits h = refl
spared key (k ∷ ks) fits h =
    let whole = take_all 31 k (omega (arith, fits.0)) in
    let later : pending_idx key ks ≡ none = ground (arith, h) in
    ground (arith, h, whole, spared key ks fits.1 later)

module _ (other : Server → Server) (now sock : ℕ) (key passcode : Text) (s : Server) where
  submitted_late :
      not (s.raid.deadline == 0) && ltb now s.raid.deadline ≡ false
      → handle_minigame_submit other now sock key passcode s ≡ send_error sock invalid_session s
  unfolding handle_minigame_submit
  submitted_late r = ground (arith, r)

  submitted_unasked :
      not (s.raid.deadline == 0) && ltb now s.raid.deadline ≡ true
      → pending_idx key s.raid.pending_keys ≡ none
      → handle_minigame_submit other now sock key passcode s ≡ send_error sock invalid_session s
  unfolding handle_minigame_submit
  submitted_unasked r e = ground (arith, r, e)

  submitted :
      (i : ℕ)
      → not (s.raid.deadline == 0) && ltb now s.raid.deadline ≡ true
      → pending_idx key s.raid.pending_keys ≡ some i
      → handle_minigame_submit other now sock key passcode s ≡ (
          if same_text passcode (strncpy (max_text_len - 1) s.raid.passcode)
          then packet_send sock minigame_ok (answered i (other s))
          else burn_user_by_key key (answered i (other s)))
  unfolding handle_minigame_submit
  submitted i r e = ground (arith, r, e)

  -- Of what the answer leaves, all that counts later.
  outcome :
      (i : ℕ)
      → not (s.raid.deadline == 0) && ltb now s.raid.deadline ≡ true
      → pending_idx key s.raid.pending_keys ≡ some i
      → (other s).users.writable ≡ true
      → let s' = handle_minigame_submit other now sock key passcode s in
        (s'.raid ≡ (answered i (other s)).raid)
        × (s'.users.writable ≡ true)
        × (userdb_find key s'.users ≡ (
            if same_text passcode (strncpy (max_text_len - 1) s.raid.passcode)
            then userdb_find key (other s).users
            else burn_hit (userdb_find key (other s).users)))
  outcome i r e w =
      let at = submitted i r e in
      let burning = burn-keeps key (answered i (other s)) in
      elim (Bool-cases (same_text passcode (strncpy (max_text_len - 1) s.raid.passcode))) [
        | inl right ↦
            (ground (arith, at, right), ground (arith, at, right, w), ground (arith, at, right))
        | inr wrong ↦
            let burnt : handle_minigame_submit other now sock key passcode s
                ≡ burn_user_by_key key (answered i (other s)) =
              ground (arith, at, wrong) in
            (
              ap (λ t. t.raid) burnt ∙ ap (λ t. t.raid) burning.0,
              ap (λ t. t.users.writable) burnt ∙ burning.1 ∙ w,
              ap (λ t. userdb_find key t.users) burnt
                  ∙ burning.2 key w
                  ∙ rw (same_key_refl key, wrong) refl,
            )
      ]

  pub answered_right :
      (i : ℕ)
      → not (s.raid.deadline == 0) && ltb now s.raid.deadline ≡ true
      → pending_idx key s.raid.pending_keys ≡ some i
      → same_text passcode (strncpy (max_text_len - 1) s.raid.passcode) ≡ true
      → handle_minigame_submit other now sock key passcode s
        ≡ packet_send sock minigame_ok (answered i (other s))
  answered_right i r e right = submitted i r e ∙ rw right refl

  refused :
      pending_idx key s.raid.pending_keys ≡ none
      → handle_minigame_submit other now sock key passcode s ≡ send_error sock invalid_session s
  refused e = elim (Bool-cases (not (s.raid.deadline == 0) && ltb now s.raid.deadline)) [
    | inl r ↦ submitted_unasked r e
    | inr r ↦ submitted_late r
  ]

-- From a user whom the check finds pending in time, in some slot, and whom the other threads leave pending in
-- no other slot, with keys that fit their buffers and on a file that can be written: whatever the passcode
-- that is submitted, the slot is cleared in the list that the other threads leave and the user is pending no
-- more; whatever is submitted next on the connection is refused with an error and changes nothing; and the
-- right passcode leaves the user's account as the other threads left it, a wrong one burns it, and when the
-- time of the raid is up next, the account is still so.
pub minigame_lem :
    (other : Server → Server) (now sock : ℕ) (key passcode : Text) (s : Server) (i : ℕ)
    → not (s.raid.deadline == 0) && ltb now s.raid.deadline ≡ true
    → pending_idx key s.raid.pending_keys ≡ some i
    → OnlyAt key i (other s).raid.pending_keys
    → All Fits (other s).raid.pending_keys
    → (other s).users.writable ≡ true
    → let s' = handle_minigame_submit other now sock key passcode s in
      let t = other s in
      let left =
        if same_text passcode (strncpy (max_text_len - 1) s.raid.passcode)
        then userdb_find key t.users
        else burn_hit (userdb_find key t.users) in
      (s'.raid ≡ record t.raid { pending_keys = set t.raid.pending_keys i [] })
      × (pending_idx key s'.raid.pending_keys ≡ none)
      × ((other' : Server → Server) (now' : ℕ) (passcode' : Text)
          → handle_minigame_submit other' now' sock key passcode' s'
            ≡ send_error sock invalid_session s')
      × (userdb_find key s'.users ≡ left)
      × (userdb_find key (periodic_raid_timeout s').users ≡ left)
minigame_lem other now sock key passcode s i r e only fits w =
    let s' = handle_minigame_submit other now sock key passcode s in
    let t = other s in
    let (raid, writable, found) = outcome other now sock key passcode s i r e w in
    let cleared : pending_idx key s'.raid.pending_keys ≡ none =
      ap (λ v. pending_idx key v.pending_keys) raid ∙ no_longer key i t.raid.pending_keys only in
    let safe : named key (victims_of s'.raid.pending_keys) ≡ false =
      ap (λ v. named key (victims_of v.pending_keys)) raid
      ∙ spared key (set t.raid.pending_keys i [])
          (All-set Fits t.raid.pending_keys i [] (omega arith) fits)
          (no_longer key i t.raid.pending_keys only) in
    (
      raid,
      cleared,
      λ other' now' passcode'. refused other' now' sock key passcode' s' cleared,
      found,
      (raid_timeout_lem key s' writable).0 ∙ rw safe refl ∙ found,
    )
