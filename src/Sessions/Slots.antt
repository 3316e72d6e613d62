-- ===== src/Sessions/Slots.antt =====
-- The slots of src/server/server_main.c: a connection takes one and gives it back.
use under_flow.Base.{
  zero, ◌&&◌, OnSome, OnSome-intro, OnSome-intro, OnSome, ℕ, suc, ◌+◌, ◌≡◌, refl, true, false, none,
  some, List, [], ◌∷◌, ◌↔◌, inl, inr, ◌==◌, arith, Option-cases, All, length,
}
use under_flow.Base.Text.{is_set}
use under_flow.Server.{Client}
use under_flow.Sessions.{Text, claim_key, no_client, accept_client, release_slot}
use under_flow.Sessions.Unique.{IsClean, connected}

-- How many slots are free.
abbrev pub vacant : List Client → ℕ
vacant cs = connected 0 cs

accept-none :
    (sock : ℕ) (cs : List Client) → (accept_client true (suc sock) cs ≡ none) ↔ (vacant cs ≡ 0)
unfolding accept_client
accept-none sock [] = (λ _. refl, λ _. refl)
accept-none sock (c ∷ cs) =
    let ih = accept-none sock cs in
    elim (Option-cases (accept_client true (suc sock) cs)) [
      | inl q ↦ let r = ih.0 q in (λ h. ground (arith, q, r, h), λ h. ground (arith, q, r, h))
      | inr (rest, q) ↦ (λ h. ground (arith, q, h), λ h. ground (arith, q, h, ih.1))
    ]

accept-some :
    (sock : ℕ) (cs cs' : List Client)
    → accept_client true (suc sock) cs ≡ some cs'
    → (length cs' ≡ length cs) × (vacant cs' + 1 ≡ vacant cs)
unfolding accept_client
accept-some sock [] cs' e = cc
accept-some sock (c ∷ cs) cs' e = elim (Option-cases (accept_client true (suc sock) cs)) [
  | inl q ↦ ground (arith, q)
  | inr (rest, q) ↦ ground (arith, q, accept-some sock cs rest q)
]

-- A connection is refused exactly when no slot is free; otherwise there are as many slots as before,
-- and one fewer of them is free.
accept_lem :
    (sock : ℕ) (cs : List Client)
    → ((accept_client true (suc sock) cs ≡ none) ↔ (vacant cs ≡ 0))
      × OnSome
          (λ cs'. (length cs' ≡ length cs) × (vacant cs' + 1 ≡ vacant cs))
          (accept_client true (suc sock) cs)
accept_lem sock cs = (accept-none sock cs, OnSome-intro _ _ (accept-some sock cs))

cleared :
    (sock : ℕ) (key : Text)
    → (sock == 0) ≡ true
    → ((sock == 0) && is_set key) ≡ false
    → (sock ≡ 0) × (key ≡ [])
cleared zero [] z h = (refl, refl)
cleared zero (x ∷ xs) z h = cc
cleared (suc n) key z h = absurd (ground arith)

clean-no_client : (c : Client) → (c.sock == 0) ≡ true → IsClean c → c ≡ no_client
clean-no_client c z h = let (e, f) = cleared c.sock c.key z h in rw (e, f) refl

-- A connection that is accepted and disconnects leaves the table as it was, where its socket had no
-- slot and no free slot has a key; also when it logged in between.
accept-release :
    (sock : ℕ) (key : Text) (cs cs' : List Client)
    → connected (suc sock) cs ≡ 0
    → All IsClean cs
    → accept_client true (suc sock) cs ≡ some cs'
    → (release_slot (suc sock) cs' ≡ cs)
      × (release_slot (suc sock) (claim_key (suc sock) key cs') ≡ cs)
unfolding accept_client release_slot claim_key
accept-release sock key [] cs' fresh clean e = cc
accept-release sock key (c ∷ cs) cs' fresh clean e =
    elim (Option-cases (accept_client true (suc sock) cs)) [
      | inl q ↦ ground (arith, q, clean-no_client c)
      | inr (rest, q) ↦
          ground
            (arith, q, clean-no_client c, accept-release sock key cs rest (ground arith) clean.1 q)
    ]
