-- ===== src/Sessions/Race.antt =====
-- Two logins with one key in src/server/server_main.c, whose checks both come before the claims.
use under_flow.Base.{
  ℕ, suc, ◌-◌, ◌≤◌, ◌≡◌, ◌≢◌, refl, ◌∙◌, true, false, ◌&&◌, List, [], ◌∷◌, ◌==◌, arith, count_by,
  length, take_all,
}
use under_flow.Base.Text.{Text, strncmp_eq, same_text, is_set, strncmp_eq_iff}
use under_flow.Userdb.{max_key_len}
use under_flow.Server.{Client}
use under_flow.Sessions.{is_duplicate, claim_key}
use under_flow.Sessions.Unique.{holds, connected, claim-socks}

strncmp_eq-is_set :
    (a b : Text) → is_set b ≡ true → strncmp_eq max_key_len a b ≡ true → is_set a ≡ true
unfolding strncmp_eq same_text
strncmp_eq-is_set [] [] up e = cc
strncmp_eq-is_set [] (y ∷ ys) up e = cc
strncmp_eq-is_set (x ∷ xs) b up e = refl

not_duplicate :
    (sock : ℕ) (key : Text) (cs : List Client)
    → is_set key ≡ true
    → count_by (holds key) cs ≡ 0
    → is_duplicate sock key cs ≡ false
unfolding is_duplicate
not_duplicate sock key [] up vacant = refl
not_duplicate sock key (c ∷ cs) up vacant =
    ground (arith, not_duplicate sock key cs up, strncmp_eq-is_set c.key key up)

-- The client of a socket that has not logged in holds the key after its claim.
claim-adds :
    (sock : ℕ) (key : Text) (cs : List Client)
    → length key ≤ max_key_len - 1
    → is_set key ≡ true
    → 1 ≤ connected (suc sock) cs
    → count_by (λ c. (c.sock == suc sock) && holds key c) cs ≡ 0
    → count_by (holds key) (claim_key (suc sock) key cs) ≡ suc (count_by (holds key) cs)
unfolding claim_key
claim-adds sock key [] short up one vacant = absurd (omega arith)
claim-adds sock key (c ∷ cs) short up one vacant = ground (
  arith,
  claim-adds sock key cs short up,
  take_all 31 key short,
  (strncmp_eq_iff 32 key key).1 refl,
)

claim-elsewhere :
    (sock other : ℕ) (key : Text) (cs : List Client)
    → sock ≢ other
    → count_by (λ c. (c.sock == other) && holds key c) (claim_key sock key cs)
      ≡ count_by (λ c. (c.sock == other) && holds key c) cs
unfolding claim_key
claim-elsewhere sock other key [] ne = refl
claim-elsewhere sock other key (c ∷ cs) ne = ground (arith, claim-elsewhere sock other key cs ne)

none-here :
    (sock : ℕ) (key : Text) (cs : List Client)
    → count_by (holds key) cs ≡ 0
    → count_by (λ c. (c.sock == sock) && holds key c) cs ≡ 0
none-here sock key [] h = refl
none-here sock key (c ∷ cs) h = ground (arith, none-here sock key cs)

-- Two connections that log in with the same free key at the same time both pass the check, when both
-- checks come before the claims; after the claims two connections hold the key.
pub double_login :
    (a b : ℕ) (key : Text) (cs : List Client)
    → a ≢ b
    → length key ≤ max_key_len - 1
    → is_set key ≡ true
    → count_by (holds key) cs ≡ 0
    → 1 ≤ connected (suc a) cs
    → 1 ≤ connected (suc b) cs
    → (is_duplicate (suc a) key cs ≡ false)
      × (is_duplicate (suc b) key cs ≡ false)
      × (count_by (holds key) (claim_key (suc b) key (claim_key (suc a) key cs)) ≡ 2)
double_login a b key cs ne short up vacant here_a here_b =
    let first = claim-adds a key cs short up here_a (none-here (suc a) key cs vacant) in
    let elsewhere = claim-elsewhere (suc a) (suc b) key cs (λ q. ne (omega (arith, q))) in
    let second =
      claim-adds b key (claim_key (suc a) key cs) short up
        (ground (arith, here_b, claim-socks (suc a) (suc b) key cs))
        (elsewhere ∙ none-here (suc b) key cs vacant) in
    (
      not_duplicate (suc a) key cs up vacant,
      not_duplicate (suc b) key cs up vacant,
      omega (arith, first, second, vacant),
    )
