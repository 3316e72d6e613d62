-- ===== src/Sessions/Unique.antt =====
-- The table of clients of src/server/server_main.c: one connection for a key, as long as nothing comes
-- between the check of a login and its claim.
use under_flow.Base.{
  All-replicate, inl, inr, Option-cases, Bool-cases, ◌≢◌, ◌+◌, Option-cases, ◌+◌, ◌≢◌, ℕ, suc, ◌-◌,
  ◌≤◌, ◌≡◌, refl, Bool, true, false, ◌&&◌, not, some, List, [], ◌∷◌, if◌then◌else◌, ◌==◌, arith,
  All, count_by, length, take_all,
}
use under_flow.Base.Text.{Text, strncmp_eq, strncmp_eq_cong, strncmp_eq_comm, is_set}
use under_flow.Userdb.{max_key_len}
use under_flow.Server.{Client}
use under_flow.Sessions.{
  no_client, initial_clients, accept_client, is_duplicate, claim_key, release_slot,
}

infix 40 ◌⟶◌ ◌⟶*◌
-- A connected client that has logged in with a key.
abbrev pub holds : Text → Client → Bool
holds key c = not (c.sock == 0) && (is_set c.key && strncmp_eq max_key_len c.key key)

abbrev pub connected : ℕ → List Client → ℕ
connected sock cs = count_by (λ c. c.sock == sock) cs

-- A slot that is free has no key.
abbrev pub IsClean : Client → Type 0
IsClean c = ((c.sock == 0) && is_set c.key) ≡ false

-- A key has one connection at most, a socket one slot, and a free slot no key.
pub record IsTable (cs : List Client) : Type 0 where
  pub keys : (key : Text) → count_by (holds key) cs ≤ 1
  pub socks : (sock : ℕ) → connected (suc sock) cs ≤ 1
  pub free : All IsClean cs

accept-IsTable :
    (sock : ℕ) (key : Text) (i : ℕ) (cs cs' : List Client)
    → All IsClean cs
    → accept_client true sock cs ≡ some cs'
    → (count_by (holds key) cs' ≡ count_by (holds key) cs)
      × (connected (suc i) cs' ≡ connected (suc i) cs + (if sock == suc i then 1 else 0))
unfolding accept_client
accept-IsTable sock key i [] cs' clean e = cc
accept-IsTable sock key i (c ∷ cs) cs' clean e = elim (Option-cases (accept_client true sock cs)) [
  | inl q ↦ ground (arith, q, clean.0)
  | inr (rest, q) ↦ ground (arith, q, clean.0, accept-IsTable sock key i cs rest clean.1 q)
]

accept-free :
    (sock : ℕ) (cs cs' : List Client)
    → sock ≢ 0
    → All IsClean cs
    → accept_client true sock cs ≡ some cs'
    → All IsClean cs'
unfolding accept_client
accept-free sock [] cs' up clean e = cc
accept-free sock (c ∷ cs) cs' up clean e = elim (Option-cases (accept_client true sock cs)) [
  | inl q ↦ ground (arith, q, clean)
  | inr (rest, q) ↦ ground (arith, q, clean, accept-free sock cs rest up clean.1 q)
]

release-count :
    (p : Client → Bool) (sock : ℕ) (cs : List Client)
    → p no_client ≡ false
    → count_by p (release_slot sock cs) ≤ count_by p cs
unfolding release_slot
release-count p sock [] h = omega arith
release-count p sock (c ∷ cs) h = ground (arith, h, release-count p sock cs h)

release-free : (sock : ℕ) (cs : List Client) → All IsClean cs → All IsClean (release_slot sock cs)
unfolding release_slot
release-free sock [] clean = tt
release-free sock (c ∷ cs) clean = ground (arith, clean, release-free sock cs clean.1)

claim-free :
    (sock : ℕ) (key : Text) (cs : List Client)
    → sock ≢ 0
    → All IsClean cs
    → All IsClean (claim_key sock key cs)
unfolding claim_key
claim-free sock key [] up clean = tt
claim-free sock key (c ∷ cs) up clean = ground (arith, clean, claim-free sock key cs up clean.1)

claim-same :
    (sock : ℕ) (key k : Text) (cs : List Client)
    → strncmp_eq max_key_len key k ≡ true
    → is_duplicate sock key cs ≡ false
    → count_by (holds k) cs ≤ connected sock cs
unfolding is_duplicate
claim-same sock key k [] same e = omega arith
claim-same sock key k (c ∷ cs) same e = ground (
  arith,
  claim-same sock key k cs same,
  strncmp_eq_cong 32 key k c.key same,
  strncmp_eq_comm 32 c.key key,
  strncmp_eq_comm 32 c.key k,
)

claim-own :
    (sock : ℕ) (key k : Text) (cs : List Client)
    → strncmp_eq max_key_len key k ≡ true
    → is_duplicate sock key cs ≡ false
    → count_by (holds k) (claim_key sock key cs) ≤ connected sock cs
unfolding is_duplicate claim_key
claim-own sock key k [] same e = omega arith
claim-own sock key k (c ∷ cs) same e = ground (
  arith,
  claim-own sock key k cs same,
  claim-same sock key k cs same,
  strncmp_eq_cong 32 key k c.key same,
  strncmp_eq_comm 32 c.key key,
  strncmp_eq_comm 32 c.key k,
)

claim-other :
    (sock : ℕ) (key k : Text) (cs : List Client)
    → length key ≤ max_key_len - 1
    → strncmp_eq max_key_len key k ≡ false
    → count_by (holds k) (claim_key sock key cs) ≤ count_by (holds k) cs
unfolding claim_key
claim-other sock key k [] short e = omega arith
claim-other sock key k (c ∷ cs) short e =
    ground (arith, claim-other sock key k cs short, take_all 31 key short)

pub claim-socks :
    (sock i : ℕ) (key : Text) (cs : List Client)
    → connected i (claim_key sock key cs) ≡ connected i cs
unfolding claim_key
claim-socks sock i key [] = refl
claim-socks sock i key (c ∷ cs) = ground (arith, claim-socks sock i key cs)

-- What the threads do to the table, one critical section for each step but the check and the claim of a
-- login, which are one step here. `accept` gives a descriptor that is not open, and `packet_recv` ends
-- a key within its buffer.
pub data ◌⟶◌ : List Client → List Client → Type 0 where
  accept :
      {cs cs' : List Client}
      → (sock : ℕ) → connected (suc sock) cs ≡ 0
      → accept_client true (suc sock) cs ≡ some cs'
      → cs ⟶ cs'
  login :
      {cs : List Client}
      → (sock : ℕ) (key : Text) → length key ≤ max_key_len - 1
      → is_duplicate (suc sock) key cs ≡ false
      → cs ⟶ claim_key (suc sock) key cs
  leave : {cs : List Client} → (sock : ℕ) → cs ⟶ release_slot (suc sock) cs

pub data ◌⟶*◌ : List Client → List Client → Type 0 where
  here : {cs : List Client} → cs ⟶* cs
  next : {cs cs' cs'' : List Client} → cs ⟶ cs' → cs' ⟶* cs'' → cs ⟶* cs''

-- A claim adds one holder of its own key at most, and of no other key.
claim-keys :
    (sock : ℕ) (key k : Text) (cs : List Client)
    → length key ≤ max_key_len - 1
    → is_duplicate (suc sock) key cs ≡ false
    → IsTable cs
    → count_by (holds k) (claim_key (suc sock) key cs) ≤ 1
claim-keys sock key k cs short free t = elim (Bool-cases (strncmp_eq max_key_len key k)) [
  | inl same ↦ omega (arith, claim-own (suc sock) key k cs same free, t.socks sock)
  | inr other ↦ omega (arith, claim-other (suc sock) key k cs short other, t.keys k)
]

step-IsTable : {cs cs' : List Client} → cs ⟶ cs' → IsTable cs → IsTable cs'
step-IsTable (accept {cs} {cs'} sock fresh e) t = record {
  keys = λ k. omega (arith, (accept-IsTable (suc sock) k 0 cs cs' t.free e).0, t.keys k);
  socks = λ i. ground (arith, (accept-IsTable (suc sock) [] i cs cs' t.free e).1, t.socks i, fresh);
  free = accept-free (suc sock) cs cs' (λ q. omega (arith, q)) t.free e;
}
step-IsTable (login {cs} sock key short free) t = record {
  keys = λ k. claim-keys sock key k cs short free t;
  socks = λ i. omega (arith, claim-socks (suc sock) (suc i) key cs, t.socks i);
  free = claim-free (suc sock) key cs (λ q. omega (arith, q)) t.free;
}
step-IsTable (leave {cs} sock) t = record {
  keys = λ k. omega (arith, release-count (holds k) (suc sock) cs refl, t.keys k);
  socks = λ i.
      omega (arith, release-count (λ c. c.sock == suc i) (suc sock) cs (ground arith), t.socks i);
  free = release-free (suc sock) cs t.free;
}

initial-IsTable : IsTable initial_clients
unfolding initial_clients
initial-IsTable = record {
  keys = λ k. omega arith;
  socks = λ i. ground arith;
  free = All-replicate IsClean 10 no_client refl;
}

-- From the empty table on, whatever connections come, log in and leave, in any order: no key has two
-- connections and no socket two slots, and a free slot has no key, provided that nothing comes between
-- the check of a login and its claim.
pub unique_keys : (cs : List Client) → initial_clients ⟶* cs → IsTable cs
unique_keys cs run = go run initial-IsTable
  where
    go : {xs ys : List Client} → xs ⟶* ys → IsTable xs → IsTable ys
    go here t = t
    go (next s ss) t = go ss (step-IsTable s t)
