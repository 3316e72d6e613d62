-- ===== src/Client/Audio/Shutdown.antt =====
-- The end of the sound of src/client/audio.c: a shutdown during a song, and one before the thread has begun.
use under_flow.Base.{
  ℕ, zero, suc, ◌≤◌, ◌<◌, ◌≡◌, ◌≢◌, ◌==◌, if◌then◌else◌, ◌⊎◌, refl, Bool, true, false, Option, none,
  some, List, [], ◌∷◌, ◌++◌, inl, arith,
}
use under_flow.Client.Audio.{
  Spot, starting, at_test, in_wait, reaped, behind_song, thread_over, not_called, joining, back,
  Audio, started, Chance, thread_step, shutdown_step, Tick, loop_ticks, shutdown_ticks, song_over,
  audio_tick, audio_run,
}

abbrev loop_steps : List Tick → ℕ
loop_steps [] = 0
loop_steps (loop_ticks c ∷ ts) = suc (loop_steps ts)
loop_steps (shutdown_ticks ∷ ts) = loop_steps ts
loop_steps (song_over ∷ ts) = loop_steps ts

-- The four steps of `audio_shutdown` up to `pthread_join`.
abbrev pub shut : List Tick
shut = shutdown_ticks ∷ shutdown_ticks ∷ shutdown_ticks ∷ shutdown_ticks ∷ []

-- The steps of a thread that is to end; 4 where it might play on.
abbrev left : Spot → ℕ
left (in_wait pid) = 3
left (reaped pid) = 2
left behind_song = 1
left at_test = 1
left thread_over = 0
left _ = 4

record IsEnding (n : ℕ) (a : Audio) : Type 0 where
  silent : a.g_audio_active ≡ false
  killed : a.decoder ≡ none
  near : left a.spot ≤ n
  few : n ≤ 3
  waits : (a.caller ≡ joining) ⊎ ((a.caller ≡ back) × (a.spot ≡ thread_over))

loop-IsEnding : (c : Chance) (n : ℕ) (a : Audio) → IsEnding (suc n) a → IsEnding n (thread_step c a)
unfolding thread_step
loop-IsEnding c n a h = grind arith

over-IsEnding : (t : Tick) (a : Audio) → IsEnding 0 a → IsEnding 0 (audio_tick t a)
unfolding audio_tick thread_step shutdown_step
over-IsEnding (loop_ticks c) a h = grind arith
over-IsEnding shutdown_ticks a h = grind arith
over-IsEnding song_over a h = grind arith

shutdown-IsEnding : (n : ℕ) (a : Audio) → IsEnding n a → IsEnding n (shutdown_step a)
unfolding shutdown_step
shutdown-IsEnding n a h = grind arith

song-IsEnding : (n : ℕ) (a : Audio) → IsEnding n a → IsEnding n (record a { decoder = none })
song-IsEnding n a h = grind arith

run-IsEnding :
    (ts : List Tick) (n : ℕ) (a : Audio)
    → IsEnding n a
    → n ≤ loop_steps ts
    → IsEnding 0 (audio_run ts a)
unfolding audio_run audio_tick
run-IsEnding [] zero a h le = h
run-IsEnding [] (suc n) a h le = absurd (omega arith)
run-IsEnding (t ∷ ts) zero a h le =
    run-IsEnding ts 0 (audio_tick t a) (over-IsEnding t a h) (omega arith)
run-IsEnding (loop_ticks c ∷ ts) (suc n) a h le =
    run-IsEnding ts n (thread_step c a) (loop-IsEnding c n a h) (omega arith)
run-IsEnding (shutdown_ticks ∷ ts) (suc n) a h le =
    run-IsEnding ts (suc n) (shutdown_step a) (shutdown-IsEnding (suc n) a h) le
run-IsEnding (song_over ∷ ts) (suc n) a h le =
    run-IsEnding ts (suc n) _ (song-IsEnding (suc n) a h) le

-- The thread waits for the decoder whose pid is kept, and the song goes on or has ended.
abbrev pub during_song : ℕ → Bool → ℕ → Bool → Audio
during_song count active pid ended = record {
  g_bgm_count = count;
  g_audio_active = active;
  g_child_pid = some pid;
  decoder = if ended then none else some pid;
  spot = in_wait pid;
  caller = not_called;
}

shut-IsEnding :
    (count : ℕ) (active : Bool) (pid : ℕ) (ended : Bool)
    → IsEnding 3 (audio_run shut (during_song count active pid ended))
unfolding audio_run audio_tick shutdown_step
shut-IsEnding count active pid true = record {
  silent = refl;
  killed = refl;
  near = omega arith;
  few = omega arith;
  waits = inl refl;
}
shut-IsEnding count active pid false =
    let same : (pid == pid) ≡ true = ground arith in
    record {
      silent = refl;
      killed = rw same refl;
      near = omega arith;
      few = omega arith;
      waits = inl refl;
    }

audio_run-back :
    (ts : List Tick) (a : Audio)
    → IsEnding 0 (audio_run ts a)
    → (audio_run (ts ++ (shutdown_ticks ∷ [])) a).caller ≡ back
unfolding audio_run audio_tick shutdown_step
audio_run-back [] a h = grind arith
audio_run-back (t ∷ ts) a h = audio_run-back ts (audio_tick t a) h

-- A shutdown during a song comes back. When the thread waits for a decoder whose pid is kept, the four steps of
-- `audio_shutdown` up to `pthread_join` end the decoder; and then, in whatever order the threads go on, three
-- steps of the thread are enough: the next step of the caller is past `pthread_join`.
pub shutdown_ends :
    (count : ℕ) (active : Bool) (pid : ℕ) (ended : Bool) (ts : List Tick)
    → 3 ≤ loop_steps ts
    → let a = audio_run shut (during_song count active pid ended) in
      (a.decoder ≡ none) × ((audio_run (ts ++ (shutdown_ticks ∷ [])) a).caller ≡ back)
shutdown_ends count active pid ended ts le =
    let h = shut-IsEnding count active pid ended in
    (h.killed, audio_run-back ts _ (run-IsEnding ts 3 _ h le))

-- A thread that plays on although its end is awaited.
record PlaysOn (a : Audio) : Type 0 where
  active : a.g_audio_active ≡ true
  songs : 0 < a.g_bgm_count
  waits : a.caller ≡ joining
  goes_on : (a.spot ≢ thread_over) × (a.spot ≢ starting)

tick-PlaysOn : (t : Tick) (a : Audio) → PlaysOn a → PlaysOn (audio_tick t a)
unfolding audio_tick thread_step shutdown_step
tick-PlaysOn (loop_ticks c) a h = grind arith
tick-PlaysOn shutdown_ticks a h = grind arith
tick-PlaysOn song_over a h = grind arith

run-PlaysOn : (ts : List Tick) (a : Audio) → PlaysOn a → PlaysOn (audio_run ts a)
unfolding audio_run
run-PlaysOn [] a h = h
run-PlaysOn (t ∷ ts) a h = run-PlaysOn ts (audio_tick t a) (tick-PlaysOn t a h)

-- A shutdown that is too early never comes back: when `audio_shutdown` gets to `pthread_join` before the thread
-- has begun, and the thread then finds a player, it marks the sound as active again; whatever happens from
-- then on, the caller waits.
pub shutdown_hangs :
    (count : ℕ) (fork : Option ℕ) (ts : List Tick)
    → 0 < count
    → (audio_run ts (
        audio_run
          (shut ++ (loop_ticks (record { found = true; fork = fork }) ∷ []))
          (started count))).caller
      ≡ joining
shutdown_hangs count fork ts songs = (run-PlaysOn ts _ begun).waits
  where
    begun : PlaysOn (
        audio_run
          (shut ++ (loop_ticks (record { found = true; fork = fork }) ∷ []))
          (started count))
    begun =
        unfold audio_run audio_tick shutdown_step thread_step in
        record { active = refl; songs = songs; waits = refl; goes_on = ((λ e. cc), λ e. cc) }
