-- ===== src/Client/Audio/Decoders.antt =====
-- The decoder processes of src/client/audio.c: which one runs at each place of the thread, and that none is left.
use under_flow.Base.{ℕ, ◌≡◌, ◌⊎◌, refl, Bool, true, Option, none, some, List, [], ◌∷◌, arith}
use under_flow.Client.Audio.{
  Spot, forked_one, in_wait, reaped, thread_over, Caller, not_called, back, Audio, started, Chance,
  thread_step, shutdown_step, Tick, loop_ticks, shutdown_ticks, song_over, audio_tick, audio_run,
}

-- The decoder that runs and `g_child_pid`, by the place of the thread.
abbrev pub Fits : Spot → Option ℕ → Option ℕ → Type 0
Fits (forked_one pid) decoder child = ((decoder ≡ none) ⊎ (decoder ≡ some pid)) × (child ≡ none)
Fits (in_wait pid) decoder child = ((decoder ≡ none) ⊎ (decoder ≡ some pid)) × (child ≡ some pid)
Fits (reaped pid) decoder child = (decoder ≡ none) × (child ≡ some pid)
Fits _ decoder child = (decoder ≡ none) × (child ≡ none)

-- The shutdown is called while the thread is marked as active, and comes back behind its end.
abbrev CallFits : Caller → Bool → Spot → Type 0
CallFits not_called active spot = active ≡ true
CallFits back active spot = spot ≡ thread_over
CallFits _ active spot = Unit {0}

pub record IsTidy (a : Audio) : Type 0 where
  pub fits : Fits a.spot a.decoder a.g_child_pid
  pub called : CallFits a.caller a.g_audio_active a.spot

thread_step-IsTidy : (c : Chance) (a : Audio) → IsTidy a → IsTidy (thread_step c a)
unfolding thread_step
thread_step-IsTidy c a h = grind arith

shutdown_step-IsTidy : (a : Audio) → IsTidy a → IsTidy (shutdown_step a)
unfolding shutdown_step
shutdown_step-IsTidy a h = grind arith

tick-IsTidy : (t : Tick) (a : Audio) → IsTidy a → IsTidy (audio_tick t a)
unfolding audio_tick
tick-IsTidy (loop_ticks c) a h = thread_step-IsTidy c a h
tick-IsTidy shutdown_ticks a h = shutdown_step-IsTidy a h
tick-IsTidy song_over a h = grind arith

run-IsTidy : (ts : List Tick) (a : Audio) → IsTidy a → IsTidy (audio_run ts a)
unfolding audio_run
run-IsTidy [] a h = h
run-IsTidy (t ∷ ts) a h = run-IsTidy ts (audio_tick t a) (tick-IsTidy t a h)

-- No decoder is left behind: from the start of the thread, whatever the two threads and the songs have done in
-- whatever order, once `audio_shutdown` has come back the thread is past its end, no decoder runs, and the pid of
-- none is kept. At any time at most the decoder runs that the thread has just started or waits for.
pub no_decoder_left :
    (count : ℕ) (ts : List Tick)
    → let a = audio_run ts (started count) in
      Fits a.spot a.decoder a.g_child_pid
      × (a.caller ≡ back → (a.spot ≡ thread_over) × (a.decoder ≡ none) × (a.g_child_pid ≡ none))
no_decoder_left count ts =
    let h = run-IsTidy ts (started count) (record { fits = (refl, refl); called = refl }) in
    (h.fits, λ done. ended _ h done)
  where
    ended :
        (a : Audio)
        → IsTidy a
        → a.caller ≡ back
        → (a.spot ≡ thread_over) × (a.decoder ≡ none) × (a.g_child_pid ≡ none)
    ended a h done = grind arith
