-- ===== src/Client/Audio/Tests.antt =====
-- The sound of src/client/audio.c at work: a playlist, a song that is cut off, and a shutdown that is too early.
use under_flow.Base.{
  ◌≡◌, ◌≤◌, ◌<◌, refl, true, false, some, none, List, [], ◌∷◌, ◌++◌, All, arith, length, map, take,
  filter_by,
}
use under_flow.Base.Text.{bytes}
use under_flow.Client.Audio.{
  Entry, playlist, is_song, Tick, loop_ticks, shutdown_ticks, song_over, started, audio_run, back,
  joining, thread_over,
}
use under_flow.Client.Audio.Playlist.{IsShort, whole_path, playlist_lem}
use under_flow.Client.Audio.Decoders.{Fits, no_decoder_left}
use under_flow.Client.Audio.Shutdown.{shut, during_song, shutdown_ends, shutdown_hangs}

abbrev folder : List Entry
folder =
    record { d_name = bytes "a.mp3"; is_reg = true }
    ∷ record { d_name = bytes "a.ogg"; is_reg = true }
    ∷ record { d_name = bytes "b.mp3"; is_reg = false }
    ∷ record { d_name = bytes "c.x.mp3"; is_reg = true }
    ∷ []

playlist_lem_example :
    (length (playlist (bytes "bgm") folder) ≤ 32)
    × All (λ p. length p < 256) (playlist (bytes "bgm") folder)
    × (length (bytes "bgm") ≤ 180
        → All IsShort folder
        → playlist (bytes "bgm") folder
          ≡ map (λ e. whole_path (bytes "bgm") e.d_name) (take 32 (filter_by is_song folder)))
playlist_lem_example = playlist_lem (bytes "bgm") folder

abbrev plays : Tick
plays = loop_ticks (record { found = true; fork = some 77 })

-- A song is played and cut off.
abbrev evening : List Tick
evening =
    (plays ∷ plays ∷ plays ∷ plays ∷ []) ++ (shut ++ (plays ∷ plays ∷ plays ∷ shutdown_ticks ∷ []))

evening_ends : (audio_run evening (started 2)).caller ≡ back
unfolding audio_run
evening_ends = refl

no_decoder_left_example :
    let a = audio_run evening (started 2) in
    Fits a.spot a.decoder a.g_child_pid
    × (a.caller ≡ back → (a.spot ≡ thread_over) × (a.decoder ≡ none) × (a.g_child_pid ≡ none))
no_decoder_left_example = no_decoder_left 2 evening

shutdown_ends_example :
    let a = audio_run shut (during_song 2 true 77 false) in
    (a.decoder ≡ none)
    × ((audio_run ((plays ∷ song_over ∷ plays ∷ plays ∷ []) ++ (shutdown_ticks ∷ [])) a).caller
        ≡ back)
shutdown_ends_example =
    shutdown_ends 2 true 77 false (plays ∷ song_over ∷ plays ∷ plays ∷ []) (omega arith)

shutdown_hangs_example :
    (audio_run (plays ∷ plays ∷ shutdown_ticks ∷ []) (
      audio_run
        (shut ++ (loop_ticks (record { found = true; fork = none }) ∷ []))
        (started 2))).caller
    ≡ joining
shutdown_hangs_example = shutdown_hangs 2 none (plays ∷ plays ∷ shutdown_ticks ∷ []) (omega arith)
