-- ===== src/Client/Audio.antt =====
-- src/client/audio.c: the playlist, the search for a player, and the thread that plays one song after another
-- with a decoder process, between the steps of `audio_shutdown`.
pub mod Playlist
pub mod Decoders
pub mod Shutdown
mod Tests
use under_flow.Base.{
  ℕ, zero, suc, ◌+◌, ◌-◌, Bool, true, false, ◌&&◌, not, Option, none, some, List, [], ◌∷◌, ◌++◌,
  if◌then◌else◌, ◌==◌, take, length, leb,
}
use under_flow.Base.Text.{Text, same_text, bytes, is_set}

abbrev pub max_bgm_files : ℕ
max_bgm_files = 32

abbrev max_path_len : ℕ
max_path_len = 256

-- `strtok_r` with ":", from a token that has begun.
abbrev dirs_from : Text → Text → List Text
dirs_from word [] = if is_set word then word ∷ [] else []
dirs_from word (b ∷ bs) =
    let next = dirs_from [] bs in
    let longer = dirs_from (word ++ (b ∷ [])) bs in
    if b == 58 then (if is_set word then word ∷ next else next) else longer

abbrev any_executable : (Text → Bool) → Text → List Text → Bool
any_executable access bin [] = false
any_executable access bin (dir ∷ dirs) =
    let rest = any_executable access bin dirs in
    if access (take (max_path_len - 1) (take 200 dir ++ (bytes "/" ++ take 40 bin)))
    then true
    else rest

-- The directories of PATH, in a buffer of 4096 bytes. `access` says which files may be executed.
unfoldable is_in_path : (Text → Bool) → Option Text → Text → Bool
is_in_path access none bin = false
is_in_path access (some path) bin = any_executable access bin (dirs_from [] (take 4095 path))

pub data Player : Type 0 where
  mpg123 ffplay cvlc : Player

unfoldable probe_audio_player : (Text → Bool) → Option Text → Option Player
unfolding is_in_path
probe_audio_player access path =
    if is_in_path access path (bytes "mpg123")
    then some mpg123
    else if is_in_path access path (bytes "ffplay")
    then some ffplay
    else if is_in_path access path (bytes "cvlc")
    then some cvlc
    else none

-- The arguments for a song, without the NULL behind them.
unfoldable pargv : Player → Bool → Text → List Text
pargv mpg123 has_pulse filepath =
    (bytes "mpg123" ∷ (if has_pulse then bytes "-o" ∷ bytes "pulse" ∷ [] else []))
    ++ (bytes "--buffer" ∷ bytes "8192" ∷ bytes "-q" ∷ filepath ∷ [])
pargv ffplay has_pulse filepath =
    bytes "ffplay"
    ∷ bytes "-nodisp"
    ∷ bytes "-autoexit"
    ∷ bytes "-loglevel"
    ∷ bytes "quiet"
    ∷ bytes "-volume"
    ∷ bytes "90"
    ∷ filepath
    ∷ []
pargv cvlc has_pulse filepath =
    bytes "cvlc" ∷ bytes "--play-and-exit" ∷ bytes "--quiet" ∷ filepath ∷ []

-- What `readdir` gives: the name, and whether it is a regular file.
pub record Entry : Type 0 where
  pub d_name : Text
  pub is_reg : Bool

-- `strrchr(name, '.')`
unfoldable pub last_dot : Text → Option Text
last_dot [] = none
last_dot (b ∷ bs) =
    let later = last_dot bs in
    elim later [ some ext ↦ some ext | none ↦ if b == 46 then some (b ∷ bs) else none ]

unfoldable pub is_song : Entry → Bool
unfolding last_dot
is_song e = elim (last_dot e.d_name) [
  | none ↦ false
  | some ext ↦ e.is_reg && same_text ext (bytes ".mp3")
]

unfoldable pub song_path : Text → Text → Text
song_path dir name = take (max_path_len - 1) (take 180 dir ++ (bytes "/" ++ take 70 name))

-- The loop over the directory, with room for some more songs.
unfoldable pub playlist_from : ℕ → Text → List Entry → List Text
unfolding is_song song_path
playlist_from room dir [] = []
playlist_from zero dir (e ∷ es) = []
playlist_from (suc room) dir (e ∷ es) =
    let more = playlist_from room dir es in
    let same = playlist_from (suc room) dir es in
    if is_song e then song_path dir e.d_name ∷ more else same

-- `g_playlist` after `audio_init` has read the directory.
unfoldable pub playlist : Text → List Entry → List Text
unfolding playlist_from
playlist dir entries = playlist_from max_bgm_files dir entries

-- Where the thread is: before line 61; at the test of the loop; before `fork`; between `fork` and
-- `g_child_pid = pid`; in `waitpid`; between `waitpid` and `g_child_pid = -1`; at the test behind a song; past
-- its end.
pub data Spot : Type 0 where
  starting : Spot
  at_test : Spot
  at_fork : Spot
  forked_one : ℕ → Spot
  in_wait : ℕ → Spot
  reaped : ℕ → Spot
  behind_song : Spot
  thread_over : Spot

-- Where the caller of `audio_shutdown` is: it has not called it; past the guard; past `g_audio_active = 0`;
-- with the pid that it read; in `pthread_join`; back.
pub data Caller : Type 0 where
  not_called : Caller
  past_guard : Caller
  marked : Caller
  read_pid : Option ℕ → Caller
  joining : Caller
  back : Caller

-- The globals, the decoder that runs, and where the two threads are.
pub record Audio : Type 0 where
  pub g_bgm_count : ℕ
  pub g_audio_active : Bool
  pub g_child_pid : Option ℕ
  pub decoder : Option ℕ
  pub spot : Spot
  pub caller : Caller

-- `audio_init` where it starts the thread, on a directory with `count` songs.
abbrev pub started : ℕ → Audio
started count = record {
  g_bgm_count = count;
  g_audio_active = true;
  g_child_pid = none;
  decoder = none;
  spot = starting;
  caller = not_called;
}

-- `audio_init`: its result is 0 (`true`) or -1, and the thread runs where there is one. `dir` is what
-- `opendir` gives, and `spawned` whether `pthread_create` succeeds.
unfoldable audio_init : Option (Text × List Entry) → Bool → Bool → Bool × Option Audio
unfolding playlist
audio_init dir active spawned = if active then (true, none) else elim dir [
  | none ↦ (true, none)
  | some (path, entries) ↦
      if length (playlist path entries) == 0
      then (true, none)
      else if spawned
      then (true, some (started (length (playlist path entries))))
      else (false, none)
]

-- What the outside decides in a step of the thread: whether a player is found, and what `fork` gives.
pub record Chance : Type 0 where
  pub found : Bool
  pub fork : Option ℕ

-- A step of `audio_loop_thread_func`; `waitpid` waits as long as the decoder runs.
unfoldable pub thread_step : Chance → Audio → Audio
thread_step c a = elim a.spot [
  | starting ↦
      if c.found
      then record a { g_audio_active = true; spot = at_test }
      else record a { spot = thread_over }
  | at_test ↦
      if not a.g_audio_active
      then record a { spot = thread_over }
      else record a { spot = if a.g_bgm_count == 0 then thread_over else at_fork }
  | at_fork ↦ elim c.fork [
    | none ↦ record a { spot = behind_song }
    | some pid ↦ record a { decoder = some pid; spot = forked_one pid }
  ]
  | forked_one pid ↦ record a { g_child_pid = some pid; spot = in_wait pid }
  | in_wait pid ↦ elim a.decoder [ none ↦ record a { spot = reaped pid } | some d ↦ a ]
  | reaped pid ↦ record a { g_child_pid = none; spot = behind_song }
  | behind_song ↦ record a { spot = if a.g_audio_active then at_test else thread_over }
  | thread_over ↦ a
]

-- `kill(pid, SIGTERM)`, which ends the decoder if it is the one.
abbrev kill : ℕ → Option ℕ → Option ℕ
kill pid none = none
kill pid (some d) = if d == pid then none else some d

-- A step of `audio_shutdown`; `pthread_join` waits for the end of the thread.
unfoldable pub shutdown_step : Audio → Audio
shutdown_step a = elim a.caller [
  | not_called ↦ elim a.g_child_pid [
    | none ↦ record a { caller = if a.g_audio_active then past_guard else back }
    | some pid ↦ record a { caller = past_guard }
  ]
  | past_guard ↦ record a { g_audio_active = false; caller = marked }
  | marked ↦ record a { caller = read_pid a.g_child_pid }
  | read_pid target ↦ elim target [
    | none ↦ record a { caller = joining }
    | some pid ↦ record a { decoder = kill pid a.decoder; caller = joining }
  ]
  | joining ↦ elim a.spot [ thread_over ↦ record a { caller = back } | _ ↦ a ]
  | back ↦ a
]

-- One step of either thread, or the end of the song that is played.
pub data Tick : Type 0 where
  loop_ticks : Chance → Tick
  shutdown_ticks : Tick
  song_over : Tick

unfoldable pub audio_tick : Tick → Audio → Audio
unfolding thread_step shutdown_step
audio_tick (loop_ticks c) a = thread_step c a
audio_tick shutdown_ticks a = shutdown_step a
audio_tick song_over a = record a { decoder = none }

unfoldable pub audio_run : List Tick → Audio → Audio
unfolding audio_tick
audio_run [] a = a
audio_run (t ∷ ts) a = audio_run ts (audio_tick t a)
