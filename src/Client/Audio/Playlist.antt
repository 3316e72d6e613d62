-- ===== src/Client/Audio/Playlist.antt =====
-- The playlist of src/client/audio.c against the directory that it was read from.
use under_flow.Base.{
  ℕ, zero, suc, ◌≤◌, ◌<◌, ◌≡◌, ◌↔◌, refl, sym, ◌∙◌, ap, true, false, some, List, [], ◌∷◌, ◌++◌, inl,
  inr, arith, Bool-cases, Option-cases, All, map, filter_by, take, take_all, length, length-take,
  length-append,
}
use under_flow.Base.Text.{Text, same_text, same_text_iff, bytes}
use under_flow.Client.Audio.{
  Entry, last_dot, is_song, song_path, playlist_from, playlist, max_bgm_files,
}

-- The path of a song without any bound on its length.
abbrev pub whole_path : Text → Text → Text
whole_path dir name = dir ++ (bytes "/" ++ name)

abbrev pub IsShort : Entry → Type 0
IsShort e = length e.d_name ≤ 70

song_path-whole :
    (dir : Text) (e : Entry)
    → length dir ≤ 180
    → IsShort e
    → song_path dir e.d_name ≡ whole_path dir e.d_name
unfolding song_path
song_path-whole dir e d s =
    let name = take_all 70 e.d_name s in
    let path = take_all 180 dir d in
    let tail = length-append {0} (bytes "/") e.d_name in
    rw (name, path)
      (take_all 255 (whole_path dir e.d_name)
        (omega (arith, length-append {0} dir (bytes "/" ++ e.d_name), tail, d, s)))

song_path-short : (dir name : Text) → length (song_path dir name) < 256
unfolding song_path
song_path-short dir name =
    omega (arith, length-take {0} 255 (take 180 dir ++ (bytes "/" ++ take 70 name)))

from-fits :
    (room : ℕ) (dir : Text) (es : List Entry)
    → (length (playlist_from room dir es) ≤ room)
      × All (λ p. length p < 256) (playlist_from room dir es)
unfolding playlist_from
from-fits room dir [] = (omega arith, tt)
from-fits zero dir (e ∷ es) = (omega arith, tt)
from-fits (suc room) dir (e ∷ es) =
    ground (arith, from-fits room dir es, from-fits (suc room) dir es, song_path-short dir e.d_name)

songs_in :
    (e : Entry) (es : List Entry)
    → is_song e ≡ true
    → filter_by is_song (e ∷ es) ≡ e ∷ filter_by is_song es
songs_in e es q =
    ap (λ b. elim b [ true ↦ e ∷ filter_by is_song es | false ↦ filter_by is_song es ]) q

songs_out :
    (e : Entry) (es : List Entry)
    → is_song e ≡ false
    → filter_by is_song (e ∷ es) ≡ filter_by is_song es
songs_out e es q =
    ap (λ b. elim b [ true ↦ e ∷ filter_by is_song es | false ↦ filter_by is_song es ]) q

from-songs :
    (room : ℕ) (dir : Text) (es : List Entry)
    → length dir ≤ 180
    → All IsShort es
    → playlist_from room dir es
      ≡ map (λ e. whole_path dir e.d_name) (take room (filter_by is_song es))
unfolding playlist_from
from-songs zero dir [] d h = refl
from-songs (suc room) dir [] d h = refl
from-songs zero dir (e ∷ es) d h = refl
from-songs (suc room) dir (e ∷ es) d h = elim (Bool-cases (is_song e)) [
  | inl q ↦
      let paths =
        λ (l : List Entry). map (λ (f : Entry). whole_path dir f.d_name) (take (suc room) l) in
      rw (q, song_path-whole dir e d h.0, from-songs room dir es d h.1)
        (sym (ap paths (songs_in e es q)))
  | inr q ↦
      let paths =
        λ (l : List Entry). map (λ (f : Entry). whole_path dir f.d_name) (take (suc room) l) in
      rw (q, from-songs (suc room) dir es d h.1) (sym (ap paths (songs_out e es q)))
]

-- The playlist holds 32 songs at most, and each path fits its buffer of 256 bytes. Where no name of the directory
-- is longer than 70 bytes, nor its own path than 180, the playlist is the whole paths of the first 32 entries
-- that are songs, in their order.
pub playlist_lem :
    (dir : Text) (es : List Entry)
    → (length (playlist dir es) ≤ 32)
      × All (λ p. length p < 256) (playlist dir es)
      × (length dir ≤ 180
          → All IsShort es
          → playlist dir es ≡ map (λ e. whole_path dir e.d_name) (take 32 (filter_by is_song es)))
unfolding playlist
playlist_lem dir es =
    let fits = from-fits max_bgm_files dir es in (fits.0, fits.1, from-songs max_bgm_files dir es)

-- What `strrchr` finds ends the name.
last_dot-ext : (name ext : Text) → last_dot name ≡ some ext → (stem : Text) × (name ≡ stem ++ ext)
unfolding last_dot
last_dot-ext [] ext e = absurd (ground arith)
last_dot-ext (b ∷ bs) ext e = elim (Option-cases (last_dot bs)) [
  | inl none_later ↦ ([], ground (arith, e, none_later))
  | inr (later, q) ↦
      let (stem, same) = last_dot-ext bs later q in (b ∷ stem, ground (arith, e, q, same))
]

last_dot-mp3 : (stem : Text) → last_dot (stem ++ bytes ".mp3") ≡ some (bytes ".mp3")
unfolding last_dot
last_dot-mp3 [] = refl
last_dot-mp3 (b ∷ bs) = rw (last_dot-mp3 bs) refl

-- A song is a regular file whose name ends in ".mp3".
is_song_iff :
    (e : Entry)
    → (is_song e ≡ true) ↔ ((e.is_reg ≡ true) × ((stem : Text) × (e.d_name ≡ stem ++ bytes ".mp3")))
unfolding is_song
is_song_iff e = (there e, back e)
  where
    there :
        (f : Entry)
        → is_song f ≡ true
        → (f.is_reg ≡ true) × ((stem : Text) × (f.d_name ≡ stem ++ bytes ".mp3"))
    there f h = elim (Option-cases (last_dot f.d_name)) [
      | inl e ↦ absurd (ground (arith, e, h))
      | inr (ext, e) ↦
          let tested : (f.is_reg ≡ true) × (same_text ext (bytes ".mp3") ≡ true) =
            ground (arith, e, h) in
          let (stem, same) = last_dot-ext f.d_name ext e in
          (
            tested.0,
            (stem, same ∙ ap (λ t. stem ++ t) ((same_text_iff ext (bytes ".mp3")).0 tested.1)),
          )
    ]

    back :
        (f : Entry)
        → (f.is_reg ≡ true) × ((stem : Text) × (f.d_name ≡ stem ++ bytes ".mp3"))
        → is_song f ≡ true
    back f (reg, (stem, same)) =
        let dot = ap last_dot same ∙ last_dot-mp3 stem in
        let equal = (same_text_iff (bytes ".mp3") (bytes ".mp3")).1 refl in
        rw (dot, reg, equal, is_song) refl
