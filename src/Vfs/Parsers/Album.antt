-- ===== src/Vfs/Parsers/Album.antt =====
-- From the bytes of an NSFe file to the tracks that the mount lists: `buildTrackList` of
-- internal/vfs/vfs.go on a file that was written from an album.
use chipfs.Base.{
  ℕ, zero, suc, ◌+◌, ◌<◌, ◌≡◌, ◌⊎◌, refl, ap, ◌∙◌, List, [], ◌∷◌, false, length, length-map,
  get_elem?, map, All, Option, some, none, Bytes, Result, ok, arith,
}
use chipfs.Formats.Slices.{IsNotNull}
use chipfs.Formats.Nsf.{int32}
use chipfs.Formats.Nsf.Chunks.{IsChunk, nsfe_file}
use chipfs.Formats.Nsf.Written.{Song, Album, IsSong, written, info_of, played, parse-written}
use chipfs.Vfs.{TrackEntry, max_play_ms, max_fade_ms}
use chipfs.Vfs.Names.Tidy.{IsTidy, IsName, clean_tag-IsTidy}
use chipfs.Vfs.Tracks.{
  ChipTrack, ChipFile, chip_track, nsf_tracks, parse_nsf, build_entry, build_entries, track_list,
}
use chipfs.Vfs.Tracks.Named.{IsMissing, IsTitled, filename_of-IsTitled, Lasts, clamp_ms-Lasts}
use chipfs.Vfs.Tracks.Entries.{length-build_entries}
use chipfs.Vfs.Parsers.{nsf, chip_parsers, lower, ext_back, reversed, parse_as, build_track_list}

-- What the mount knows of an album
abbrev pub chip_file : Album → ChipFile
chip_file a = record {
  album = a.title;
  artist = a.artist;
  tracks = map (λ (s : Song). chip_track (info_of s)) (played a.playlist a.songs);
  single_track = false;
}

nsf_tracks-map :
    (songs : List Song)
    → nsf_tracks (length songs) (map info_of songs)
      ≡ map (λ (s : Song). chip_track (info_of s)) songs
unfolding nsf_tracks
nsf_tracks-map [] = refl
nsf_tracks-map (s ∷ songs) =
    ap (λ (ts : List ChipTrack). chip_track (info_of s) ∷ ts) (nsf_tracks-map songs)

abbrev entry_of : ChipFile → ℕ → ℕ → ℕ → Option Song → Option TrackEntry
entry_of cf dp df i none = none
entry_of cf dp df i (some s) = some (build_entry cf dp df i (chip_track (info_of s)))

pub get_elem?-build_entries :
    (cf : ChipFile) (default_play_ms default_fade_ms start i : ℕ) (songs : List Song) {s : Song}
    → get_elem? songs i ≡ some s
    → get_elem?
        (build_entries cf default_play_ms default_fade_ms start
          (map (λ (s : Song). chip_track (info_of s)) songs))
        i
      ≡ some (build_entry cf default_play_ms default_fade_ms (start + i) (chip_track (info_of s)))
unfolding build_entries
get_elem?-build_entries cf dp df start i [] h = absurd (cc h)
get_elem?-build_entries cf dp df start zero (t ∷ songs) h =
    let same : start ≡ start + 0 = omega arith in
    let entry = build_entry cf dp df in
    ap (λ (j : ℕ). some (entry j (chip_track (info_of t)))) same
    ∙ ap (λ (o : Option Song). entry_of cf dp df (start + 0) o) h
get_elem?-build_entries cf dp df start (suc i) (t ∷ songs) {s} h =
    let same : suc start + i ≡ start + suc i = omega arith in
    get_elem?-build_entries cf dp df (suc start) i songs h
    ∙ ap (λ (j : ℕ). some (build_entry cf dp df j (chip_track (info_of s)))) same

-- An NSFe file that holds an album: what it begins with, a program, the end mark's size, and what
-- stands behind that.
pub record IsNsfe (bytes : Bytes) (a : Album) : Type 0 where
  pub addresses : Bytes
  pub program : Bytes
  pub end_size : ℕ
  pub behind : Bytes
  pub layout : bytes ≡ nsfe_file (written addresses program a) end_size behind
  pub small : end_size < 4294967296
  pub addressed : length addresses ≡ 8
  pub clean_title : All IsNotNull a.title
  pub clean_artist : All IsNotNull a.artist
  pub clean_copyright : All IsNotNull a.copyright
  pub songs : All IsSong a.songs
  pub chunks : All IsChunk (written addresses program a)

parse_nsf-IsNsfe : {bytes : Bytes} {a : Album} → IsNsfe bytes a → parse_nsf bytes ≡ ok (chip_file a)
unfolding parse_nsf
parse_nsf-IsNsfe {a} h =
    ap parse_nsf h.layout
    ∙ rw
        (
          parse-written h.addresses h.program a h.end_size h.behind h.small h.addressed
              h.clean_title h.clean_artist h.clean_copyright h.songs h.chunks,
          nsf_tracks-map (played a.playlist a.songs),
        )
        refl

module _ (abs : Bytes → Option Bytes) (read_file : Bytes → Result Bytes Bytes) (path : Bytes)
    (default_play_ms default_fade_ms : ℕ) where
  pub build_track_list-IsNsfe :
      {bytes : Bytes} {a : Album}
      → chip_parsers (lower (ext_back (reversed path []) [])) ≡ some nsf
      → read_file path ≡ ok bytes
      → IsNsfe bytes a
      → build_track_list abs read_file path default_play_ms default_fade_ms
        ≡ some (track_list (chip_file a) default_play_ms default_fade_ms)
  unfolding build_track_list parse_as
  build_track_list-IsNsfe named found h =
      rw (build_track_list, named, found, parse_as, parse_nsf-IsNsfe h) refl

  -- A file with the extension of NSF or NSFe that holds an album is listed with one track for each
  -- song in the order of the playlist. Take a song whose title is missing or a plain name as it
  -- stands, of an album whose texts have no space at their ends and are no placeholder. Its track
  -- has the song's place as its index and its number, the title and a file name of number and
  -- title, or those of the number alone, and the texts of the album. It lasts as long as the song
  -- says, or the default where that is not positive, up to 20 minutes, and fades as long as the
  -- song says, or the default where that is not positive (a fade of 0 among them), up to one
  -- minute.
  pub build_track_list-written :
      {bytes : Bytes} {a : Album} (i : ℕ) {s : Song}
      → chip_parsers (lower (ext_back (reversed path []) [])) ≡ some nsf
      → read_file path ≡ ok bytes
      → IsNsfe bytes a
      → get_elem? (played a.playlist a.songs) i ≡ some s
      → IsName s.title ⊎ IsMissing s.title
      → IsTidy a.artist
      → IsTidy a.title
      → (tracks : List TrackEntry) × (build_track_list abs read_file path default_play_ms
            default_fade_ms
          ≡ some tracks)
        × (length tracks ≡ length (played a.playlist a.songs))
        × (t : TrackEntry) × (get_elem? tracks i ≡ some t)
        × (t.track_idx ≡ i)
        × IsTitled i s.title t.opts.metadata.title t.filename
        × (t.opts.metadata.artist ≡ a.artist)
        × (t.opts.metadata.album ≡ a.title)
        × (t.opts.metadata.track ≡ suc i)
        × Lasts (int32 s.duration_bits) default_play_ms 1200000 t.play_ms
        × Lasts (int32 s.fade_bits) default_fade_ms 60000 t.fade_ms
  unfolding track_list build_entry
  build_track_list-written {a} i {s} named found h song title artist album =
      let songs = played a.playlist a.songs in
      let cf = chip_file a in
      let same : 0 + i ≡ i = omega arith in
      (
        _,
        build_track_list-IsNsfe named found h,
        length-build_entries cf default_play_ms default_fade_ms 0 cf.tracks
            ∙ length-map (λ (s : Song). chip_track (info_of s)) songs,
        build_entry cf default_play_ms default_fade_ms i (chip_track (info_of s)),
        get_elem?-build_entries cf default_play_ms default_fade_ms 0 i songs song
            ∙ ap
                (λ (j : ℕ).
                  some (build_entry cf default_play_ms default_fade_ms j (chip_track (info_of s))))
                same,
        refl,
        filename_of-IsTitled s.title i title,
        clean_tag-IsTidy a.artist artist,
        clean_tag-IsTidy a.title album,
        refl,
        clamp_ms-Lasts (int32 s.duration_bits) default_play_ms max_play_ms,
        clamp_ms-Lasts (int32 s.fade_bits) default_fade_ms max_fade_ms,
      )
