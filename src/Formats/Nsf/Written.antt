-- ===== src/Formats/Nsf/Written.antt =====
-- `Parse` of internal/formats/nsf/nsf.go on an NSFe file that was written from a list of tracks.
use chipfs.Base.{
  ℕ, zero, suc, get_or, ◌<◌, ◌≡◌, refl, sym, ap, ◌∙◌, List, [], ◌∷◌, ◌++◌, true, false, ltb, leb,
  length, map, length-map, All, All-map, All-imp, Bytes, text, ℤ, ok, arith, length-append,
}
use mathlib.Core.Path.{ap₂}
use mathlib.Core.List.{map-map}
use chipfs.Formats.{equal}
use chipfs.Formats.Slices.{IsNotNull}
use chipfs.Formats.Parts.{byte_part}
use chipfs.Formats.Nsf.{
  out_of_range, TrackInfo, Header, State, start, apply_info, apply_auth, apply_chunk, int32, remap,
  remapped, finish, parse,
}
use chipfs.Formats.Nsf.Chunks.{Chunk, IsChunk, apply_all, nsfe_file, parse-nsfe_file}
use chipfs.Formats.Nsf.PerTrack.{
  null_terminated, split_null_terminated-null_terminated, titled, apply_titles-titled, int32s,
  apply_track_int32s-set_value,
}

-- A track as a file has it: the durations are the bits of an int32.
pub record Song : Type 0 where
  pub title : Bytes
  pub duration_bits : ℕ
  pub fade_bits : ℕ

abbrev pub IsSong : Song → Type 0
IsSong s = All IsNotNull s.title × (s.duration_bits < 4294967296) × (s.fade_bits < 4294967296)

pub record Album : Type 0 where
  pub title : Bytes
  pub artist : Bytes
  pub copyright : Bytes
  pub first : ℕ
  pub songs : List Song
  pub playlist : Bytes

-- The chunks of an album, `addresses` what an INFO chunk begins with.
abbrev pub written : Bytes → Bytes → Album → List Chunk
written addresses program a =
    (text "INFO", addresses ++ (length a.songs ∷ a.first ∷ []))
    ∷ (text "DATA", program)
    ∷ (text "auth", null_terminated (a.title ∷ a.artist ∷ a.copyright ∷ []))
    ∷ (text "tlbl", null_terminated (map (λ (s : Song). s.title) a.songs))
    ∷ (text "time", int32s (map (λ (s : Song). s.duration_bits) a.songs))
    ∷ (text "fade", int32s (map (λ (s : Song). s.fade_bits) a.songs))
    ∷ (text "plst", a.playlist)
    ∷ []

abbrev pub info_of : Song → TrackInfo
info_of s = record {
  title = s.title;
  duration_ms = int32 s.duration_bits;
  fade_ms = int32 s.fade_bits;
}

-- What is known of a song before its durations are, and before its fade is.
abbrev with_title : Song → TrackInfo
with_title s = titled s.title

abbrev with_time : Song → TrackInfo
with_time s = record (with_title s) { duration_ms = int32 s.duration_bits }

-- The header of the album with these tracks, and their number
abbrev pub described : Album → ℕ → List TrackInfo → Header
described a track_count tracks = record {
  title = a.title;
  artist = a.artist;
  copyright = a.copyright;
  track_count = track_count;
  first_track = suc a.first;
  tracks = tracks;
}

-- The songs in the order in which they are played, a blank one where the playlist has a number
-- that no song has.
abbrev blank : Song
blank = record { title = []; duration_bits = 0; fade_bits = 0 }

abbrev pub played : Bytes → List Song → List Song
played [] songs = songs
played (i ∷ playlist) songs = map (λ (j : ℕ). get_or songs j blank) (i ∷ playlist)

remapped-get_or :
    (songs : List Song) (i : ℕ) → remapped (map info_of songs) i ≡ info_of (get_or songs i blank)
unfolding int32
remapped-get_or [] i = refl
remapped-get_or (s ∷ songs) zero = refl
remapped-get_or (s ∷ songs) (suc i) = remapped-get_or songs i

map-remapped :
    (songs : List Song) (playlist : Bytes)
    → map (remapped (map info_of songs)) playlist
      ≡ map info_of (map (λ (j : ℕ). get_or songs j blank) playlist)
map-remapped songs [] = refl
map-remapped songs (i ∷ playlist) =
    ap₂ (λ (t : TrackInfo) (ts : List TrackInfo). t ∷ ts) (remapped-get_or songs i)
      (map-remapped songs playlist)

remap-played :
    (a : Album) (playlist : Bytes)
    → remap (described a (length a.songs) (map info_of a.songs)) playlist
      ≡ described a (length (played playlist a.songs)) (map info_of (played playlist a.songs))
unfolding remap
remap-played a [] = refl
remap-played a (i ∷ playlist) =
    ap₂ (λ (n : ℕ) (ts : List TrackInfo). described a n ts)
      (sym (length-map (λ (j : ℕ). get_or a.songs j blank) (i ∷ playlist)))
      (map-remapped a.songs (i ∷ playlist))

apply_info_lem :
    (s : State) (addresses : Bytes) (count first : ℕ)
    → length addresses ≡ 8
    → apply_info s (addresses ++ (count ∷ first ∷ []))
      ≡ ok (record s {
        header = record s.header { track_count = count; first_track = suc first };
        has_info = true;
      })
unfolding apply_info
apply_info_lem s addresses count first h =
    let size = length-append addresses (count ∷ first ∷ []) in
    let long : ltb (length (addresses ++ (count ∷ first ∷ []))) 9 ≡ false =
      ground (arith, size, h) in
    let has_first : leb 10 (length (addresses ++ (count ∷ first ∷ []))) ≡ true =
      ground (arith, size, h) in
    let count_at =
      byte_part out_of_range (addresses ∷ []) count (first ∷ []) [] 8 (omega (arith, h)) in
    let first_at =
      byte_part out_of_range (addresses ∷ (count ∷ []) ∷ []) first [] [] 9 (omega (arith, h)) in
    rw (long, count_at, has_first, first_at) refl

module _ (addresses program : Bytes) (a : Album) where
  apply_all-written :
      length addresses ≡ 8
      → All IsNotNull a.title
      → All IsNotNull a.artist
      → All IsNotNull a.copyright
      → All IsSong a.songs
      → apply_all start (written addresses program a)
        ≡ ok (record {
          header = described a (length a.songs) (map info_of a.songs);
          has_info = true;
          plst = a.playlist;
        })
  unfolding apply_all apply_chunk equal apply_auth
  apply_all-written h h1 h2 h3 h4 =
      let titles = map (λ (s : Song). s.title) a.songs in
      let texts_found =
        split_null_terminated-null_terminated (a.title ∷ a.artist ∷ a.copyright ∷ []) 4
          (h1, (h2, (h3, tt))) (omega arith) in
      let titles_found =
        split_null_terminated-null_terminated titles (length a.songs)
          (All-map IsSong (All IsNotNull) (λ (s : Song). s.title) (λ s good. good.0) a.songs h4)
          (omega (arith, length-map (λ (s : Song). s.title) a.songs)) in
      let empty = described a (length a.songs) [] in
      let same_titles : map titled titles ≡ map with_title a.songs =
        map-map titled (λ (s : Song). s.title) a.songs in
      let timed =
        apply_track_int32s-set_value with_title (λ (s : Song). s.duration_bits)
          (λ (t : TrackInfo) (v : ℤ). record t { duration_ms = v }) a.songs
          (described a (length a.songs) (map titled titles)) []
          (All-imp IsSong (λ s. s.duration_bits < 4294967296) (λ s good. good.1) a.songs h4)
          same_titles
          (sym (length-map titled titles ∙ length-map (λ (s : Song). s.title) a.songs)) in
      let faded =
        apply_track_int32s-set_value with_time (λ (s : Song). s.fade_bits)
          (λ (t : TrackInfo) (v : ℤ). record t { fade_ms = v }) a.songs
          (described a (length a.songs) (map with_time a.songs)) []
          (All-imp IsSong (λ s. s.fade_bits < 4294967296) (λ s good. good.2) a.songs h4) refl
          (sym (length-map with_time a.songs)) in
      rw
        (
          apply_info_lem start addresses (length a.songs) a.first h,
          texts_found,
          titles_found,
          apply_titles-titled titles empty 0 refl,
          timed,
          faded,
        )
        refl

  -- `Parse` recovers an album from the NSFe file that it was written to, with what an INFO chunk
  -- begins with, a program and anything behind the end mark: the texts, the number of the first
  -- track, and for each track its title and its two durations, in the order of the playlist if
  -- that is not empty. The texts hold no null, and sizes and durations fit into 32 bits.
  pub parse-written :
      (n : ℕ) (behind : Bytes)
      → n < 4294967296
      → length addresses ≡ 8
      → All IsNotNull a.title
      → All IsNotNull a.artist
      → All IsNotNull a.copyright
      → All IsSong a.songs
      → All IsChunk (written addresses program a)
      → parse (nsfe_file (written addresses program a) n behind)
        ≡ ok (
            let songs = played a.playlist a.songs in described a (length songs) (map info_of songs))
  parse-written n behind small h h1 h2 h3 h4 fine =
      parse-nsfe_file n behind small (written addresses program a) fine
      ∙ rw (apply_all-written h h1 h2 h3 h4) (unfold finish in ap ok (remap-played a a.playlist))
