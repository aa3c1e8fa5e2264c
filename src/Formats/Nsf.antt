-- ===== src/Formats/Nsf.antt =====
-- internal/formats/nsf/nsf.go: the NSF header, and the chunks of an NSFe file.
pub mod Safe
pub mod Chunks
pub mod Fields
pub mod PerTrack
pub mod Written
pub mod Tests
use chipfs.Base.{
  ℕ, zero, suc, ◌+◌, ◌-◌, List, [], ◌∷◌, ◌++◌, Bool, true, false, not, ◌&&◌, ◌||◌, ltb, leb,
  if◌then◌else◌, length, get_elem?, take, drop, replicate, map, Option, none, some, Bytes, text,
  read_uint32, ℤ, pos, negsuc, Result, ok, err, ◌>>=◌,
}
use chipfs.Formats.{equal, index_byte, null_padded_string, byte_at, slice}

-- The errors of `Parse`. `out_of_range` is a run-time panic; `out_of_fuel` is no Go value.
pub data Error : Type 0 where
  invalid_magic : Error
  header_truncated : ℕ → Error
  chunk_truncated : Bytes → Error
  info_too_short : ℕ → Error
  unrecognized_chunk : Bytes → Error
  info_not_found : Error
  out_of_range : Error
  out_of_fuel : Error

-- `TrackInfo`
pub record TrackInfo : Type 0 where
  pub title : Bytes
  pub duration_ms : ℤ
  pub fade_ms : ℤ

abbrev pub no_info : TrackInfo
no_info = record { title = []; duration_ms = pos 0; fade_ms = pos 0 }

-- `Header`
pub record Header : Type 0 where
  pub title : Bytes
  pub artist : Bytes
  pub copyright : Bytes
  pub track_count : ℕ
  pub first_track : ℕ
  pub tracks : List TrackInfo

-- `splitNullTerminated`
unfoldable pub split_null_terminated : Bytes → ℕ → List Bytes
split_null_terminated b zero = []
split_null_terminated [] (suc max) = []
split_null_terminated (c ∷ b) (suc max) = elim (index_byte (c ∷ b) 0) [
  | none ↦ (c ∷ b) ∷ []
  | some i ↦ take i (c ∷ b) ∷ split_null_terminated (drop (suc i) (c ∷ b)) max
]

-- `ensureTracks`
unfoldable pub ensure_tracks : Header → ℕ → Header
ensure_tracks h n =
    if ltb (length h.tracks) n
    then record h { tracks = h.tracks ++ replicate (n - length h.tracks) no_info }
    else h

-- An assignment to `h.Tracks[i]`
unfoldable pub set_track :
    List TrackInfo → ℕ → (TrackInfo → TrackInfo) → Result Error (List TrackInfo)
set_track [] i f = err out_of_range
set_track (t ∷ tracks) zero f = ok (f t ∷ tracks)
set_track (t ∷ tracks) (suc i) f = set_track tracks i f >>= λ tracks'. ok (t ∷ tracks')

-- `ensureTracks(h, i+1)` and an assignment to `h.Tracks[i]`
unfoldable pub update_track : Header → ℕ → (TrackInfo → TrackInfo) → Result Error Header
update_track h i f =
    let h' = ensure_tracks h (suc i) in
    set_track h'.tracks i f >>= λ tracks. ok (record h' { tracks = tracks })

-- `case "tlbl"`
unfoldable pub apply_titles : Header → ℕ → List Bytes → Result Error Header
apply_titles h i [] = ok h
apply_titles h i (t ∷ titles) =
    update_track h i (λ (info : TrackInfo). record info { title = t }) >>= λ h'.
    apply_titles h' (suc i) titles

-- `int(int32(v))`
unfoldable pub int32 : ℕ → ℤ
int32 v = if ltb v 2147483648 then pos v else negsuc (4294967295 - v)

-- `applyTrackInt32s`, at the entry `idx`
unfoldable pub apply_track_int32s :
    Header → ℕ → Bytes → (TrackInfo → ℤ → TrackInfo) → Result Error Header
apply_track_int32s h idx (a ∷ b ∷ c ∷ d ∷ chunk) set =
    if ltb 0 h.track_count && leb h.track_count idx
    then ok h
    else update_track h idx (λ info. set info (int32 (read_uint32 (a ∷ b ∷ c ∷ d ∷ chunk))))
      >>= λ h'. apply_track_int32s h' (suc idx) chunk set
apply_track_int32s h idx _ set = ok h

-- What the loop of `parseNSFe` keeps.
pub record State : Type 0 where
  pub header : Header
  pub has_info : Bool
  pub plst : Bytes

abbrev pub start : State
start = record {
  header = record {
    title = [];
    artist = [];
    copyright = [];
    track_count = 0;
    first_track = 0;
    tracks = [];
  };
  has_info = false;
  plst = [];
}

-- `case "INFO"`
unfoldable pub apply_info : State → Bytes → Result Error State
apply_info s chunk =
    if ltb (length chunk) 9
    then err (info_too_short (length chunk))
    else (byte_at out_of_range chunk 8 >>= λ count.
        (if leb 10 (length chunk)
          then (byte_at out_of_range chunk 9 >>= λ first. ok (suc first))
          else ok 1)
        >>= λ first_track. ok (record s {
          header = record s.header { track_count = count; first_track = first_track };
          has_info = true;
        }))

-- `case "auth"`
unfoldable pub apply_auth : Header → List Bytes → Header
apply_auth h [] = h
apply_auth h (a ∷ []) = record h { title = a }
apply_auth h (a ∷ b ∷ []) = record h { title = a; artist = b }
apply_auth h (a ∷ b ∷ c ∷ strs) = record h { title = a; artist = b; copyright = c }

-- The names that the switch recognizes and skips.
abbrev pub is_any_of : Bytes → List Bytes → Bool
is_any_of id [] = false
is_any_of id (name ∷ names) = equal id name || is_any_of id names

abbrev pub skipped : List Bytes
skipped =
    text "DATA"
    ∷ text "BANK"
    ∷ text "RATE"
    ∷ text "NSF2"
    ∷ text "VRC7"
    ∷ text "taut"
    ∷ text "psfx"
    ∷ text "text"
    ∷ text "mixe"
    ∷ text "regn"
    ∷ []

-- The `default` case
unfoldable pub apply_other : State → Bytes → Result Error State
apply_other s id = byte_at out_of_range id 0 >>= λ c.
    if leb 65 c && leb c 90 then err (unrecognized_chunk id) else ok s

abbrev pub with_header : State → Result Error Header → Result Error State
with_header s (ok h) = ok (record s { header = h })
with_header s (err e) = err e

-- The switch of `parseNSFe`
unfoldable pub apply_chunk : State → Bytes → Bytes → Result Error State
apply_chunk s id chunk =
    let h = s.header in
    if equal id (text "INFO")
    then apply_info s chunk
    else if equal id (text "auth")
    then ok (record s { header = apply_auth h (split_null_terminated chunk 4) })
    else if equal id (text "tlbl")
    then with_header s (apply_titles h 0 (split_null_terminated chunk h.track_count))
    else if equal id (text "time")
    then with_header s
        (apply_track_int32s h 0 chunk (λ (t : TrackInfo) (v : ℤ). record t { duration_ms = v }))
    else if equal id (text "fade")
    then with_header s
        (apply_track_int32s h 0 chunk (λ (t : TrackInfo) (v : ℤ). record t { fade_ms = v }))
    else if equal id (text "plst")
    then ok (record s { plst = chunk })
    else if is_any_of id skipped
    then ok s
    else apply_other s id

-- `binary.LittleEndian.Uint32(data[pos:])`
unfoldable pub uint32_at : Bytes → ℕ → Result Error ℕ
uint32_at bytes i = slice out_of_range bytes i (length bytes) >>= λ rest.
    if ltb (length rest) 4 then err out_of_range else ok (read_uint32 rest)

-- The loop of `parseNSFe`, from the position `i`
unfoldable pub chunks : ℕ → Bytes → ℕ → State → Result Error State
chunks zero bytes i s = err out_of_fuel
chunks (suc fuel) bytes i s =
    if leb (i + 8) (length bytes)
    then (uint32_at bytes i >>= λ size. slice out_of_range bytes (i + 4) (i + 8) >>= λ id.
        if equal id (text "NEND")
        then ok s
        else if ltb (length bytes) (i + 8 + size)
        then err (chunk_truncated id)
        else (slice out_of_range bytes (i + 8) (i + 8 + size) >>= λ chunk.
            apply_chunk s id chunk >>= λ s'. chunks fuel bytes (i + 8 + size) s'))
    else ok s

-- The playlist: `h.Tracks[i] = internalTracks[idx]`, where there is one
abbrev pub remapped : List TrackInfo → ℕ → TrackInfo
remapped internal_tracks idx = elim (get_elem? internal_tracks idx) [ some t ↦ t | none ↦ no_info ]

unfoldable pub remap : Header → Bytes → Header
remap h [] = h
remap h (i ∷ plst) = record h {
  tracks = map (remapped h.tracks) (i ∷ plst);
  track_count = length (i ∷ plst);
}

-- The end of `parseNSFe`
unfoldable pub finish : State → Result Error Header
finish s = if s.has_info then ok (remap s.header s.plst) else err info_not_found

-- `parseNSFe`. A round of the loop moves on by eight bytes at least, so the length is fuel enough.
unfoldable pub parse_nsfe : Bytes → Result Error Header
parse_nsfe bytes = chunks (length bytes) bytes 4 start >>= finish

-- The literal at the end of `Parse`
unfoldable pub fields : Bytes → Result Error Header
fields bytes = do
  track_count ← byte_at out_of_range bytes 6
  first_track ← byte_at out_of_range bytes 7
  title ← slice out_of_range bytes 14 46
  artist ← slice out_of_range bytes 46 78
  copyright ← slice out_of_range bytes 78 110
  ok (record {
    title = null_padded_string title;
    artist = null_padded_string artist;
    copyright = null_padded_string copyright;
    track_count = track_count;
    first_track = first_track;
    tracks = [];
  })

abbrev pub magic : Bytes
magic = 78 ∷ 69 ∷ 83 ∷ 77 ∷ 26 ∷ []

-- `Parse`
unfoldable pub parse : Bytes → Result Error Header
parse bytes =
    if ltb (length bytes) 4
    then err invalid_magic
    else (slice out_of_range bytes 0 4 >>= λ front.
        if equal front (text "NSFE")
        then parse_nsfe bytes
        else if ltb (length bytes) 5
        then err invalid_magic
        else (slice out_of_range bytes 0 5 >>= λ front.
            if not (equal front magic)
            then err invalid_magic
            else if ltb (length bytes) 128
            then err (header_truncated (length bytes))
            else fields bytes))
