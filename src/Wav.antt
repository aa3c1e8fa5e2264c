-- ===== src/Wav.antt =====
-- internal/wav/muxer.go: the WAV file with its id3 and LIST INFO tags. The ints of this file are
-- lengths, rates and durations, which are never negative here; a sample is the 16-bit pattern of
-- its int16.
pub mod Layout
pub mod Reader
pub mod Tags
pub mod Riff
pub mod Size
mod Tests
use chipfs.Base.{
  ℕ, zero, suc, ◌+◌, ◌-◌, ◌*◌, ◌/◌, ◌%◌, List, [], ◌∷◌, ◌++◌, ◌==◌, ltb, if◌then◌else◌, length,
  replicate, concat, Bytes, text, copy_at, overwrite, uint16, uint32, le16, le32, itoa,
}

-- `Metadata`
pub record Metadata : Type 0 where
  pub title : Bytes
  pub artist : Bytes
  pub album : Bytes
  pub album_artist : Bytes
  pub track : ℕ

-- `Options`
pub record Options : Type 0 where
  pub sample_rate : ℕ
  pub channels : ℕ
  pub metadata : Metadata

-- `SampleCount`
unfoldable pub sample_count : ℕ → Options → ℕ
sample_count duration_ms opts = duration_ms * opts.sample_rate / 1000 * opts.channels

-- `paddedSize`
unfoldable pub padded_size : ℕ → ℕ
padded_size n = if n % 2 == 0 then n else n + 1

-- `syncsafe`: `dst` is the slice that is written. `& 0x7F` is `% 128`.
unfoldable pub syncsafe : Bytes → ℕ → ℕ → Bytes
unfolding copy_at overwrite
syncsafe tag off n =
    copy_at tag off ((n / 2097152 % 128) ∷ (n / 16384 % 128) ∷ (n / 128 % 128) ∷ (n % 128) ∷ [])

-- `textFrame`: the frame is made of zeros and then written in four places.
unfoldable pub text_frame : Bytes → Bytes → Bytes
unfolding copy_at overwrite syncsafe
text_frame id [] = []
text_frame id (c ∷ cs) =
    let t : Bytes = c ∷ cs in
    let data_len : ℕ = 1 + length t in
    let frame : Bytes = copy_at (replicate (11 + length t) 0) 0 id in
    let sized : Bytes = syncsafe frame 4 data_len in
    let utf8 : Bytes = copy_at sized 10 (0x03 ∷ []) in copy_at utf8 11 t

-- The frames of `buildID3v2`.
unfoldable pub id3_frames : Metadata → Bytes
id3_frames meta =
    text_frame (text "TIT2") meta.title
    ++ (text_frame (text "TPE1") meta.artist
        ++ (text_frame (text "TALB") meta.album
            ++ (text_frame (text "TPE2") meta.album_artist
                ++ (if ltb 0 meta.track then text_frame (text "TRCK") (itoa meta.track) else []))))

-- `buildID3v2`
unfoldable pub build_id3v2 : Metadata → Bytes
unfolding id3_frames syncsafe copy_at overwrite
build_id3v2 meta =
    let frames = id3_frames meta in
    let named : Bytes = copy_at (replicate 10 0) 0 (text "ID3") in
    let versioned : Bytes =
      copy_at (copy_at (copy_at named 3 (0x04 ∷ [])) 4 (0x00 ∷ [])) 5 (0x00 ∷ []) in
    syncsafe versioned 6 (length frames) ++ frames

-- `infoSubchunk`
unfoldable pub info_subchunk : Bytes → Bytes → Bytes
unfolding copy_at overwrite padded_size
info_subchunk id t =
    let str_len : ℕ = length t + 1 in
    let buf : Bytes = copy_at (replicate (8 + padded_size str_len) 0) 0 id in
    copy_at (copy_at buf 4 (le32 (uint32 str_len))) 8 t

-- `if text != "" { subchunks = append(subchunks, infoSubchunk(id, text)...) }`
unfoldable pub info_field : Bytes → Bytes → Bytes
info_field id [] = []
info_field id (c ∷ cs) = info_subchunk id (c ∷ cs)

-- The subchunks of `buildListInfo`.
unfoldable pub info_fields : Metadata → Bytes
info_fields meta =
    info_field (text "INAM") meta.title
    ++ (info_field (text "IART") meta.artist ++ info_field (text "IPRD") meta.album)

-- The buffer of `buildListInfo`, around its subchunks.
unfoldable pub list_chunk : Bytes → Bytes
unfolding copy_at overwrite
list_chunk subchunks =
    let buf : Bytes = copy_at (replicate (12 + length subchunks) 0) 0 (text "LIST") in
    let sized : Bytes = copy_at buf 4 (le32 (uint32 (4 + length subchunks))) in
    copy_at (copy_at sized 8 (text "INFO")) 12 subchunks

-- `buildListInfo`
unfoldable pub build_list_info : Metadata → Bytes
unfolding info_fields list_chunk
build_list_info meta = if length (info_fields meta) == 0 then [] else list_chunk (info_fields meta)

-- `header`, whose last line patches the RIFF size.
unfoldable pub header : ℕ → Options → Bytes
unfolding copy_at overwrite build_id3v2 build_list_info
header pcm_bytes opts =
    let id3 = build_id3v2 opts.metadata in
    let b : Bytes = concat (
      text "RIFF"
      ∷ (0 ∷ 0 ∷ 0 ∷ 0 ∷ [])
      ∷ text "WAVE"
      ∷ text "fmt "
      ∷ le32 16
      ∷ le16 1
      ∷ le16 (uint16 opts.channels)
      ∷ le32 (uint32 opts.sample_rate)
      ∷ le32 (uint32 (opts.sample_rate * opts.channels * 2))
      ∷ le16 (uint16 (opts.channels * 2))
      ∷ le16 16
      ∷ text "id3 "
      ∷ le32 (uint32 (length id3))
      ∷ id3
      ∷ (if length id3 % 2 == 1 then 0 ∷ [] else [])
      ∷ build_list_info opts.metadata
      ∷ text "data"
      ∷ le32 (uint32 pcm_bytes)
      ∷ []) in
    copy_at b 4 (le32 (uint32 (length b - 8 + pcm_bytes)))

-- The loop of `Encode`: each sample as `uint16(s)`, little endian.
unfoldable pub pcm : List ℕ → Bytes
pcm [] = []
pcm (s ∷ samples) = le16 (uint16 s) ++ pcm samples

-- `Encode`
unfoldable pub encode : List ℕ → Options → Bytes
unfolding header pcm
encode samples opts = header (length samples * 2) opts ++ pcm samples

-- `HeaderBytes`
unfoldable pub header_bytes : ℕ → Options → Bytes
unfolding header sample_count
header_bytes duration_ms opts = header (sample_count duration_ms opts * 2) opts

-- `EstimatedSize`
unfoldable pub estimated_size : ℕ → Options → ℕ
unfolding header_bytes sample_count
estimated_size duration_ms opts =
    length (header_bytes duration_ms opts) + sample_count duration_ms opts * 2
