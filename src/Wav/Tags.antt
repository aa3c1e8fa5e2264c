-- ===== src/Wav/Tags.antt =====
-- The tags of internal/wav/muxer.go are read back as the metadata: `buildID3v2` by an ID3v2.4
-- reader, the subchunks of `buildListInfo` by a RIFF reader.
use chipfs.Base.{
  ℕ, suc, ◌%◌, ◌<◌, ◌≡◌, refl, ap, ◌∙◌, List, [], ◌∷◌, ◌++◌, ltb, if◌then◌else◌, length, Bytes,
  text, itoa, arith, length-append, some, Bool, true, false,
}
use mathlib.Core.List.{append-nil}
use chipfs.Wav.{Metadata, text_frame, id3_frames, build_id3v2, info_field, info_fields}
use chipfs.Wav.Layout.{padding, text_frame_lem, build_id3v2_lem, info_subchunk_lem}
use chipfs.Wav.Reader.{
  length-padding, riff_chunks, id3_file, id3_file_lem, Reads, Reads-nil, Reads-chunk, HasTags,
  HasTags-nil, HasTags-frame,
}

-- What a text frame says: UTF-8 and the text, or nothing where the text is empty.
abbrev pub id3_tag : Bytes → Bytes → List (Bytes × Bytes)
id3_tag id [] = []
id3_tag id (c ∷ cs) = (id, 3 ∷ c ∷ cs) ∷ []

-- The tags of a track, in the order in which the muxer writes them.
unfoldable pub id3_metadata : Metadata → List (Bytes × Bytes)
id3_metadata meta =
    id3_tag (text "TIT2") meta.title
    ++ (id3_tag (text "TPE1") meta.artist
        ++ (id3_tag (text "TALB") meta.album
            ++ (id3_tag (text "TPE2") meta.album_artist
                ++ (if ltb 0 meta.track then id3_tag (text "TRCK") (itoa meta.track) else []))))

HasTags-text_frame :
    (a b c d : ℕ) (t rest : Bytes) (cs : List (Bytes × Bytes))
    → length (text_frame (a ∷ b ∷ c ∷ d ∷ []) t) < 268435456
    → HasTags rest cs
    → HasTags (text_frame (a ∷ b ∷ c ∷ d ∷ []) t ++ rest) (id3_tag (a ∷ b ∷ c ∷ d ∷ []) t ++ cs)
HasTags-text_frame a b c d [] rest cs h read = unfold text_frame in read
HasTags-text_frame a b c d (x ∷ t) rest cs h read =
    let plain = text_frame_lem a b c d (x ∷ t) (omega arith) in
    rw plain (HasTags-frame a b c d (3 ∷ x ∷ t) rest cs (omega (arith, ap length plain)) read)

HasTags-track :
    (b : Bool) (n : ℕ)
    → length (if b then text_frame (text "TRCK") (itoa n) else []) < 268435456
    → HasTags
        (if b then text_frame (text "TRCK") (itoa n) else [])
        (if b then id3_tag (text "TRCK") (itoa n) else [])
HasTags-track false n h = HasTags-nil
HasTags-track true n h =
    rw (append-nil, append-nil) at
      (HasTags-text_frame b'T' b'R' b'C' b'K' (itoa n) [] [] h HasTags-nil)

HasTags-id3_frames :
    (meta : Metadata)
    → length (id3_frames meta) < 268435456
    → HasTags (id3_frames meta) (id3_metadata meta)
unfolding id3_frames id3_metadata
HasTags-id3_frames meta h =
    let title = text_frame (text "TIT2") meta.title in
    let artist = text_frame (text "TPE1") meta.artist in
    let album = text_frame (text "TALB") meta.album in
    let album_artist = text_frame (text "TPE2") meta.album_artist in
    let track : Bytes =
      if ltb 0 meta.track then text_frame (text "TRCK") (itoa meta.track) else [] in
    let sum_1 = length-append title (artist ++ (album ++ (album_artist ++ track))) in
    let sum_2 = length-append artist (album ++ (album_artist ++ track)) in
    let sum_3 = length-append album (album_artist ++ track) in
    let sum_4 = length-append album_artist track in
    HasTags-text_frame _ _ _ _ meta.title _ _ (omega (arith, sum_1)) (
      HasTags-text_frame _ _ _ _ meta.artist _ _ (omega (arith, sum_1, sum_2)) (
        HasTags-text_frame _ _ _ _ meta.album _ _ (omega (arith, sum_1, sum_2, sum_3)) (
          HasTags-text_frame _ _ _ _ meta.album_artist _ _
            (omega (arith, sum_1, sum_2, sum_3, sum_4))
            (HasTags-track (ltb 0 meta.track) meta.track
              (omega (arith, sum_1, sum_2, sum_3, sum_4))))))

-- An ID3v2.4 reader finds in the tag of `buildID3v2` exactly the non-empty texts of the metadata,
-- and the track number where it is positive, as long as the tag's size has no more than 28 bits.
pub id3_file-build_id3v2 :
    (meta : Metadata)
    → length (id3_frames meta) < 268435456
    → id3_file (build_id3v2 meta) ≡ some (id3_metadata meta)
id3_file-build_id3v2 meta h =
    rw (build_id3v2_lem meta)
      (id3_file_lem (id3_frames meta) h ∙ HasTags-id3_frames meta h _ (omega arith))

-- What an INFO subchunk says: the text and its terminator, or nothing where the text is empty.
abbrev pub info_tag : Bytes → Bytes → List (Bytes × Bytes)
info_tag id [] = []
info_tag id (c ∷ cs) = (id, c ∷ (cs ++ (0 ∷ []))) ∷ []

unfoldable pub info_metadata : Metadata → List (Bytes × Bytes)
info_metadata meta =
    info_tag (text "INAM") meta.title
    ++ (info_tag (text "IART") meta.artist ++ info_tag (text "IPRD") meta.album)

Reads-info_field :
    (a b c d : ℕ) (t rest : Bytes) (cs : List (Bytes × Bytes))
    → length t < 4294967295
    → Reads rest cs
    → Reads (info_field (a ∷ b ∷ c ∷ d ∷ []) t ++ rest) (info_tag (a ∷ b ∷ c ∷ d ∷ []) t ++ cs)
unfolding info_field
Reads-info_field a b c d [] rest cs h read = read
Reads-info_field a b c d (x ∷ t) rest cs h read = rw info_subchunk_lem (
    Reads-chunk a b c d (x ∷ (t ++ (0 ∷ []))) rest cs (omega (arith, length-append t (0 ∷ [])))
      read)

-- A RIFF reader finds in the subchunks of `buildListInfo` exactly the non-empty title, artist and
-- album, each with the terminating null byte, where each is shorter than 2^32 - 1 bytes.
pub riff_chunks-info_fields :
    (meta : Metadata)
    → length meta.title < 4294967295
    → length meta.artist < 4294967295
    → length meta.album < 4294967295
    → riff_chunks (suc (length (info_fields meta))) (info_fields meta) ≡ some (info_metadata meta)
unfolding info_fields info_metadata
riff_chunks-info_fields meta ht ha hl =
    let last = Reads-info_field b'I' b'P' b'R' b'D' meta.album [] [] hl Reads-nil in
    Reads-info_field b'I' b'N' b'A' b'M' meta.title _ _ ht
      (Reads-info_field b'I' b'A' b'R' b'T' meta.artist _ _ ha
        (rw (append-nil, append-nil) at last))
      _ (omega arith)

length-info_field_even :
    (a b c d : ℕ) (t : Bytes) → length (info_field (a ∷ b ∷ c ∷ d ∷ []) t) % 2 ≡ 0
unfolding info_field
length-info_field_even a b c d [] = refl
length-info_field_even a b c d (x ∷ t) =
    let size = length-append (t ++ (0 ∷ [])) (padding (suc (length (t ++ (0 ∷ []))))) in
    rw info_subchunk_lem (omega (arith, size, length-padding (suc (length (t ++ (0 ∷ []))))))

pub length-info_fields_even : (meta : Metadata) → length (info_fields meta) % 2 ≡ 0
unfolding info_fields
length-info_fields_even meta =
    let title = info_field (text "INAM") meta.title in
    let artist = info_field (text "IART") meta.artist in
    let album = info_field (text "IPRD") meta.album in
    omega (
      arith,
      length-append title (artist ++ album),
      length-append artist album,
      length-info_field_even b'I' b'N' b'A' b'M' meta.title,
      length-info_field_even b'I' b'A' b'R' b'T' meta.artist,
      length-info_field_even b'I' b'P' b'R' b'D' meta.album,
    )
