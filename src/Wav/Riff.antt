-- ===== src/Wav/Riff.antt =====
-- The file of `Encode` in internal/wav/muxer.go, as a RIFF reader finds it.
use chipfs.Base.{
  ℕ, ◌+◌, ◌*◌, ◌/◌, ◌%◌, ◌<◌, ◌≡◌, refl, sym, ap, ◌∙◌, List, All, [], ◌∷◌, ◌++◌, ◌==◌,
  if◌then◌else◌, length, Bytes, text, uint32, le32, arith, length-append, some, true, false, inl,
  inr, Bool-cases,
}
use mathlib.Core.Path.{ap₂, subst}
use mathlib.Core.List.{append_assoc, append-nil}
use chipfs.Wav.{
  Metadata, Options, build_id3v2, info_fields, list_chunk, build_list_info, header, pcm, encode,
}
use chipfs.Wav.Layout.{
  chunk, padding, fmt_payload, body, header_lem, list_chunk_lem, length-pcm, padding_even,
}
use chipfs.Wav.Reader.{read_samples, riff_file, riff_file_lem, Reads, Reads-nil, Reads-chunk}
use chipfs.Wav.Tags.{length-info_fields_even}

-- The "LIST" chunk, which is left out where the metadata has none of its texts.
abbrev pub list_chunks : Metadata → List (Bytes × Bytes)
list_chunks meta =
    if length (info_fields meta) == 0
    then []
    else (text "LIST", text "INFO" ++ info_fields meta) ∷ []

-- Everything behind "WAVE".
abbrev pub wave_chunks : Bytes → Options → Bytes
wave_chunks samples_bytes opts =
    chunk (text "fmt ") (fmt_payload opts)
    ++ (chunk (text "id3 ") (build_id3v2 opts.metadata)
        ++ (build_list_info opts.metadata ++ chunk (text "data") samples_bytes))

data_chunk_lem :
    (samples : List ℕ)
    → text "data" ++ (le32 (uint32 (length samples * 2)) ++ pcm samples)
      ≡ chunk (text "data") (pcm samples)
data_chunk_lem samples =
    let even : length (pcm samples) % 2 ≡ 0 = omega (arith, length-pcm samples) in
    let plain : pcm samples ++ padding (length (pcm samples)) ≡ pcm samples =
      rw (padding_even (length (pcm samples)) even) (append-nil _) in
    ap₂ (λ (n : ℕ) (z : Bytes). text "data" ++ (le32 (uint32 n) ++ z)) (sym (length-pcm samples))
      (sym plain)

body-pcm :
    (samples : List ℕ) (opts : Options)
    → body (length samples * 2) opts ++ pcm samples ≡ text "WAVE" ++ wave_chunks (pcm samples) opts
unfolding body
body-pcm samples opts =
    let tag = build_id3v2 opts.metadata in
    let list = build_list_info opts.metadata in
    let ending : Bytes = text "data" ++ le32 (uint32 (length samples * 2)) in
    let front = λ (z : Bytes).
      text "WAVE"
      ++ (chunk (text "fmt ") (fmt_payload opts)
          ++ (text "id3 " ++ (le32 (uint32 (length tag)) ++ z))) in
    ap front (
      append_assoc (tag ++ padding (length tag)) (list ++ ending) (pcm samples)
      ∙ ap (λ (z : Bytes). (tag ++ padding (length tag)) ++ z)
          (append_assoc list ending (pcm samples)
            ∙ ap (λ (z : Bytes). list ++ z) (data_chunk_lem samples)))

encode_lem :
    (samples : List ℕ) (opts : Options)
    → let rest = wave_chunks (pcm samples) opts in
      encode samples opts
      ≡ text "RIFF" ++ (le32 (uint32 (4 + length rest)) ++ (text "WAVE" ++ rest))
encode_lem samples opts =
    let n : ℕ = length samples * 2 in
    let parts : encode samples opts ≡ header n opts ++ pcm samples = unfold encode in refl in
    let joined = body-pcm samples opts in
    let size : length (body n opts) + n ≡ 4 + length (wave_chunks (pcm samples) opts) =
      omega
        (arith, ap length joined, length-append (body n opts) (pcm samples), length-pcm samples) in
    parts
    ∙ ap (λ (z : Bytes). z ++ pcm samples) (header_lem n opts)
    ∙ ap₂ (λ (m : ℕ) (z : Bytes). text "RIFF" ++ (le32 (uint32 m) ++ z)) size joined

list_chunk_of_present :
    (meta : Metadata)
    → length (info_fields meta) == 0 ≡ false
    → build_list_info meta ≡ chunk (text "LIST") (text "INFO" ++ info_fields meta)
list_chunk_of_present meta present =
    let open_list : build_list_info meta ≡ list_chunk (info_fields meta) =
      unfold build_list_info in rw present refl in
    open_list ∙ list_chunk_lem (info_fields meta) (length-info_fields_even meta)

list_info_of_empty :
    (meta : Metadata) → length (info_fields meta) == 0 ≡ true → build_list_info meta ≡ []
list_info_of_empty meta empty = unfold build_list_info in rw empty refl

Reads-list_info :
    (meta : Metadata) (rest : Bytes) (cs : List (Bytes × Bytes))
    → length (build_list_info meta) < 4294967296
    → Reads rest cs
    → Reads (build_list_info meta ++ rest) (list_chunks meta ++ cs)
Reads-list_info meta rest cs h read = elim (Bool-cases (length (info_fields meta) == 0)) [
  | inl empty ↦ rw (list_info_of_empty meta empty, empty) read
  | inr present ↦
      let plain = list_chunk_of_present meta present in
      rw (plain, present)
        (Reads-chunk b'L' b'I' b'S' b'T' (text "INFO" ++ info_fields meta) rest cs
          (omega (
            arith,
            ap length plain,
            length-append (info_fields meta) (padding (length (text "INFO" ++ info_fields meta))),
          ))
          read)
]

riff_file-pcm :
    (samples : List ℕ) (opts : Options)
    → length (encode samples opts) < 4294967304
    → riff_file (encode samples opts)
      ≡ some (
          (text "fmt ", fmt_payload opts)
          ∷ (text "id3 ", build_id3v2 opts.metadata)
          ∷ (list_chunks opts.metadata ++ (text "data", pcm samples) ∷ []))
riff_file-pcm samples opts h =
    let plain = encode_lem samples opts in
    let tag = build_id3v2 opts.metadata in
    let list = build_list_info opts.metadata in
    let data_chunk = chunk (text "data") (pcm samples) in
    let size = ap length plain in
    let sum_1 = length-append (tag ++ padding (length tag)) (list ++ data_chunk) in
    let sum_2 = length-append list data_chunk in
    let sum_3 = length-append tag (padding (length tag)) in
    let sum_4 = length-append (pcm samples) (padding (length (pcm samples))) in
    let last =
      subst (λ z. Reads z ((text "data", pcm samples) ∷ [])) (append-nil data_chunk)
        (Reads-chunk b'd' b'a' b't' b'a' (pcm samples) [] []
          (omega (arith, size, sum_1, sum_2, sum_3, sum_4)) Reads-nil) in
    let all : Reads (wave_chunks (pcm samples) opts) _ =
      Reads-chunk b'f' b'm' b't' b' ' (fmt_payload opts) _ _ (omega arith) (
        Reads-chunk b'i' b'd' b'3' b' ' tag _ _ (omega (arith, size, sum_1, sum_2, sum_3))
          (Reads-list_info opts.metadata _ _ (omega (arith, size, sum_1, sum_2)) last)) in
    rw plain
      (riff_file_lem (wave_chunks (pcm samples) opts) (omega (arith, size)) ∙ all _ (omega arith))

read_samples-pcm :
    (samples : List ℕ) → All (λ s. s < 65536) samples → read_samples (pcm samples) ≡ some samples
unfolding read_samples pcm
read_samples-pcm [] h = refl
read_samples-pcm (s ∷ samples) h =
    let same : s % 65536 % 256 + 256 * (s % 65536 / 256 % 256) ≡ s = omega (arith, h.0) in
    rw (same, read_samples-pcm samples h.1) refl

-- A RIFF reader accepts the file that `Encode` makes of 16-bit samples, as long as its size fits
-- the 32-bit size field, and finds in it the "fmt " chunk, the ID3 tag, the INFO list unless it is
-- empty, and last a "data" chunk that a reader of 16-bit PCM decodes to the samples: every size
-- field, the patched RIFF size included, and every pad byte is right.
pub riff_file-encode :
    (samples : List ℕ) (opts : Options)
    → All (λ s. s < 65536) samples
    → length (encode samples opts) < 4294967304
    → (payload : Bytes) × (riff_file (encode samples opts)
        ≡ some (
            (text "fmt ", fmt_payload opts)
            ∷ (text "id3 ", build_id3v2 opts.metadata)
            ∷ (list_chunks opts.metadata ++ (text "data", payload) ∷ [])))
      × (read_samples payload ≡ some samples)
riff_file-encode samples opts small h =
    (pcm samples, riff_file-pcm samples opts h, read_samples-pcm samples small)
