-- ===== src/Wav/Layout.antt =====
-- What the buffers of internal/wav/muxer.go hold once they are written: frames, chunks and the
-- header in plain form, with no buffer and no offset left.
use chipfs.Base.{
  ℕ, zero, suc, ◌+◌, ◌-◌, ◌*◌, ◌%◌, ◌/◌, ◌<◌, ◌≡◌, refl, sym, ap, ◌∙◌, List, [], ◌∷◌, ◌++◌, ◌==◌,
  if◌then◌else◌, length, replicate, Bytes, text, copy_at, overwrite, uint16, uint32, le16, le32,
  arith, length-append, inl, inr, Bool-cases,
}
use mathlib.Core.List.{append_assoc, append-nil}
use chipfs.Wav.{
  Metadata, Options, padded_size, text_frame, id3_frames, build_id3v2, info_subchunk, list_chunk,
  build_list_info, header, pcm,
}

-- The four bytes of an ID3v2 size.
abbrev pub syncsafe_bytes : ℕ → Bytes
syncsafe_bytes n = (n / 2097152 % 128) ∷ (n / 16384 % 128) ∷ (n / 128 % 128) ∷ (n % 128) ∷ []

-- The pad byte of a RIFF chunk.
abbrev pub padding : ℕ → Bytes
padding n = if n % 2 == 1 then 0 ∷ [] else []

-- A RIFF chunk: its id, its size, the payload, and a pad byte that the size does not count.
abbrev pub chunk : Bytes → Bytes → Bytes
chunk id payload = id ++ (le32 (uint32 (length payload)) ++ (payload ++ padding (length payload)))

overwrite-replicate : (n : ℕ) (src : Bytes) → length src ≡ n → overwrite (replicate n 0) src ≡ src
unfolding overwrite
overwrite-replicate zero [] h = refl
overwrite-replicate (suc n) [] h = absurd (omega arith)
overwrite-replicate zero (s ∷ src) h = absurd (omega arith)
overwrite-replicate (suc n) (s ∷ src) h = ap (◌∷◌ s) (overwrite-replicate n src (omega arith))

pub text_frame_lem :
    (a b c d : ℕ) (t : Bytes)
    → 0 < length t
    → text_frame (a ∷ b ∷ c ∷ d ∷ []) t
      ≡ a ∷ b ∷ c ∷ d ∷ (syncsafe_bytes (suc (length t)) ++ (0 ∷ 0 ∷ 3 ∷ t))
unfolding text_frame
text_frame_lem a b c d [] h = absurd (omega arith)
text_frame_lem a b c d (x ∷ t) h =
    let n : ℕ = suc (length t) in
    let e : 11 + n ≡ suc (suc (suc (suc (suc (suc (suc (suc (suc (suc (suc n)))))))))) =
      omega arith in
    let one : 1 + n ≡ suc n = omega arith in
    rw (e, one, overwrite-replicate (suc (length t)) (x ∷ t) refl) refl

pub build_id3v2_lem :
    (meta : Metadata)
    → build_id3v2 meta
      ≡ b'I'
        ∷ b'D'
        ∷ b'3'
        ∷ 4
        ∷ 0
        ∷ 0
        ∷ (syncsafe_bytes (length (id3_frames meta)) ++ id3_frames meta)
unfolding build_id3v2
build_id3v2_lem meta = refl

overwrite-replicate_more :
    (n k : ℕ) (src : Bytes)
    → n ≡ length src + k
    → overwrite (replicate n 0) src ≡ src ++ replicate k 0
unfolding overwrite
overwrite-replicate_more zero zero [] h = refl
overwrite-replicate_more (suc n) (suc k) [] h =
    ap (λ m. replicate m 0) {x = suc n} {y = suc k} (omega arith)
overwrite-replicate_more zero (suc k) [] h = absurd (omega arith)
overwrite-replicate_more (suc n) zero [] h = absurd (omega arith)
overwrite-replicate_more zero k (s ∷ src) h = absurd (omega arith)
overwrite-replicate_more (suc n) k (s ∷ src) h =
    ap (◌∷◌ s) (overwrite-replicate_more n k src (omega arith))

pub padding_even : (n : ℕ) → n % 2 ≡ 0 → padding n ≡ []
padding_even n h = ground arith

add_eight : (n : ℕ) → 8 + n ≡ suc (suc (suc (suc (suc (suc (suc (suc n)))))))
add_eight n = omega arith

list_tail :
    (sub : Bytes)
    → length sub % 2 ≡ 0
    → text "LIST" ++ (le32 (uint32 (4 + length sub)) ++ (text "INFO" ++ sub))
      ≡ chunk (text "LIST") (text "INFO" ++ sub)
list_tail sub h =
    let four : 4 + length sub ≡ suc (suc (suc (suc (length sub)))) = omega arith in
    rw (four, padding_even (suc (suc (suc (suc (length sub))))) (omega arith), append-nil) refl

-- The text, its terminator and the pad byte, in a buffer of zeros.
zero_tail :
    (t : Bytes)
    → overwrite (replicate (padded_size (length t + 1)) 0) t
      ≡ (t ++ (0 ∷ [])) ++ padding (length t + 1)
unfolding padded_size
zero_tail t = elim (Bool-cases ((length t + 1) % 2 == 0)) [
  | inl even ↦
      rw (even, padding_even (length t + 1) (ground arith), append-nil)
        (overwrite-replicate_more (length t + 1) 1 t refl)
  | inr odd ↦
      let pad : padding (length t + 1) ≡ 0 ∷ [] = ground arith in
      rw (odd, pad, append_assoc) (overwrite-replicate_more (length t + 1 + 1) 2 t (omega arith))
]

pub list_chunk_lem :
    (sub : Bytes) → length sub % 2 ≡ 0 → list_chunk sub ≡ chunk (text "LIST") (text "INFO" ++ sub)
unfolding list_chunk
list_chunk_lem sub h =
    let e : 12 + length sub
        ≡ suc (suc (suc (suc (suc (suc (suc (suc (suc (suc (suc (suc (length sub)))))))))))) =
      omega arith in
    let size = le32 (uint32 (4 + length sub)) in
    let filled =
      ap
        (λ (n : ℕ).
          copy_at
            (copy_at (copy_at (copy_at (replicate n 0) 0 (text "LIST")) 4 size) 8 (text "INFO")) 12
            sub)
        e in
    let body =
      ap (λ (z : Bytes). text "LIST" ++ (size ++ (text "INFO" ++ z)))
        (overwrite-replicate (length sub) sub refl) in
    filled ∙ body ∙ list_tail sub h

pub info_subchunk_lem :
    (a b c d : ℕ) (t : Bytes)
    → info_subchunk (a ∷ b ∷ c ∷ d ∷ []) t ≡ chunk (a ∷ b ∷ c ∷ d ∷ []) (t ++ (0 ∷ []))
unfolding info_subchunk
info_subchunk_lem a b c d t =
    let id : Bytes = a ∷ b ∷ c ∷ d ∷ [] in
    let size = le32 (uint32 (length t + 1)) in
    let filled =
      ap (λ (n : ℕ). copy_at (copy_at (copy_at (replicate n 0) 0 id) 4 size) 8 t)
        (add_eight (padded_size (length t + 1))) in
    let body = ap (λ (z : Bytes). id ++ (size ++ z)) (zero_tail t) in
    filled
    ∙ body
    ∙ ap (λ (n : ℕ). id ++ (le32 (uint32 n) ++ ((t ++ (0 ∷ [])) ++ padding n)))
        (sym (length-append t (0 ∷ [])))

-- The sixteen bytes of the "fmt " chunk.
abbrev pub fmt_payload : Options → Bytes
fmt_payload opts =
    le16 1
    ++ (le16 (uint16 opts.channels)
        ++ (le32 (uint32 opts.sample_rate)
            ++ (le32 (uint32 (opts.sample_rate * opts.channels * 2))
                ++ (le16 (uint16 (opts.channels * 2)) ++ le16 16))))

-- The header behind its eight RIFF bytes.
unfoldable pub body : ℕ → Options → Bytes
body pcm_bytes opts =
    text "WAVE"
    ++ (chunk (text "fmt ") (fmt_payload opts)
        ++ (chunk (text "id3 ") (build_id3v2 opts.metadata)
            ++ (build_list_info opts.metadata ++ (text "data" ++ le32 (uint32 pcm_bytes)))))

pub header_lem :
    (pcm_bytes : ℕ) (opts : Options)
    → header pcm_bytes opts
      ≡ text "RIFF"
        ++ (le32 (uint32 (length (body pcm_bytes opts) + pcm_bytes)) ++ body pcm_bytes opts)
unfolding header body
header_lem p opts =
    let id3 = build_id3v2 opts.metadata in
    let info = build_list_info opts.metadata in
    let ending : Bytes = text "data" ++ le32 (uint32 p) in
    let front = λ (z : Bytes).
      text "WAVE"
      ++ (text "fmt "
          ++ (le32 16
              ++ (fmt_payload opts ++ (text "id3 " ++ (le32 (uint32 (length id3)) ++ z))))) in
    let flat = front (id3 ++ (padding (length id3) ++ (info ++ ending))) in
    let eight : suc (suc (suc (suc (suc (suc (suc (suc (length flat)))))))) - 8 ≡ length flat =
      omega arith in
    ap (λ (n : ℕ). text "RIFF" ++ (le32 (uint32 (n + p)) ++ flat)) eight
    ∙ ap (λ (z : Bytes). text "RIFF" ++ (le32 (uint32 (length z + p)) ++ z))
        (ap front (sym (append_assoc id3 (padding (length id3)) (info ++ ending))))

pub length-pcm : (samples : List ℕ) → length (pcm samples) ≡ length samples * 2
unfolding pcm
length-pcm [] = refl
length-pcm (s ∷ samples) = omega (arith, length-pcm samples)
