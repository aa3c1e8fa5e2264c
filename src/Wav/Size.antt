-- ===== src/Wav/Size.antt =====
-- The size that internal/wav/muxer.go promises before a track is rendered.
use chipfs.Base.{
  ℕ, ◌+◌, ◌*◌, ◌%◌, ◌≡◌, refl, sym, ap, ◌∙◌, List, ◌++◌, length, Bytes, arith, length-append,
  uint32, le32, text,
}
use chipfs.Wav.{
  Options, build_id3v2, build_list_info, header, pcm, encode, header_bytes, estimated_size,
  sample_count,
}
use chipfs.Wav.Layout.{padding, body, header_lem, length-pcm}
use chipfs.Wav.Reader.{length-padding}

pub encode_parts :
    (samples : List ℕ) (opts : Options)
    → encode samples opts ≡ header (length samples * 2) opts ++ pcm samples
unfolding encode
encode_parts samples opts = refl

pub header_bytes_lem :
    (duration_ms : ℕ) (opts : Options)
    → header_bytes duration_ms opts ≡ header (sample_count duration_ms opts * 2) opts
unfolding header_bytes
header_bytes_lem duration_ms opts = refl

-- For every rate, channel count and metadata: the file that `Encode` makes of exactly as many
-- samples as `SampleCount` gives for a duration has the length that `EstimatedSize` gives for that
-- duration, and it begins with the bytes of `HeaderBytes`, behind which only the samples follow.
pub encode_promise :
    (duration_ms : ℕ) (samples : List ℕ) (opts : Options)
    → length samples ≡ sample_count duration_ms opts
    → (length (encode samples opts) ≡ estimated_size duration_ms opts)
      × (encode samples opts ≡ header_bytes duration_ms opts ++ pcm samples)
encode_promise duration_ms samples opts h =
    let same : header (length samples * 2) opts ≡ header_bytes duration_ms opts =
      ap (λ (n : ℕ). header (n * 2) opts) h ∙ sym (header_bytes_lem duration_ms opts) in
    let parts = encode_parts samples opts ∙ ap (λ (z : Bytes). z ++ pcm samples) same in
    (
      omega (
        arith,
        ap length parts,
        length-append (header_bytes duration_ms opts) (pcm samples),
        length-pcm samples,
        estimated_parts,
      ),
      parts,
    )
  where
    estimated_parts :
        estimated_size duration_ms opts
        ≡ length (header_bytes duration_ms opts) + sample_count duration_ms opts * 2
    estimated_parts = unfold estimated_size in refl

-- The length of the header in plain numbers: it depends on the metadata alone, and not on the
-- number of samples, the rate or the channels.
pub length-header :
    (pcm_bytes : ℕ) (opts : Options)
    → length (header pcm_bytes opts)
      ≡ 52
        + length (build_id3v2 opts.metadata)
        + length (build_id3v2 opts.metadata) % 2
        + length (build_list_info opts.metadata)
length-header p opts =
    let tag = build_id3v2 opts.metadata in
    let list = build_list_info opts.metadata in
    let ending : Bytes = text "data" ++ le32 (uint32 p) in
    let size = ap length (header_lem p opts) in
    unfold body in
    omega (
      arith,
      size,
      length-append (tag ++ padding (length tag)) (list ++ ending),
      length-append tag (padding (length tag)),
      length-append list ending,
      length-padding (length tag),
    )
