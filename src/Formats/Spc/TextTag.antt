-- ===== src/Formats/Spc/TextTag.antt =====
-- `Parse` of internal/formats/spc/spc.go on the text form of the tag.
use chipfs.Base.{
  ℕ, ◌*◌, ◌≤◌, ◌<◌, ◌≡◌, refl, ap, ◌∙◌, [], ◌∷◌, ◌++◌, length, All, Bytes, ok, itoa, itoa-IsDigit,
  itoa-ne-nil, pos, arith,
}
use chipfs.Formats.{byte_at, slice, null_padded_string}
use chipfs.Formats.Parts.{IsNullPadded, null_padded_string-IsNullPadded}
use chipfs.Formats.Spc.{out_of_range, Header, text_fields, parse_ascii_int, thousand_times, parse}
use chipfs.Formats.Spc.Numbers.{IsDigit, parse_ascii_int-itoa}
use chipfs.Formats.Spc.Layout.{
  Front, Texts, IsFront, with_texts, spc_file, separator_at, parse_full,
}
use chipfs.Formats.Spc.Form.{is_binary_format_text, slice_behind, byte_behind}

first-IsDigit :
    (s rest : Bytes) {field : Bytes}
    → All IsDigit s
    → 0 < length s
    → field ≡ s ++ rest
    → (d : ℕ) × (ds : Bytes) × (field ≡ d ∷ ds) × IsDigit d
first-IsDigit [] rest h k e = absurd (omega arith)
first-IsDigit (d ∷ s) rest h k e = (d, s ++ rest, e, h.0)

text_fields_lem :
    (h : Header) (bytes : Bytes) {seconds fade artist : Bytes}
    → slice out_of_range bytes 169 172 ≡ ok seconds
    → slice out_of_range bytes 172 177 ≡ ok fade
    → slice out_of_range bytes 177 209 ≡ ok artist
    → text_fields h bytes
      ≡ ok (record h {
        play_duration_ms = thousand_times (parse_ascii_int seconds);
        fade_duration_ms = parse_ascii_int fade;
        artist = null_padded_string artist;
      })
unfolding text_fields
text_fields_lem h bytes h1 h2 h3 = rw (h1, h2, h3) refl

module _ {p : Front} {t : Texts} (h : IsFront p t) (n m : ℕ) (memory : Bytes) where
  -- The text form: `Parse` recovers the texts, and the durations from their decimal digits, the
  -- seconds as milliseconds.
  pub parse-text_tag :
      {seconds fade artist name : Bytes}
      → IsNullPadded seconds (itoa n) 3
      → IsNullPadded fade (itoa m) 5
      → IsNullPadded artist name 32
      → 1 ≤ length memory
      → parse (spc_file p (seconds ∷ fade ∷ artist ∷ memory ∷ []))
        ≡ ok (record (with_texts t) {
          play_duration_ms = pos (n * 1000);
          fade_duration_ms = pos m;
          artist = name;
        })
  parse-text_tag {seconds} {fade} {artist} {name} h1 h2 h3 long =
      let rest = seconds ∷ fade ∷ artist ∷ memory ∷ [] in
      let (d, ds, same, digit) =
        first-IsDigit (itoa n) _ (itoa-IsDigit n) (itoa-ne-nil n) h1.layout in
      let first : byte_at out_of_range (spc_file p rest) 169 ≡ ok d =
        ap (λ (z : Bytes). byte_at out_of_range (spc_file p (z ∷ fade ∷ artist ∷ memory ∷ [])) 169)
          same
        ∙ byte_behind h [] d ds (fade ∷ artist ∷ memory ∷ []) 169 refl in
      let fields =
        text_fields_lem (with_texts t) (spc_file p rest)
          (slice_behind h [] seconds (fade ∷ artist ∷ memory ∷ []) 169 172 refl
            (omega (arith, h1.size)))
          (slice_behind h (seconds ∷ []) fade (artist ∷ memory ∷ []) 172 177
            (omega (arith, h1.size)) (omega (arith, h2.size)))
          (slice_behind h (seconds ∷ fade ∷ []) artist (memory ∷ []) 177 209
            (omega (arith, h1.size, h2.size)) (omega (arith, h3.size))) in
      parse_full h rest (omega (arith, h1.size, h2.size, h3.size, long))
      ∙ rw
          (
            is_binary_format_text (spc_file p rest) (separator_at h rest) first digit,
            fields,
            parse_ascii_int-itoa n h1,
            parse_ascii_int-itoa m h2,
            null_padded_string-IsNullPadded h3,
          )
          refl
