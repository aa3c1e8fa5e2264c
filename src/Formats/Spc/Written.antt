-- ===== src/Formats/Spc/Written.antt =====
-- SPC files with an ID666 tag in either form, and the header that they hold.
use chipfs.Base.{
  ℕ, ◌*◌, ◌%◌, ◌≤◌, ◌<◌, ◌≡◌, ◌≢◌, ◌⊎◌, List, [], ◌∷◌, ◌++◌, leb, if◌then◌else◌, length, Bytes, ok,
  itoa, pos,
}
use chipfs.Formats.Parts.{IsNullPadded}
use chipfs.Formats.Spc.{Header, parse}
use chipfs.Formats.Spc.Layout.{Front, Texts, IsFront, spc_file, with_texts}
use chipfs.Formats.Spc.TextTag.{parse-text_tag}
use chipfs.Formats.Spc.BinaryTag.{IsArtist, binary_durations, parse-binary_tag}

-- The file has a tag with these contents.
pub data IsSpc : Bytes → Header → Type 0 where
  text_form :
      {p : Front} {t : Texts} {seconds fade artist name : Bytes} (n m : ℕ) (memory : Bytes)
      → IsFront p t
      → IsNullPadded seconds (itoa n) 3
      → IsNullPadded fade (itoa m) 5
      → IsNullPadded artist name 32
      → 1 ≤ length memory
      → IsSpc (spc_file p (seconds ∷ fade ∷ artist ∷ memory ∷ [])) (record (with_texts t) {
        play_duration_ms = pos (n * 1000);
        fade_duration_ms = pos m;
        artist = name;
      })
  binary_form :
      {p : Front} {t : Texts} {name : Bytes} {parts : List Bytes} (n m : ℕ)
      → IsFront p t
      → n < 16777216
      → m < 4294967296
      → p.separator ≢ 47
      → (n % 256 < 48) ⊎ (57 < n % 256)
      → IsArtist name parts
      → IsSpc (spc_file p (binary_durations n m ++ parts)) (record (with_texts t) {
        play_duration_ms = if leb n 8191 then pos (n * 1000) else pos 0;
        fade_duration_ms = if leb m 99999 then pos m else pos 0;
        artist = name;
      })

pub parse-IsSpc : {bytes : Bytes} {h : Header} → IsSpc bytes h → parse bytes ≡ ok h
parse-IsSpc (text_form n m memory front h1 h2 h3 long) =
    parse-text_tag front n m memory h1 h2 h3 long
parse-IsSpc (binary_form n m front hn hm no_slash no_digit made) =
    parse-binary_tag front n m hn hm no_slash no_digit made
