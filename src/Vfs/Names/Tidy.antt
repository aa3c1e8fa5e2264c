-- ===== src/Vfs/Names/Tidy.antt =====
-- Texts that `cleanTag` and `sanitizeFilename` of internal/vfs/vfs.go leave as they are.
use chipfs.Base.{
  ◌<◌, ◌≡◌, ◌≢◌, refl, [], ◌∷◌, ◌++◌, inl, inr, Bool-cases, false, length, All, Bytes, text,
  reverse_bytes, trim_space_ends, Begins, arith,
}
use mathlib.Core.Path.{ap₂}
use chipfs.Formats.{equal}
use chipfs.Formats.Slices.{equal_sound}
use chipfs.Vfs.Names.{clean_tag, written, sanitize_loop, sanitize_filename}
use chipfs.Vfs.Names.Sanitized.{IsPlain, rune_width_ascii}

-- No space at either end, and no placeholder for a text that is not known.
pub record IsTidy (s : Bytes) : Type 0 where
  pub front : Begins s
  pub back : Begins (reverse_bytes s)
  pub known : s ≢ text "?"
  pub known_nsfe : s ≢ text "<?>"

unequal : (s t : Bytes) → s ≢ t → equal s t ≡ false
unequal s t h = elim (Bool-cases (equal s t)) [
  | inl same ↦ absurd (h (equal_sound s t same))
  | inr other ↦ other
]

pub clean_tag-IsTidy : (s : Bytes) → IsTidy s → clean_tag s ≡ s
unfolding clean_tag
clean_tag-IsTidy s h =
    rw
      (
        trim_space_ends s h.front h.back,
        unequal s (text "?") h.known,
        unequal s (text "<?>") h.known_nsfe,
      )
      refl

-- A text that is a file name as it stands: tidy, in ASCII, with no separator, colon or control
-- character, and no name of a directory.
pub record IsName (s : Bytes) : Type 0 where
  pub tidy : IsTidy s
  pub some_text : s ≢ []
  pub ascii : All (λ b. b < 128) s
  pub plain : All IsPlain s
  pub not_dot : s ≢ text "."
  pub not_dots : s ≢ text ".."

sanitize_loop-plain :
    (s : Bytes) → All (λ b. b < 128) s → All IsPlain s → sanitize_loop (length s) s ≡ s
unfolding sanitize_loop
sanitize_loop-plain [] low h = refl
sanitize_loop-plain (b ∷ s) low h =
    let kept : written 1 (b ∷ s) ≡ b ∷ [] = ground (arith, h.0) in
    rw (rune_width_ascii b s low.0)
      (ap₂ (λ (x y : Bytes). x ++ y) kept (sanitize_loop-plain s low.1 h.1))

pub sanitize_filename-IsName : (s : Bytes) → IsName s → sanitize_filename s ≡ s
unfolding sanitize_filename
sanitize_filename-IsName s h =
    rw
      (
        sanitize_loop-plain s h.ascii h.plain,
        trim_space_ends s h.tidy.front h.tidy.back,
        unequal s (text ".") h.not_dot,
        unequal s (text "..") h.not_dots,
      )
      refl
