-- ===== src/Vfs/Names/Sanitized.antt =====
-- `sanitizeFilename` of internal/vfs/vfs.go: the names of track files are safe.
use chipfs.Base.{
  ℕ, zero, suc, ◌≤◌, ◌<◌, ◌≡◌, ◌≢◌, refl, ◌⊎◌, inl, inr, [], ◌∷◌, true, ◌||◌, ltb, Bool-cases,
  if◌then◌else◌, length, get_or, take, drop, All, All-append, Bytes, text, trim_space,
  trim_space-All, arith,
}
use chipfs.Formats.{equal}
use chipfs.Vfs.Names.{rune_width, written, skipped, sanitize_loop, sanitize_filename}

-- No separator, no colon, no control character.
abbrev pub IsPlain : ℕ → Type 0
IsPlain b = (32 ≤ b) × (b ≢ 47) × (b ≢ 58) × (b ≢ 127)

rune_width-IsPlain : (a : ℕ) (s : Bytes) → 128 ≤ a → All IsPlain (take (rune_width (a ∷ s)) (a ∷ s))
unfolding rune_width
rune_width-IsPlain a [] h = ground arith
rune_width-IsPlain a (b ∷ []) h = ground arith
rune_width-IsPlain a (b ∷ c ∷ []) h = ground arith
rune_width-IsPlain a (b ∷ c ∷ d ∷ s) h = ground arith

pub rune_width_ascii : (a : ℕ) (s : Bytes) → a < 128 → rune_width (a ∷ s) ≡ 1
unfolding rune_width
rune_width_ascii a s h = ground arith

written_ascii : (a : ℕ) (s : Bytes) → a < 128 → All IsPlain (written 1 (a ∷ s))
written_ascii a s h = ground arith

written_wide :
    (n : ℕ) (s : Bytes) → 128 ≤ get_or s 0 0 → All IsPlain (take n s) → All IsPlain (written n s)
written_wide zero s h k = ground arith
written_wide (suc zero) [] h k = tt
written_wide (suc zero) (a ∷ s) h k = ground arith
written_wide (suc (suc n)) s h k = k

written-IsPlain : (a : ℕ) (s : Bytes) → All IsPlain (written (rune_width (a ∷ s)) (a ∷ s))
written-IsPlain a s = elim (Bool-cases (ltb a 128)) [
  | inl low ↦ rw (rune_width_ascii a s (ground arith)) (written_ascii a s (ground arith))
  | inr high ↦
      written_wide (rune_width (a ∷ s)) (a ∷ s) (ground arith)
        (rune_width-IsPlain a s (ground arith))
]

sanitize_loop-IsPlain : (fuel : ℕ) (s : Bytes) → All IsPlain (sanitize_loop fuel s)
unfolding sanitize_loop
sanitize_loop-IsPlain zero s = tt
sanitize_loop-IsPlain (suc fuel) [] = tt
sanitize_loop-IsPlain (suc fuel) (a ∷ s) =
    All-append IsPlain (written (rune_width (a ∷ s)) (a ∷ s)) _ (written-IsPlain a s)
      (sanitize_loop-IsPlain fuel (drop (skipped (rune_width (a ∷ s))) (a ∷ s)))

-- The end of `sanitizeFilename`.
abbrev without_dots : Bytes → Bytes
without_dots result =
    if equal result (text ".") || equal result (text "..") then text "_" else result

is_dots :
    (result : Bytes)
    → (result ≡ text ".") ⊎ (result ≡ text "..")
    → (equal result (text ".") || equal result (text "..")) ≡ true
unfolding equal
is_dots result (inl e) = rw e refl
is_dots result (inr e) = rw e refl

without_dots-IsPlain :
    (result : Bytes)
    → All IsPlain result
    → All IsPlain (without_dots result)
      × (without_dots result ≢ text ".")
      × (without_dots result ≢ text "..")
without_dots-IsPlain result h =
    elim (Bool-cases (equal result (text ".") || equal result (text ".."))) [
      | inl dots ↦ rw dots (ground arith, λ e. cc, λ e. cc)
      | inr fine ↦
          rw fine
            (h, λ e. cc (is_dots result (inl e), fine), λ e. cc (is_dots result (inr e), fine))
    ]

-- Whatever the tag holds, a sanitized name holds no separator, colon or control character, and is
-- neither the directory itself nor its parent.
pub sanitize_filename-IsPlain :
    (s : Bytes)
    → All IsPlain (sanitize_filename s)
      × (sanitize_filename s ≢ text ".")
      × (sanitize_filename s ≢ text "..")
unfolding sanitize_filename
sanitize_filename-IsPlain s =
    without_dots-IsPlain (trim_space (sanitize_loop (length s) s))
      (trim_space-All IsPlain (sanitize_loop (length s) s) (sanitize_loop-IsPlain (length s) s))
