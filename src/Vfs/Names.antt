-- ===== src/Vfs/Names.antt =====
-- internal/vfs/vfs.go: `cleanTag`, `sanitizeFilename` and `mostCommon`, on the bytes of a string.
pub mod Sanitized
pub mod Tidy
pub mod MostCommon
mod Tests
use chipfs.Base.{
  ℕ, zero, suc, ◌+◌, List, [], ◌∷◌, ◌++◌, Bool, true, false, not, ◌&&◌, ◌||◌, ◌==◌, ltb, leb,
  if◌then◌else◌, length, get_or, take, drop, Bytes, text, trim_space,
}
use chipfs.Formats.{equal}

-- `cleanTag`
unfoldable pub clean_tag : Bytes → Bytes
clean_tag s = let t = trim_space s in if equal t (text "?") || equal t (text "<?>") then [] else t

-- A Go `range` over a string decodes UTF-8: the width of the character at the front, or 0 for
-- bytes that are no UTF-8.
abbrev pub within : ℕ → ℕ → ℕ → Bool
within lo hi b = leb lo b && leb b hi

unfoldable pub rune_width : Bytes → ℕ
rune_width [] = 0
rune_width (a ∷ s) =
    let b = get_or s 0 0 in
    let c = get_or s 1 0 in
    let d = get_or s 2 0 in
    if ltb a 128
    then 1
    else if within 194 223 a && within 128 191 b
    then 2
    else if within 224 239 a
        && (within (if a == 224 then 160 else 128) (if a == 237 then 159 else 191) b
            && within 128 191 c)
    then 3
    else if within 240 244 a
        && (within (if a == 240 then 144 else 128) (if a == 244 then 143 else 191) b
            && (within 128 191 c && within 128 191 d))
    then 4
    else 0

-- The characters that `sanitizeFilename` replaces
abbrev pub is_replaced : ℕ → Bool
is_replaced r = (r == 47 || r == 58) || (ltb r 32 || r == 127)

-- U+FFFD, which a `range` gives for a byte that is no UTF-8
abbrev pub rune_error : Bytes
rune_error = 239 ∷ 191 ∷ 189 ∷ []

-- What one round writes, given the width of the character at the front
abbrev pub written : ℕ → Bytes → Bytes
written zero s = rune_error
written (suc zero) [] = []
written (suc zero) (a ∷ s) = (if is_replaced a then 95 else a) ∷ []
written (suc (suc n)) s = take (suc (suc n)) s

abbrev pub skipped : ℕ → ℕ
skipped zero = 1
skipped (suc n) = suc n

-- The loop of `sanitizeFilename`, on fuel: a round takes a byte at least.
unfoldable pub sanitize_loop : ℕ → Bytes → Bytes
sanitize_loop zero s = []
sanitize_loop (suc fuel) [] = []
sanitize_loop (suc fuel) (a ∷ s) =
    let n = rune_width (a ∷ s) in written n (a ∷ s) ++ sanitize_loop fuel (drop (skipped n) (a ∷ s))

-- `sanitizeFilename`
unfoldable pub sanitize_filename : Bytes → Bytes
sanitize_filename s =
    let result = trim_space (sanitize_loop (length s) s) in
    if equal result (text ".") || equal result (text "..") then text "_" else result

-- `counts[v]`, over the values seen so far
unfoldable pub count : Bytes → List Bytes → ℕ
count v [] = 0
count v (w ∷ seen) = if equal w v then suc (count v seen) else count v seen

-- `v < best` on strings
unfoldable pub less : Bytes → Bytes → Bool
less s [] = false
less [] (b ∷ t) = true
less (a ∷ s) (b ∷ t) = ltb a b || (a == b && less s t)

-- The loop of `mostCommon`: the values counted so far, and the best of them
unfoldable pub most_common_loop : List Bytes → Bytes → List Bytes → Bytes
most_common_loop seen best [] = best
most_common_loop seen best (v ∷ values) =
    let seen' : List Bytes = v ∷ seen in
    let better : Bool =
      ltb (count best seen') (count v seen')
      || (count v seen' == count best seen' && less v best) in
    let skip : Bytes = most_common_loop seen best values in
    let next : Bytes = most_common_loop seen' (if better then v else best) values in
    elim v [ [] ↦ skip | _ ∷ _ ↦ next ]

-- `mostCommon`
unfoldable pub most_common : List Bytes → Bytes
most_common values = most_common_loop [] [] values
