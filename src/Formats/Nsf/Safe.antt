-- ===== src/Formats/Nsf/Safe.antt =====
-- `Parse` of internal/formats/nsf/nsf.go faults on no input, and its loop comes to an end.
use chipfs.Base.{
  ℕ, zero, suc, ◌+◌, ◌-◌, ◌≤◌, ◌<◌, ◌≡◌, ◌≢◌, refl, List, [], ◌∷◌, Bool, true, false, not, ◌&&◌,
  ltb, leb, if◌then◌else◌, length, take, drop, replicate, Bytes, text, read_uint32, ℤ, Result, ok,
  err, ◌>>=◌, arith, length-append, length-replicate, length-drop, length-take,
}
use chipfs.Formats.{equal}
use chipfs.Formats.Slices.{byte_at-total, slice-total}
use chipfs.Formats.Nsf.{
  Error, out_of_range, out_of_fuel, TrackInfo, no_info, Header, split_null_terminated,
  ensure_tracks, set_track, update_track, apply_titles, apply_track_int32s, State, start,
  apply_info, is_any_of, skipped, apply_other, with_header, apply_chunk, uint32_at, chunks, finish,
  parse_nsfe, fields, magic, parse,
}

-- No run-time panic, and no lack of fuel.
module _ {A : Type 0} where
  pub data IsSafe : Result Error A → Type 0 where
    ok_safe : (a : A) → IsSafe (ok a)
    err_safe : (e : Error) → e ≢ out_of_range → e ≢ out_of_fuel → IsSafe (err e)

bind-IsSafe :
    {A B : Type 0} {m : Result Error A} {f : A → Result Error B}
    → IsSafe m
    → ((a : A) → IsSafe (f a))
    → IsSafe (m >>= f)
bind-IsSafe (ok_safe a) next = next a
bind-IsSafe (err_safe e h k) next = err_safe e h k

found-IsSafe :
    {A B : Type 0} {m : Result Error A} (f : A → Result Error B) {a : A}
    → m ≡ ok a
    → IsSafe (f a)
    → IsSafe (m >>= f)
found-IsSafe f e h = rw e h

if-IsSafe :
    {A : Type 0} (b : Bool) {x y : Result Error A}
    → (b ≡ true → IsSafe x)
    → (b ≡ false → IsSafe y)
    → IsSafe (if b then x else y)
if-IsSafe true h k = h refl
if-IsSafe false h k = k refl

length-ensure_tracks : (h : Header) (n : ℕ) → n ≤ length (ensure_tracks h n).tracks
unfolding ensure_tracks
length-ensure_tracks h n =
    let more : length (replicate (n - length h.tracks) no_info) ≡ n - length h.tracks =
      length-replicate (n - length h.tracks) no_info in
    ground (arith, more, length-append h.tracks (replicate (n - length h.tracks) no_info))

set_track-IsSafe :
    (tracks : List TrackInfo) (i : ℕ) (f : TrackInfo → TrackInfo)
    → i < length tracks
    → IsSafe (set_track tracks i f)
unfolding set_track
set_track-IsSafe [] i f h = absurd (omega arith)
set_track-IsSafe (t ∷ tracks) zero f h = ok_safe _
set_track-IsSafe (t ∷ tracks) (suc i) f h =
    bind-IsSafe (set_track-IsSafe tracks i f (omega arith)) (λ tracks'. ok_safe _)

update_track-IsSafe : (h : Header) (i : ℕ) (f : TrackInfo → TrackInfo) → IsSafe (update_track h i f)
unfolding update_track
update_track-IsSafe h i f =
    bind-IsSafe
      (set_track-IsSafe (ensure_tracks h (suc i)).tracks i f
        (omega (arith, length-ensure_tracks h (suc i))))
      (λ tracks. ok_safe _)

apply_titles-IsSafe : (h : Header) (i : ℕ) (titles : List Bytes) → IsSafe (apply_titles h i titles)
unfolding apply_titles
apply_titles-IsSafe h i [] = ok_safe _
apply_titles-IsSafe h i (t ∷ titles) =
    bind-IsSafe (update_track-IsSafe h i _) (λ h'. apply_titles-IsSafe h' (suc i) titles)

apply_track_int32s-IsSafe :
    (h : Header) (i : ℕ) (chunk : Bytes) (set : TrackInfo → ℤ → TrackInfo)
    → IsSafe (apply_track_int32s h i chunk set)
unfolding apply_track_int32s
apply_track_int32s-IsSafe h i (a ∷ b ∷ c ∷ d ∷ chunk) set =
    if-IsSafe (ltb 0 h.track_count && leb h.track_count i) (λ e. ok_safe _)
      (λ e.
        bind-IsSafe (update_track-IsSafe h i _)
          (λ h'. apply_track_int32s-IsSafe h' (suc i) chunk set))
apply_track_int32s-IsSafe h i [] set = ok_safe _
apply_track_int32s-IsSafe h i (a ∷ []) set = ok_safe _
apply_track_int32s-IsSafe h i (a ∷ b ∷ []) set = ok_safe _
apply_track_int32s-IsSafe h i (a ∷ b ∷ c ∷ []) set = ok_safe _

apply_info-IsSafe : (s : State) (chunk : Bytes) → IsSafe (apply_info s chunk)
unfolding apply_info
apply_info-IsSafe s chunk =
    if-IsSafe (ltb (length chunk) 9) (λ e. err_safe _ (λ p. cc) (λ p. cc))
      (λ long.
        let (count, at_8) = byte_at-total out_of_range chunk 8 (ground arith) in
        found-IsSafe _ at_8 (
          bind-IsSafe
            (if-IsSafe (leb 10 (length chunk))
              (λ more.
                let (first, at_9) = byte_at-total out_of_range chunk 9 (ground arith) in
                found-IsSafe _ at_9 (ok_safe _))
              (λ e. ok_safe _))
            (λ first. ok_safe _)))

with_header-IsSafe : (s : State) (r : Result Error Header) → IsSafe r → IsSafe (with_header s r)
with_header-IsSafe s r (ok_safe h) = ok_safe _
with_header-IsSafe s r (err_safe e h k) = err_safe e h k

apply_chunk-IsSafe :
    (s : State) (id chunk : Bytes) → 0 < length id → IsSafe (apply_chunk s id chunk)
unfolding apply_chunk apply_other
apply_chunk-IsSafe s id chunk h =
    if-IsSafe (equal id (text "INFO")) (λ e. apply_info-IsSafe s chunk)
      (λ e.
        if-IsSafe (equal id (text "auth")) (λ e. ok_safe _)
          (λ e.
            if-IsSafe (equal id (text "tlbl"))
              (λ e.
                with_header-IsSafe s _ (
                  apply_titles-IsSafe s.header 0
                    (split_null_terminated chunk s.header.track_count)))
              (λ e.
                if-IsSafe (equal id (text "time"))
                  (λ e. with_header-IsSafe s _ (apply_track_int32s-IsSafe s.header 0 chunk _))
                  (λ e.
                    if-IsSafe (equal id (text "fade"))
                      (λ e. with_header-IsSafe s _ (apply_track_int32s-IsSafe s.header 0 chunk _))
                      (λ e.
                        if-IsSafe (equal id (text "plst")) (λ e. ok_safe _)
                          (λ e.
                            if-IsSafe (is_any_of id skipped) (λ e. ok_safe _)
                              (λ e.
                                let (c, at_0) = byte_at-total out_of_range id 0 h in
                                found-IsSafe _ at_0 (
                                  if-IsSafe (leb 65 c && leb c 90)
                                    (λ e. err_safe _ (λ p. cc) (λ p. cc)) (λ e. ok_safe _)))))))))

uint32_at-total :
    (bytes : Bytes) (i : ℕ) → i + 4 ≤ length bytes → (v : ℕ) × (uint32_at bytes i ≡ ok v)
unfolding uint32_at
uint32_at-total bytes i h =
    let whole = slice-total out_of_range bytes i (length bytes) (omega arith) (omega arith) in
    let rest : Bytes = take (length bytes - i) (drop i bytes) in
    let long : ltb (length rest) 4 ≡ false =
      ground (arith, length-take (length bytes - i) (drop i bytes), length-drop i bytes) in
    (read_uint32 rest, rw (whole, long) refl)

chunks-IsSafe :
    (fuel : ℕ) (bytes : Bytes) (i : ℕ) (s : State)
    → length bytes < fuel + i
    → i ≤ length bytes
    → IsSafe (chunks fuel bytes i s)
unfolding chunks
chunks-IsSafe zero bytes i s h within = absurd (omega arith)
chunks-IsSafe (suc fuel) bytes i s h within =
    if-IsSafe (leb (i + 8) (length bytes))
      (λ room.
        let (size, at_i) = uint32_at-total bytes i (ground arith) in
        let named = slice-total out_of_range bytes (i + 4) (i + 8) (omega arith) (ground arith) in
        let id : Bytes = take (i + 8 - (i + 4)) (drop (i + 4) bytes) in
        found-IsSafe _ at_i (
          found-IsSafe _ named (
            if-IsSafe (equal id (text "NEND")) (λ e. ok_safe _)
              (λ e.
                if-IsSafe (ltb (length bytes) (i + 8 + size)) (λ e. err_safe _ (λ p. cc) (λ p. cc))
                  (λ fits.
                    let body =
                      slice-total out_of_range bytes (i + 8) (i + 8 + size) (omega arith)
                        (ground arith) in
                    found-IsSafe _ body (
                      bind-IsSafe
                        (apply_chunk-IsSafe s id _ (
                          ground (
                            arith,
                            length-take (i + 8 - (i + 4)) (drop (i + 4) bytes),
                            length-drop (i + 4) bytes,
                          )))
                        (λ s'.
                          chunks-IsSafe fuel bytes (i + 8 + size) s' (omega arith)
                            (ground arith))))))))
      (λ e. ok_safe _)

parse_nsfe-IsSafe : (bytes : Bytes) → 4 ≤ length bytes → IsSafe (parse_nsfe bytes)
unfolding parse_nsfe finish
parse_nsfe-IsSafe bytes h =
    bind-IsSafe (chunks-IsSafe (length bytes) bytes 4 start (omega arith) h)
      (λ s. if-IsSafe s.has_info (λ e'. ok_safe _) (λ e'. err_safe _ (λ p. cc) (λ p. cc)))

fields-IsSafe : (bytes : Bytes) → 128 ≤ length bytes → IsSafe (fields bytes)
unfolding fields
fields-IsSafe bytes h =
    let (count, at_6) = byte_at-total out_of_range bytes 6 (omega arith) in
    let (first, at_7) = byte_at-total out_of_range bytes 7 (omega arith) in
    found-IsSafe _ at_6 (
      found-IsSafe _ at_7 (
        found-IsSafe _ (slice-total out_of_range bytes 14 46 (omega arith) (omega arith)) (
          found-IsSafe _ (slice-total out_of_range bytes 46 78 (omega arith) (omega arith)) (
            found-IsSafe _ (slice-total out_of_range bytes 78 110 (omega arith) (omega arith))
              (ok_safe _)))))

-- `Parse` panics on no input, neither in the header nor in a chunk, and its loop never runs out
-- of fuel: whatever the bytes are, the result is a header or one of the errors of the source.
pub parse-IsSafe : (bytes : Bytes) → IsSafe (parse bytes)
unfolding parse
parse-IsSafe bytes =
    if-IsSafe (ltb (length bytes) 4) (λ e. err_safe _ (λ p. cc) (λ p. cc))
      (λ long. found-IsSafe _ (slice-total out_of_range bytes 0 4 (omega arith) (ground arith)) (
        if-IsSafe (equal (take 4 bytes) (text "NSFE")) (λ e. parse_nsfe-IsSafe bytes (ground arith))
          (λ e.
            if-IsSafe (ltb (length bytes) 5) (λ e. err_safe _ (λ p. cc) (λ p. cc))
              (λ longer.
                found-IsSafe _ (slice-total out_of_range bytes 0 5 (omega arith) (ground arith)) (
                  if-IsSafe (not (equal (take 5 bytes) magic)) (λ e. err_safe _ (λ p. cc) (λ p. cc))
                    (λ e.
                      if-IsSafe (ltb (length bytes) 128) (λ e. err_safe _ (λ p. cc) (λ p. cc))
                        (λ full. fields-IsSafe bytes (ground arith))))))))
