-- ===== src/Wav/Reader.antt =====
-- A reader of RIFF files, of ID3v2.4 tags and of INFO lists, written from the formats and not from
-- internal/wav/muxer.go: what a media scanner makes of the muxer's bytes.
use chipfs.Base.{
  ℕ, zero, suc, ◌+◌, ◌*◌, ◌%◌, ◌≤◌, ◌<◌, ◌≡◌, refl, ◌∙◌, List, [], ◌∷◌, ◌++◌, ◌==◌, leb, le→leb,
  ◌&&◌, if◌then◌else◌, length, take, drop, Bytes, text, uint32, le32, read_uint32, arith,
  length-append, take-length_append, drop-length_append, Option, none, some,
}
use mathlib.Core.Option
use mathlib.Core.Path.{ap₂}
use mathlib.Core.List.{append_assoc}
use chipfs.Wav.Layout.{chunk, padding, syncsafe_bytes}

-- The chunks of a RIFF form: a four-byte id, a size, the payload, and a pad byte behind a payload
-- of odd size. `none` is a malformed file. A chunk takes eight bytes or more, so one unit of fuel
-- for each byte and one more are enough.
unfoldable pub riff_chunks : ℕ → Bytes → Option (List (Bytes × Bytes))
riff_chunks zero bs = none
riff_chunks (suc fuel) [] = some []
riff_chunks (suc fuel) (a ∷ b ∷ c ∷ d ∷ w ∷ x ∷ y ∷ z ∷ rest) =
    let n : ℕ = read_uint32 (w ∷ x ∷ y ∷ z ∷ []) in
    let others : Option (List (Bytes × Bytes)) = riff_chunks fuel (drop (n + n % 2) rest) in
    if leb n (length rest)
    then Option.map (λ cs. (a ∷ b ∷ c ∷ d ∷ [], take n rest) ∷ cs) others
    else none
riff_chunks (suc fuel) bs = none

-- A RIFF file of form "WAVE" whose size field counts everything behind it.
unfoldable pub riff_file : Bytes → Option (List (Bytes × Bytes))
unfolding riff_chunks
riff_file (r ∷ i ∷ f ∷ f' ∷ s ∷ t ∷ u ∷ v ∷ w ∷ a ∷ v' ∷ e ∷ rest) =
    if r == b'R'
      && i == b'I'
      && f == b'F'
      && f' == b'F'
      && w == b'W'
      && a == b'A'
      && v' == b'V'
      && e == b'E'
      && read_uint32 (s ∷ t ∷ u ∷ v ∷ []) == 4 + length rest
    then riff_chunks (suc (length rest)) rest
    else none
riff_file bs = none

-- The samples of 16-bit PCM: two bytes each, the low one first. `none` is half a sample.
unfoldable pub read_samples : Bytes → Option (List ℕ)
read_samples [] = some []
read_samples (low ∷ []) = none
read_samples (low ∷ high ∷ bs) =
    Option.map (λ samples. (low + 256 * high) ∷ samples) (read_samples bs)

pub length-padding : (n : ℕ) → length (padding n) ≡ n % 2
length-padding n = ground arith

riff_step :
    (fuel a b c d w x y z n : ℕ) (rest : Bytes)
    → read_uint32 (w ∷ x ∷ y ∷ z ∷ []) ≡ n
    → n ≤ length rest
    → riff_chunks (suc fuel) (a ∷ b ∷ c ∷ d ∷ w ∷ x ∷ y ∷ z ∷ rest)
      ≡ Option.map
          (λ cs. (a ∷ b ∷ c ∷ d ∷ [], take n rest) ∷ cs)
          (riff_chunks fuel (drop (n + n % 2) rest))
unfolding riff_chunks
riff_step fuel a b c d w x y z n rest size fits = rw (size, le→leb _ _ fits) refl

-- The reader takes a chunk that fits its size field off the front.
pub riff_chunks-chunk :
    (fuel a b c d : ℕ) (payload rest : Bytes)
    → length payload < 4294967296
    → riff_chunks (suc fuel) (chunk (a ∷ b ∷ c ∷ d ∷ []) payload ++ rest)
      ≡ Option.map (λ cs. (a ∷ b ∷ c ∷ d ∷ [], payload) ∷ cs) (riff_chunks fuel rest)
riff_chunks-chunk fuel a b c d payload rest h =
    let n = length payload in
    let padded = payload ++ padding n in
    let count : n + n % 2 ≡ length padded =
      omega (arith, length-append payload (padding n), length-padding n) in
    let taken : take n (padded ++ rest) ≡ payload =
      rw append_assoc (take-length_append payload _) in
    let left : drop (n + n % 2) (padded ++ rest) ≡ rest =
      rw count (drop-length_append padded rest) in
    riff_step fuel a b c d _ _ _ _ n (padded ++ rest) (omega arith)
      (omega (arith, length-append padded rest, count))
    ∙ ap₂ (λ (p q : Bytes). Option.map (λ cs. (a ∷ b ∷ c ∷ d ∷ [], p) ∷ cs) (riff_chunks fuel q))
        taken left

-- The frames of an ID3v2.4 tag: a four-byte id, a syncsafe size, two flag bytes, the payload.
unfoldable pub id3_tags : ℕ → Bytes → Option (List (Bytes × Bytes))
id3_tags zero bs = none
id3_tags (suc fuel) [] = some []
id3_tags (suc fuel) (a ∷ b ∷ c ∷ d ∷ w ∷ x ∷ y ∷ z ∷ _ ∷ _ ∷ rest) =
    let n : ℕ = w * 2097152 + x * 16384 + y * 128 + z in
    let others : Option (List (Bytes × Bytes)) = id3_tags fuel (drop n rest) in
    if leb n (length rest)
    then Option.map (λ cs. (a ∷ b ∷ c ∷ d ∷ [], take n rest) ∷ cs) others
    else none
id3_tags (suc fuel) bs = none

-- A tag of version 2.4 with no flags whose size field counts its frames.
unfoldable pub id3_file : Bytes → Option (List (Bytes × Bytes))
unfolding id3_tags
id3_file (i ∷ d ∷ three ∷ v ∷ r ∷ f ∷ w ∷ x ∷ y ∷ z ∷ rest) =
    if i == b'I'
      && d == b'D'
      && three == b'3'
      && v == 4
      && r == 0
      && f == 0
      && w * 2097152 + x * 16384 + y * 128 + z == length rest
    then id3_tags (suc (length rest)) rest
    else none
id3_file bs = none

id3_step :
    (fuel a b c d w x y z f g n : ℕ) (rest : Bytes)
    → w * 2097152 + x * 16384 + y * 128 + z ≡ n
    → n ≤ length rest
    → id3_tags (suc fuel) (a ∷ b ∷ c ∷ d ∷ w ∷ x ∷ y ∷ z ∷ f ∷ g ∷ rest)
      ≡ Option.map (λ cs. (a ∷ b ∷ c ∷ d ∷ [], take n rest) ∷ cs) (id3_tags fuel (drop n rest))
unfolding id3_tags
id3_step fuel a b c d w x y z f g n rest size fits = rw (size, le→leb _ _ fits) refl

-- The reader takes a frame whose size has no more than 28 bits off the front.
pub id3_tags-frame :
    (fuel a b c d : ℕ) (payload rest : Bytes)
    → length payload < 268435456
    → id3_tags
        (suc fuel)
        (a ∷ b ∷ c ∷ d ∷ (syncsafe_bytes (length payload) ++ (0 ∷ 0 ∷ (payload ++ rest))))
      ≡ Option.map (λ cs. (a ∷ b ∷ c ∷ d ∷ [], payload) ∷ cs) (id3_tags fuel rest)
id3_tags-frame fuel a b c d payload rest h =
    id3_step fuel a b c d _ _ _ _ 0 0 (length payload) (payload ++ rest) (omega arith)
      (omega (arith, length-append payload rest))
    ∙ ap₂ (λ (p q : Bytes). Option.map (λ cs. (a ∷ b ∷ c ∷ d ∷ [], p) ∷ cs) (id3_tags fuel q))
        (take-length_append payload rest) (drop-length_append payload rest)

pub riff_file_lem :
    (rest : Bytes)
    → 4 + length rest < 4294967296
    → riff_file (text "RIFF" ++ (le32 (uint32 (4 + length rest)) ++ (text "WAVE" ++ rest)))
      ≡ riff_chunks (suc (length rest)) rest
unfolding riff_file
riff_file_lem rest h = ground arith

pub id3_file_lem :
    (frames : Bytes)
    → length frames < 268435456
    → id3_file (b'I' ∷ b'D' ∷ b'3' ∷ 4 ∷ 0 ∷ 0 ∷ (syncsafe_bytes (length frames) ++ frames))
      ≡ id3_tags (suc (length frames)) frames
unfolding id3_file
id3_file_lem frames h = ground arith

-- With any fuel that is enough, the reader finds these chunks.
abbrev pub Reads : Bytes → List (Bytes × Bytes) → Type 0
Reads bs cs = (fuel : ℕ) → length bs < fuel → riff_chunks fuel bs ≡ some cs

pub Reads-nil : Reads [] []
unfolding riff_chunks
Reads-nil zero h = absurd (omega arith)
Reads-nil (suc fuel) h = refl

pub Reads-chunk :
    (a b c d : ℕ) (payload rest : Bytes) (cs : List (Bytes × Bytes))
    → length payload < 4294967296
    → Reads rest cs
    → Reads (chunk (a ∷ b ∷ c ∷ d ∷ []) payload ++ rest) ((a ∷ b ∷ c ∷ d ∷ [], payload) ∷ cs)
Reads-chunk a b c d payload rest cs h read zero more = absurd (omega arith)
Reads-chunk a b c d payload rest cs h read (suc fuel) more =
    riff_chunks-chunk fuel a b c d payload rest h
    ∙ rw (read fuel (omega (arith, length-append (payload ++ padding (length payload)) rest))) refl

-- With any fuel that is enough, the reader finds these frames.
abbrev pub HasTags : Bytes → List (Bytes × Bytes) → Type 0
HasTags bs cs = (fuel : ℕ) → length bs < fuel → id3_tags fuel bs ≡ some cs

pub HasTags-nil : HasTags [] []
unfolding id3_tags
HasTags-nil zero h = absurd (omega arith)
HasTags-nil (suc fuel) h = refl

pub HasTags-frame :
    (a b c d : ℕ) (payload rest : Bytes) (cs : List (Bytes × Bytes))
    → length payload < 268435456
    → HasTags rest cs
    → HasTags
        (a ∷ b ∷ c ∷ d ∷ (syncsafe_bytes (length payload) ++ (0 ∷ 0 ∷ (payload ++ rest))))
        ((a ∷ b ∷ c ∷ d ∷ [], payload) ∷ cs)
HasTags-frame a b c d payload rest cs h read zero more = absurd (omega arith)
HasTags-frame a b c d payload rest cs h read (suc fuel) more =
    id3_tags-frame fuel a b c d payload rest h
    ∙ rw (read fuel (omega (arith, length-append payload rest))) refl
