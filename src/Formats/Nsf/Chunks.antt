-- ===== src/Formats/Nsf/Chunks.antt =====
-- The chunk loop of internal/formats/nsf/nsf.go against a plain list of chunks.
use chipfs.Base.{
  ℕ, zero, suc, ◌+◌, ◌≤◌, ◌<◌, ◌≡◌, refl, sym, ap, ◌∙◌, List, [], ◌∷◌, ◌++◌, true, false, ltb, leb,
  length, All, Bytes, text, le32, read_uint32-le32, Result, ok, err, ◌>>=◌, arith, length-append,
}
use mathlib.Core.List.{append_assoc}
use chipfs.Formats.{equal, slice}
use chipfs.Formats.Slices.{equal_refl, slice-append, slice_field, slice_end}
use chipfs.Formats.Nsf.{
  Error, out_of_range, State, start, apply_chunk, uint32_at, chunks, finish, parse_nsfe, parse,
}

-- A chunk is its name and its contents.
abbrev pub Chunk : Type 0
Chunk = Bytes × Bytes

abbrev pub nsfe_chunks : List Chunk → Bytes
nsfe_chunks [] = []
nsfe_chunks ((id, body) ∷ cs) = (le32 (length body) ++ (id ++ body)) ++ nsfe_chunks cs

-- An NSFe file: the magic, the chunks, the end mark, and whatever lies behind it.
abbrev pub nsfe_file : List Chunk → ℕ → Bytes → Bytes
nsfe_file cs n behind = text "NSFE" ++ (nsfe_chunks cs ++ (le32 n ++ (text "NEND" ++ behind)))

-- Names are four bytes, sizes are 32 bits, and the end mark is no chunk.
abbrev pub IsChunk : Chunk → Type 0
IsChunk (id, body) = (length id ≡ 4) × (equal id (text "NEND") ≡ false) × (length body < 4294967296)

-- What the chunks mean, one after another.
unfoldable pub apply_all : State → List Chunk → Result Error State
apply_all s [] = ok s
apply_all s ((id, body) ∷ cs) = apply_chunk s id body >>= λ s'. apply_all s' cs

apply_all_step :
    (s : State) (id body : Bytes) (cs : List Chunk)
    → (apply_chunk s id body >>= λ s'. apply_all s' cs) ≡ apply_all s ((id, body) ∷ cs)
unfolding apply_all
apply_all_step s id body cs = refl

uint32_at_lem :
    (front rest : Bytes) (n i : ℕ)
    → length front ≡ i
    → n < 4294967296
    → uint32_at (front ++ (le32 n ++ rest)) i ≡ ok n
unfolding uint32_at
uint32_at_lem front rest n i h k =
    let long : ltb (length (le32 n ++ rest)) 4 ≡ false = ground arith in
    rw (slice_end out_of_range front (le32 n ++ rest) i h, long) (ap ok (read_uint32-le32 n rest k))

module _ (bytes : Bytes) (i : ℕ) (s : State) where
  chunks_end :
      (fuel : ℕ) {size : ℕ}
      → i + 8 ≤ length bytes
      → uint32_at bytes i ≡ ok size
      → slice out_of_range bytes (i + 4) (i + 8) ≡ ok (text "NEND")
      → chunks (suc fuel) bytes i s ≡ ok s
  unfolding chunks
  chunks_end fuel room sized named =
      let inside : leb (i + 8) (length bytes) ≡ true = ground arith in
      rw (chunks, inside, sized, named, equal_refl (text "NEND")) refl

  chunks_next :
      (fuel : ℕ) {size : ℕ} {id body : Bytes}
      → i + 8 + size ≤ length bytes
      → uint32_at bytes i ≡ ok size
      → slice out_of_range bytes (i + 4) (i + 8) ≡ ok id
      → equal id (text "NEND") ≡ false
      → slice out_of_range bytes (i + 8) (i + 8 + size) ≡ ok body
      → chunks (suc fuel) bytes i s
        ≡ (apply_chunk s id body >>= λ s'. chunks fuel bytes (i + 8 + size) s')
  unfolding chunks
  chunks_next fuel {size} room sized named other found =
      let inside : leb (i + 8) (length bytes) ≡ true = ground arith in
      let fits : ltb (length bytes) (i + 8 + size) ≡ false = ground arith in
      rw (chunks, inside, sized, named, other, fits, found) refl

parse_magic :
    (bytes : Bytes)
    → slice out_of_range bytes 0 4 ≡ ok (text "NSFE")
    → 4 ≤ length bytes
    → parse bytes ≡ parse_nsfe bytes
unfolding parse
parse_magic bytes front h =
    let long : ltb (length bytes) 4 ≡ false = ground arith in
    rw (parse, long, front, equal_refl (text "NSFE")) refl

bind_ext :
    {A B : Type 0} (m : Result Error A) (f g : A → Result Error B)
    → ((a : A) → f a ≡ g a)
    → m >>= f ≡ m >>= g
bind_ext (ok a) f g h = h a
bind_ext (err e) f g h = refl

-- The name of a chunk that stands behind `front`.
name_at :
    (front id rest : Bytes) (n i : ℕ)
    → length front ≡ i
    → length id ≡ 4
    → slice out_of_range (front ++ (le32 n ++ (id ++ rest))) (i + 4) (i + 8) ≡ ok id
name_at front id rest n i start_at named =
    sym (ap (λ z. slice out_of_range z (i + 4) (i + 8)) (append_assoc front (le32 n) (id ++ rest)))
    ∙ slice_field out_of_range (front ++ le32 n) id rest (i + 4) (i + 8)
        (omega (arith, length-append front (le32 n))) (omega arith)

-- Its contents, and the length of it all.
module _ (front id body rest : Bytes) (i : ℕ) (start_at : length front ≡ i)
    (named : length id ≡ 4) where
  abbrev whole : Bytes
  whole = front ++ (le32 (length body) ++ (id ++ (body ++ rest)))

  body_at : slice out_of_range whole (i + 8) (i + 8 + length body) ≡ ok body
  body_at =
      sym (
        ap (λ z. slice out_of_range z (i + 8) (i + 8 + length body))
          (append_assoc front (le32 (length body) ++ id) (body ++ rest)
            ∙ ap (λ z. front ++ z) (append_assoc (le32 (length body)) id (body ++ rest))))
      ∙ slice_field out_of_range (front ++ (le32 (length body) ++ id)) body rest (i + 8)
          (i + 8 + length body) (omega (arith, length-append front (le32 (length body) ++ id))) refl

  length-whole : length whole ≡ i + 8 + length body + length rest
  length-whole = omega (
    arith,
    length-append front (le32 (length body) ++ (id ++ (body ++ rest))),
    length-append id (body ++ rest),
    length-append body rest,
  )

module _ (n : ℕ) (behind : Bytes) (small : n < 4294967296) where
  abbrev ending : Bytes
  ending = le32 n ++ (text "NEND" ++ behind)

  -- The bytes of a chunk and what follows, nested to the right.
  regroup :
      (front id body : Bytes) (cs : List Chunk)
      → front ++ (nsfe_chunks ((id, body) ∷ cs) ++ ending)
        ≡ front ++ (le32 (length body) ++ (id ++ (body ++ (nsfe_chunks cs ++ ending))))
  regroup front id body cs =
      ap (λ z. front ++ (le32 (length body) ++ z))
        (append_assoc (id ++ body) (nsfe_chunks cs) ending
          ∙ append_assoc id body (nsfe_chunks cs ++ ending))

  advance :
      (front id body rest : Bytes)
      → front ++ (le32 (length body) ++ (id ++ (body ++ rest)))
        ≡ (front ++ (le32 (length body) ++ (id ++ body))) ++ rest
  advance front id body rest =
      ap (λ z. front ++ (le32 (length body) ++ z)) (sym (append_assoc id body rest))
      ∙ sym (append_assoc front (le32 (length body) ++ (id ++ body)) rest)

  chunks-nsfe_chunks :
      (cs : List Chunk) (fuel : ℕ) (bytes front : Bytes) (i : ℕ) (s : State)
      → All IsChunk cs
      → bytes ≡ front ++ (nsfe_chunks cs ++ ending)
      → length front ≡ i
      → length bytes < fuel + i
      → chunks fuel bytes i s ≡ apply_all s cs
  chunks-nsfe_chunks cs zero bytes front i s fine e start_at enough =
      absurd (omega (arith, ap length e, length-append front (nsfe_chunks cs ++ ending)))
  chunks-nsfe_chunks [] (suc fuel) bytes front i s fine e start_at enough =
      unfold apply_all in
      rw e (
        chunks_end (front ++ ending) i s fuel (omega (arith, length-append front ending))
          (uint32_at_lem front (text "NEND" ++ behind) n i start_at small)
          (name_at front (text "NEND") behind n i start_at refl))
  chunks-nsfe_chunks ((id, body) ∷ cs) (suc fuel) bytes front i s (fine, others) e start_at enough =
      let rest : Bytes = nsfe_chunks cs ++ ending in
      let e' = e ∙ regroup front id body cs in
      let size = ap length e' ∙ length-whole front id body rest i start_at fine.0 in
      let next = front ++ (le32 (length body) ++ (id ++ body)) in
      let next_at : length next ≡ i + 8 + length body = omega (
        arith,
        start_at,
        fine.0,
        length-append front (le32 (length body) ++ (id ++ body)),
        length-append id body,
      ) in
      chunks_next bytes i s fuel (omega (arith, size))
        (rw e' (uint32_at_lem front (id ++ (body ++ rest)) (length body) i start_at fine.2))
        (rw e' (name_at front id (body ++ rest) (length body) i start_at fine.0)) fine.1
        (rw e' (body_at front id body rest i start_at fine.0))
      ∙ bind_ext (apply_chunk s id body) _ _ (λ s'.
        chunks-nsfe_chunks cs fuel bytes next (i + 8 + length body) s' others
          (e' ∙ advance front id body rest) next_at (omega arith))
      ∙ apply_all_step s id body cs

  -- `Parse` on an NSFe file applies its chunks one after another, each with its own name and
  -- contents, and no byte behind the end mark counts. The chunks have names of four bytes other
  -- than the end mark's, and sizes of 32 bits.
  pub parse-nsfe_file :
      (cs : List Chunk)
      → All IsChunk cs
      → parse (nsfe_file cs n behind) ≡ (apply_all start cs >>= finish)
  parse-nsfe_file cs fine =
      let bytes = nsfe_file cs n behind in
      parse_magic bytes (slice-append out_of_range (text "NSFE") _ 4 refl) (omega arith)
      ∙ unfold parse_nsfe in
        ap (λ (r : Result Error State). r >>= finish)
          (chunks-nsfe_chunks cs (length bytes) bytes (text "NSFE") 4 start fine refl refl
            (omega arith))
