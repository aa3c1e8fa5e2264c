-- ===== src/Vfs/Paths/Behind.antt =====
-- Paths that internal/vfs/vfs.go and cmd/render/main.go read from behind: the folder, the base and
-- the extension of a path that is put together from them.
use mathlib.Core.List.{append_assoc, append-nil}
use chipfs.Base.{
  ℕ, ◌<◌, ◌≡◌, ◌≢◌, refl, sym, ap, ◌∙◌, [], ◌∷◌, ◌++◌, ◌==◌, false, All, Bytes, length,
  length-append, Option, some, reverse_bytes, reverse_bytes-append, reverse_bytes_twice,
  reverse_bytes-All, arith,
}
use chipfs.Vfs.Names.Tidy.{IsTidy, clean_tag-IsTidy}
use chipfs.Vfs.Parsers.{ext_back, reversed, dir_back, base_back, spc_album}
use chipfs.Vfs.Paths.{onto, or_slash, without_slashes, base}

-- No separator
abbrev pub IsPart : Bytes → Type 0
IsPart s = All (λ b. b ≢ 47) s

-- What stands before the last part of a path: nothing, or something that a separator ends
pub data IsDirectory : Bytes → Type 0 where
  here : IsDirectory []
  under : (parents : Bytes) → IsDirectory (parents ++ 47 ∷ [])

unequal : (a b : ℕ) → a ≢ b → (a == b) ≡ false
unequal a b h = ground arith

pub reversed_lem : (s acc : Bytes) → reversed s acc ≡ reverse_bytes s ++ acc
unfolding reversed
reversed_lem [] acc = refl
reversed_lem (b ∷ s) acc =
    reversed_lem s (b ∷ acc) ∙ sym (append_assoc (reverse_bytes s) (b ∷ []) acc)

pub onto_lem : (s acc : Bytes) → onto s acc ≡ reverse_bytes s ++ acc
unfolding onto
onto_lem [] acc = refl
onto_lem (b ∷ s) acc = onto_lem s (b ∷ acc) ∙ sym (append_assoc (reverse_bytes s) (b ∷ []) acc)

dir_back-IsPart : (s t : Bytes) → IsPart s → dir_back (s ++ 47 ∷ t) ≡ t
unfolding dir_back
dir_back-IsPart [] t h = refl
dir_back-IsPart (b ∷ s) t h = rw (unequal b 47 h.0) (dir_back-IsPart s t h.1)

pub base_back-IsPart :
    (s t acc : Bytes) → IsPart s → base_back (s ++ 47 ∷ t) acc ≡ reverse_bytes s ++ acc
unfolding base_back
base_back-IsPart [] t acc h = refl
base_back-IsPart (b ∷ s) t acc h =
    rw (unequal b 47 h.0)
      (base_back-IsPart s t (b ∷ acc) h.1 ∙ sym (append_assoc (reverse_bytes s) (b ∷ []) acc))

base_back-alone : (s acc : Bytes) → IsPart s → base_back s acc ≡ reverse_bytes s ++ acc
unfolding base_back
base_back-alone [] acc h = refl
base_back-alone (b ∷ s) acc h =
    rw (unequal b 47 h.0)
      (base_back-alone s (b ∷ acc) h.1 ∙ sym (append_assoc (reverse_bytes s) (b ∷ []) acc))

-- A path whose last part is `s` has it as its base.
pub base_back-IsDirectory :
    {front : Bytes} (s : Bytes)
    → IsDirectory front
    → IsPart s
    → base_back (reverse_bytes (front ++ s)) [] ≡ s
base_back-IsDirectory s here h =
    base_back-alone (reverse_bytes s) [] (reverse_bytes-All (λ b. b ≢ 47) s h)
    ∙ append-nil _
    ∙ reverse_bytes_twice s
base_back-IsDirectory s (under parents) h =
    let plain : reverse_bytes ((parents ++ 47 ∷ []) ++ s)
        ≡ reverse_bytes s ++ 47 ∷ reverse_bytes parents =
      reverse_bytes-append (parents ++ 47 ∷ []) s
      ∙ ap (λ (z : Bytes). reverse_bytes s ++ z) (reverse_bytes-append parents (47 ∷ [])) in
    rw plain (
      base_back-IsPart (reverse_bytes s) _ [] (reverse_bytes-All (λ b. b ≢ 47) s h)
      ∙ append-nil _
      ∙ reverse_bytes_twice s)

-- The album of a file is the last part of its absolute directory.
pub spc_album-IsTidy :
    (abs : Bytes → Option Bytes) (path front folder name : Bytes)
    → abs path ≡ some (front ++ (folder ++ 47 ∷ name))
    → IsDirectory front
    → IsPart folder
    → IsPart name
    → IsTidy folder
    → spc_album abs path ≡ folder
unfolding spc_album
spc_album-IsTidy abs path front folder name placed dir part part' tidy =
    let plain : reversed (front ++ (folder ++ 47 ∷ name)) []
        ≡ reverse_bytes name ++ 47 ∷ reverse_bytes (front ++ folder) =
      reversed_lem (front ++ (folder ++ 47 ∷ name)) []
      ∙ append-nil _
      ∙ ap reverse_bytes (sym (append_assoc front folder (47 ∷ name)))
      ∙ reverse_bytes-append (front ++ folder) (47 ∷ name)
      ∙ append_assoc (reverse_bytes name) (47 ∷ []) (reverse_bytes (front ++ folder)) in
    rw
      (
        spc_album,
        placed,
        plain,
        dir_back-IsPart (reverse_bytes name) (reverse_bytes (front ++ folder))
            (reverse_bytes-All (λ b. b ≢ 47) name part'),
        base_back-IsDirectory folder dir part,
      )
      (clean_tag-IsTidy folder tidy)

-- The extension of a path is what its last dot begins.
ext_back_lem :
    (s t tail : Bytes)
    → IsPart s
    → All (λ b. b ≢ 46) s
    → ext_back (s ++ 46 ∷ t) tail ≡ 46 ∷ (reverse_bytes s ++ tail)
unfolding ext_back
ext_back_lem [] t tail part h = refl
ext_back_lem (b ∷ s) t tail part h =
    rw (unequal b 47 part.0, unequal b 46 h.0)
      (ext_back_lem s t (b ∷ tail) part.1 h.1
        ∙ ap (λ (z : Bytes). 46 ∷ z) (sym (append_assoc (reverse_bytes s) (b ∷ []) tail)))

pub ext_back-dot :
    (front ext : Bytes)
    → IsPart ext
    → All (λ b. b ≢ 46) ext
    → ext_back (reversed (front ++ 46 ∷ ext) []) [] ≡ 46 ∷ ext
ext_back-dot front ext part h =
    let plain : reversed (front ++ 46 ∷ ext) [] ≡ reverse_bytes ext ++ 46 ∷ reverse_bytes front =
      reversed_lem (front ++ 46 ∷ ext) []
      ∙ append-nil _
      ∙ reverse_bytes-append front (46 ∷ ext)
      ∙ append_assoc (reverse_bytes ext) (46 ∷ []) (reverse_bytes front) in
    rw plain (
      ext_back_lem (reverse_bytes ext) (reverse_bytes front) []
        (reverse_bytes-All (λ b. b ≢ 47) ext part) (reverse_bytes-All (λ b. b ≢ 46) ext h)
      ∙ ap (λ (z : Bytes). 46 ∷ z) (append-nil _ ∙ reverse_bytes_twice ext))

without_slashes-IsPart : (s t : Bytes) → IsPart s → 0 < length s → without_slashes (s ++ t) ≡ s ++ t
unfolding without_slashes
without_slashes-IsPart [] t h some_part = absurd (omega arith)
without_slashes-IsPart (b ∷ s) t h some_part = rw (unequal b 47 h.0) refl

length-reverse_bytes : (s : Bytes) → length (reverse_bytes s) ≡ length s
length-reverse_bytes [] = refl
length-reverse_bytes (b ∷ s) =
    omega (arith, length-append (reverse_bytes s) (b ∷ []), length-reverse_bytes s)

base_cons :
    (path : Bytes)
    → 0 < length path
    → base path ≡ or_slash (base_back (without_slashes (onto path [])) [])
unfolding base
base_cons [] h = absurd (omega arith)
base_cons (c ∷ path) h = refl

or_slash_some : (s : Bytes) → 0 < length s → or_slash s ≡ s
or_slash_some [] h = absurd (omega arith)
or_slash_some (c ∷ s) h = refl

-- The base of a path is its last part.
pub base-IsDirectory :
    {front : Bytes} (s : Bytes)
    → IsDirectory front
    → IsPart s
    → 0 < length s
    → base (front ++ s) ≡ s
base-IsDirectory {front} s dir part some_part =
    let turned : onto (front ++ s) [] ≡ reverse_bytes (front ++ s) =
      onto_lem (front ++ s) [] ∙ append-nil _ in
    let kept : without_slashes (reverse_bytes (front ++ s)) ≡ reverse_bytes (front ++ s) =
      rw (reverse_bytes-append front s) (
        without_slashes-IsPart (reverse_bytes s) (reverse_bytes front)
          (reverse_bytes-All (λ b. b ≢ 47) s part) (omega (arith, length-reverse_bytes s))) in
    base_cons (front ++ s) (omega (arith, length-append front s))
    ∙ rw (turned, kept, base_back-IsDirectory s dir part) (or_slash_some s some_part)
