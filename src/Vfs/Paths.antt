-- ===== src/Vfs/Paths.antt =====
-- `filepath.Join` and `filepath.Clean` as internal/vfs/vfs.go uses them, on the bytes of a path.
pub mod Behind
use chipfs.Base.{List, [], ◌∷◌, ◌++◌, Bool, false, ◌==◌, if◌then◌else◌, Bytes, text}
use chipfs.Formats.{equal}
use chipfs.Vfs.Parsers.{base_back}

-- The parts of a path between separators, the first one begun by `acc`, which is reversed.
unfoldable pub onto : Bytes → Bytes → Bytes
onto [] s = s
onto (b ∷ acc) s = onto acc (b ∷ s)

unfoldable pub parts : Bytes → Bytes → List Bytes
unfolding onto
parts acc [] = onto acc [] ∷ []
parts acc (c ∷ path) =
    let more = onto acc [] ∷ parts [] path in
    let same = parts (c ∷ acc) path in if c == 47 then more else same

-- One part against the parts kept so far, the last first: `.` and an empty part go, and `..` takes
-- a part away that is no `..` itself. Above the root there is nothing to take.
abbrev pub up : Bool → Bytes → List Bytes → List Bytes
up rooted part [] = if rooted then [] else part ∷ []
up rooted part (top ∷ rest) = if equal top (text "..") then part ∷ top ∷ rest else rest

unfoldable pub keep_part : Bool → List Bytes → Bytes → List Bytes
keep_part rooted kept part =
    if equal part []
    then kept
    else if equal part (text ".")
    then kept
    else if equal part (text "..")
    then up rooted part kept
    else part ∷ kept

unfoldable pub keep_parts : Bool → List Bytes → List Bytes → List Bytes
unfolding keep_part
keep_parts rooted kept [] = kept
keep_parts rooted kept (part ∷ ps) = keep_parts rooted (keep_part rooted kept part) ps

-- The kept parts, the last first, with separators between them
unfoldable pub joined : List Bytes → Bytes → Bytes
joined [] s = s
joined (part ∷ []) s = part ++ s
joined (part ∷ top ∷ kept) s = joined (top ∷ kept) (47 ∷ (part ++ s))

abbrev pub is_rooted : Bytes → Bool
is_rooted [] = false
is_rooted (c ∷ path) = c == 47

abbrev pub or_dot : List Bytes → Bytes
or_dot [] = text "."
or_dot (part ∷ kept) = joined (part ∷ kept) []

-- `filepath.Clean`
unfoldable pub clean : Bytes → Bytes
unfolding keep_parts joined parts
clean path =
    let kept = keep_parts (is_rooted path) [] (parts [] path) in
    if is_rooted path then 47 ∷ joined kept [] else or_dot kept

-- `filepath.Join(dir, name)`, for a name that is not empty
unfoldable pub join : Bytes → Bytes → Bytes
unfolding clean
join [] name = clean name
join (c ∷ dir) name = clean ((c ∷ dir) ++ (47 ∷ name))

-- A reversed path without the separators at its end
unfoldable pub without_slashes : Bytes → Bytes
without_slashes [] = []
without_slashes (c ∷ s) = let more = without_slashes s in if c == 47 then more else c ∷ s

abbrev pub or_slash : Bytes → Bytes
or_slash [] = text "/"
or_slash (c ∷ s) = c ∷ s

-- `filepath.Base`
unfoldable pub base : Bytes → Bytes
unfolding onto without_slashes base_back
base [] = text "."
base (c ∷ path) = or_slash (base_back (without_slashes (onto (c ∷ path) [])) [])
