-- ===== src/Cmd/Flags.antt =====
-- Go's package flag, as cmd/chipfs/main.go and cmd/render/main.go use it: `FlagSet.Parse`, and the
-- `Set` of a Boolean and of an int flag, which are `strconv.ParseBool` and `strconv.ParseInt` with
-- the base 0.
pub mod Numbers
pub mod Steps
use chipfs.Base.{
  ℕ, zero, suc, ◌+◌, ◌-◌, ◌*◌, ◌^◌, List, [], ◌∷◌, Bool, true, false, ◌&&◌, ◌||◌, ◌==◌, ltb, leb,
  if◌then◌else◌, Option, none, some, Bytes, text, ℤ, pos, negsuc, Result, ok, err,
}
use chipfs.Formats.{equal}

abbrev is_between : ℕ → ℕ → ℕ → Bool
is_between low high c = leb low c && leb c high

-- A digit in any base up to 36
unfoldable pub digit_of : ℕ → Option ℕ
digit_of c =
    if is_between 48 57 c
    then some (c - 48)
    else if is_between 97 122 c
    then some (c - 87)
    else if is_between 65 90 c
    then some (c - 55)
    else none

-- The loop of `ParseUint`, which skips underscores.
unfoldable pub digits_in : ℕ → ℕ → Bytes → Option ℕ
digits_in base n [] = some n
digits_in base n (c ∷ s) = if c == 95 then digits_in base n s else elim (digit_of c) [
  | none ↦ none
  | some d ↦ if ltb d base then digits_in base (n * base + d) s else none
]

-- The base and the digits behind a leading 0, when two more characters follow at least.
unfoldable pub base_behind : ℕ → Bytes → ℕ × Bytes
base_behind x s =
    if x == 98 || x == 66
    then (2, s)
    else if x == 111 || x == 79
    then (8, s)
    else if x == 120 || x == 88
    then (16, s)
    else (8, x ∷ s)

unfoldable pub base_of : Bytes → ℕ × Bytes
base_of [] = (10, [])
base_of (c ∷ []) = if c == 48 then (8, []) else (10, c ∷ [])
base_of (c ∷ x ∷ []) = if c == 48 then (8, x ∷ []) else (10, c ∷ x ∷ [])
base_of (c ∷ x ∷ y ∷ s) = if c == 48 then base_behind x (y ∷ s) else (10, c ∷ x ∷ y ∷ s)

-- The last character that `underscoreOK` saw
pub data Seen : Type 0 where
  nothing : Seen
  digit : Seen
  underscore : Seen
  other : Seen

unfoldable pub underscores_from : Bool → Seen → Bytes → Bool
underscores_from hex underscore [] = false
underscores_from hex seen [] = true
underscores_from hex seen (c ∷ s) =
    if is_between 48 57 c || (hex && (is_between 97 102 c || is_between 65 70 c))
    then underscores_from hex digit s
    else if c == 95
    then elim seen [ digit ↦ underscores_from hex underscore s | _ ↦ false ]
    else elim seen [ underscore ↦ false | _ ↦ underscores_from hex other s ]

abbrev is_prefix : ℕ → Bool
is_prefix x = x == 98 || x == 66 || x == 111 || x == 79 || x == 120 || x == 88

-- `underscoreOK`, without the sign, which `ParseInt` has cut off.
unfoldable pub underscore_ok : Bytes → Bool
underscore_ok (c ∷ x ∷ s) =
    if c == 48 && is_prefix x
    then underscores_from (x == 120 || x == 88) digit s
    else underscores_from false nothing (c ∷ x ∷ s)
underscore_ok s = underscores_from false nothing s

-- `ParseUint`, without the limit on its size, which `ParseInt` makes tighter.
unfoldable pub parse_uint : Bytes → Option ℕ
parse_uint [] = none
parse_uint (c ∷ s) =
    let (base, digits) = base_of (c ∷ s) in
    if underscore_ok (c ∷ s) then digits_in base 0 digits else none

abbrev pub negative : ℕ → ℤ
negative zero = pos 0
negative (suc n) = negsuc n

abbrev pub up_to : ℕ → (ℕ → ℤ) → Option ℕ → Option ℤ
up_to limit sign none = none
up_to limit sign (some n) = if leb n limit then some (sign n) else none

abbrev pub max_int : ℕ
max_int = 2 ^ 63 - 1

-- `ParseInt`, for 64 bits
unfoldable pub parse_int : Bytes → Option ℤ
parse_int [] = none
parse_int (c ∷ s) =
    if c == 45
    then up_to (2 ^ 63) negative (parse_uint s)
    else up_to max_int pos (parse_uint (if c == 43 then s else c ∷ s))

-- `ParseBool`
unfoldable pub parse_bool : Bytes → Option Bool
parse_bool s =
    if equal s (text "1")
      || equal s (text "t")
      || equal s (text "T")
      || equal s (text "TRUE")
      || equal s (text "true")
      || equal s (text "True")
    then some true
    else if equal s (text "0")
        || equal s (text "f")
        || equal s (text "F")
        || equal s (text "FALSE")
        || equal s (text "false")
        || equal s (text "False")
    then some false
    else none

-- What `parseOne` makes of an argument: not a flag, the end of the flags, or a name with a value.
pub data Shape : Type 0 where
  positional : Shape
  terminator : Shape
  bad_syntax : Shape
  named : Bytes → Option Bytes → Shape

-- What stands before the first equals sign and behind it
unfoldable pub cut_equals : Bytes → Bytes × Option Bytes
cut_equals [] = ([], none)
cut_equals (c ∷ s) =
    let (name, value) = cut_equals s in if c == 61 then ([], some s) else (c ∷ name, value)

unfoldable pub name_shape : Bytes → Shape
name_shape [] = bad_syntax
name_shape (c ∷ s) =
    if c == 45 || c == 61
    then bad_syntax
    else (let (name, value) = cut_equals s in named (c ∷ name) value)

unfoldable pub after_dashes : Bytes → Shape
after_dashes [] = terminator
after_dashes (c ∷ s) = name_shape (c ∷ s)

unfoldable pub shape : Bytes → Shape
shape (a ∷ b ∷ s) =
    if a == 45 then (if b == 45 then after_dashes s else name_shape (b ∷ s)) else positional
shape _ = positional

pub data FlagError : Type 0 where
  bad_flag_syntax : FlagError
  not_defined : Bytes → FlagError
  help : FlagError
  needs_argument : Bytes → FlagError
  invalid_value : Bytes → FlagError

-- The flags of a program, over the variables that they set: whether a name is that of a Boolean
-- flag, of another flag or of none, and the `Set` of the flag.
pub record FlagSet (Vars : Type 0) : Type 0 where
  pub is_bool : Bytes → Option Bool
  pub set : Bytes → Bytes → Vars → Option Vars

abbrev pub undefined : Bytes → FlagError
undefined name =
    if equal name (text "help") || equal name (text "h") then help else not_defined name

abbrev pub value_or_true : Option Bytes → Bytes
value_or_true none = text "true"
value_or_true (some value) = value

module _ {Vars : Type 0} (flags : FlagSet Vars) where
  -- `Parse`, where the flag `pending` has still to get its value from the next argument.
  unfoldable pub parse : (pending : Option Bytes) → Vars → List Bytes → Result FlagError Vars
  parse none vars [] = ok vars
  parse (some name) vars [] = err (needs_argument name)
  parse (some name) vars (value ∷ args) = elim (flags.set name value vars) [
    | none ↦ err (invalid_value name)
    | some vars' ↦ parse none vars' args
  ]
  parse none vars (arg ∷ args) = elim (shape arg) [
    | positional ↦ ok vars
    | terminator ↦ ok vars
    | bad_syntax ↦ err bad_flag_syntax
    | named name value ↦ elim (flags.is_bool name) [
      | none ↦ err (undefined name)
      | some true ↦ elim (flags.set name (value_or_true value) vars) [
        | none ↦ err (invalid_value name)
        | some vars' ↦ parse none vars' args
      ]
      | some false ↦ elim value [
        | none ↦ parse (some name) vars args
        | some v ↦ elim (flags.set name v vars) [
          | none ↦ err (invalid_value name)
          | some vars' ↦ parse none vars' args
        ]
      ]
    ]
  ]
