-- ===== src/Cmd/Flags/Steps.antt =====
-- How `FlagSet.Parse` takes one flag after another.
use chipfs.Base.{◌≡◌, refl, List, ◌∷◌, true, false, Option, none, some, Bytes}
use chipfs.Cmd.Flags.{FlagSet, shape, named, value_or_true, parse}

module _ {Vars : Type 0} (flags : FlagSet Vars) (arg : Bytes) {name : Bytes} where
  -- A flag with its value in the next argument
  pub parse-next :
      (value : Bytes) (args : List Bytes) {vars vars' : Vars}
      → shape arg ≡ named name none
      → flags.is_bool name ≡ some false
      → flags.set name value vars ≡ some vars'
      → parse flags none vars (arg ∷ value ∷ args) ≡ parse flags none vars' args
  unfolding parse
  parse-next value args shaped valued stored = rw (shaped, valued, stored, parse) refl

  -- A Boolean flag
  pub parse-bool :
      (value : Option Bytes) (args : List Bytes) {vars vars' : Vars}
      → shape arg ≡ named name value
      → flags.is_bool name ≡ some true
      → flags.set name (value_or_true value) vars ≡ some vars'
      → parse flags none vars (arg ∷ args) ≡ parse flags none vars' args
  unfolding parse
  parse-bool value args shaped boolean stored = rw (shaped, boolean, stored, parse) refl
