-- ===== src/Cmd/Chipfs/Written.antt =====
-- `parseArgs` of cmd/chipfs/main.go reads a command line that is written from a configuration.
use mathlib.Core.Option
use chipfs.Cmd.Flags.Steps.{parse-next, parse-bool}
use chipfs.Base.{
  ap, ◌∙◌, ◌≡◌, ◌≢◌, refl, List, [], ◌∷◌, Bool, true, false, none, some, Bytes, text, ℤ, ok, arith,
}
use chipfs.Formats.{equal}
use chipfs.Cmd.Flags.{parse, shape, name_shape, after_dashes, cut_equals, parse_bool}
use chipfs.Cmd.Flags.Numbers.{IsInt64, write_int, parse_int-write_int}
use chipfs.Cmd.Chipfs.{Config, flag_set, is_bool, set, with_both, parse_args, standard}

-- The Boolean flag takes its value only behind an equals sign.
abbrev pub write_bool : Bool → Bytes
write_bool true = text "-allow_other=true"
write_bool false = text "-allow_other=false"

unfoldable pub write_args : Config → List Bytes
write_args cfg =
    text "-source"
    ∷ cfg.source
    ∷ text "-mountpoint"
    ∷ cfg.mountpoint
    ∷ write_bool cfg.allow_other
    ∷ text "--default_length"
    ∷ write_int cfg.default_length_sec
    ∷ text "--fade_length"
    ∷ write_int cfg.fade_length_sec
    ∷ text "--cache_size_mb"
    ∷ write_int cfg.cache_size_mb
    ∷ []

module _ (args : List Bytes) (vars : Config) where
  source_flag :
      (value : Bytes)
      → parse flag_set none vars (text "-source" ∷ value ∷ args)
        ≡ parse flag_set none (record vars { source = value }) args
  unfolding shape name_shape after_dashes cut_equals is_bool set equal
  source_flag value =
      parse-next flag_set (text "-source") {name = text "source"} value args refl refl refl

  mountpoint_flag :
      (value : Bytes)
      → parse flag_set none vars (text "-mountpoint" ∷ value ∷ args)
        ≡ parse flag_set none (record vars { mountpoint = value }) args
  unfolding shape name_shape after_dashes cut_equals is_bool set equal
  mountpoint_flag value =
      parse-next flag_set (text "-mountpoint") {name = text "mountpoint"} value args refl refl refl

  allow_other_flag :
      (value : Bool)
      → parse flag_set none vars (write_bool value ∷ args)
        ≡ parse flag_set none (record vars { allow_other = value }) args
  unfolding shape name_shape after_dashes cut_equals is_bool set equal parse_bool
  allow_other_flag true =
      parse-bool flag_set (write_bool true) {name = text "allow_other"} (some (text "true")) args
        refl refl refl
  allow_other_flag false =
      parse-bool flag_set (write_bool false) {name = text "allow_other"} (some (text "false")) args
        refl refl refl

  default_length_flag :
      (value : ℤ)
      → IsInt64 value
      → parse flag_set none vars (text "--default_length" ∷ write_int value ∷ args)
        ≡ parse flag_set none (record vars { default_length_sec = value }) args
  unfolding shape name_shape after_dashes cut_equals is_bool set equal
  default_length_flag value fits =
      parse-next flag_set (text "--default_length") {name = text "default_length"} (write_int value)
        args refl refl
        (ap (Option.map (λ n. record vars { default_length_sec = n }))
          (parse_int-write_int value fits))

  fade_length_flag :
      (value : ℤ)
      → IsInt64 value
      → parse flag_set none vars (text "--fade_length" ∷ write_int value ∷ args)
        ≡ parse flag_set none (record vars { fade_length_sec = value }) args
  unfolding shape name_shape after_dashes cut_equals is_bool set equal
  fade_length_flag value fits =
      parse-next flag_set (text "--fade_length") {name = text "fade_length"} (write_int value) args
        refl refl
        (ap (Option.map (λ n. record vars { fade_length_sec = n }))
          (parse_int-write_int value fits))

  cache_size_flag :
      (value : ℤ)
      → IsInt64 value
      → parse flag_set none vars (text "--cache_size_mb" ∷ write_int value ∷ args)
        ≡ parse flag_set none (record vars { cache_size_mb = value }) args
  unfolding shape name_shape after_dashes cut_equals is_bool set equal
  cache_size_flag value fits =
      parse-next flag_set (text "--cache_size_mb") {name = text "cache_size_mb"} (write_int value)
        args refl refl
        (ap (Option.map (λ n. record vars { cache_size_mb = n })) (parse_int-write_int value fits))

with_both_lem : (cfg : Config) → cfg.source ≢ [] → cfg.mountpoint ≢ [] → with_both cfg ≡ ok cfg
with_both_lem cfg source mountpoint = ground arith

-- Take a configuration whose source and mountpoint are not empty, and whose numbers fit into 64
-- bits. `parseArgs` gives it back from its command line, whatever the strings are: a path that
-- begins with a dash, or holds an equals sign, is read as a value.
pub parse_args-write_args :
    (cfg : Config)
    → cfg.source ≢ []
    → cfg.mountpoint ≢ []
    → IsInt64 cfg.default_length_sec
    → IsInt64 cfg.fade_length_sec
    → IsInt64 cfg.cache_size_mb
    → parse_args (write_args cfg) ≡ ok cfg
unfolding parse_args write_args
parse_args-write_args cfg source mountpoint play fade size =
    let parsed : parse flag_set none standard (write_args cfg) ≡ ok cfg =
      source_flag _ _ cfg.source
      ∙ mountpoint_flag _ _ cfg.mountpoint
      ∙ allow_other_flag _ _ cfg.allow_other
      ∙ default_length_flag _ _ cfg.default_length_sec play
      ∙ fade_length_flag _ _ cfg.fade_length_sec fade
      ∙ cache_size_flag _ _ cfg.cache_size_mb size
      ∙ (unfold parse in refl) in
    rw parsed (with_both_lem cfg source mountpoint)
