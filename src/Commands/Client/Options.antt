-- ===== src/Commands/Client/Options.antt =====
-- parseArgs of cmd/corenet/main.go, with what it uses of Go's package `flag`.
use corenet.Common.{
  ℕ, zero, suc, Text, bytes, Bool, true, false, not, ◌&&◌, ◌||◌, ◌==◌, ltb, List, [], ◌∷◌, ◌++◌,
  Option, none, some, length, drop, is_empty, text_eq, if◌then◌else◌, cut, starts_with,
}

-- `options`
pub record Options : Type 0 where
  pub config : Text
  pub socket : Text
  pub json : Bool

-- What the first of some arguments is for the package `flag`.
pub data Token : Type 0 where
  word : Token
  terminator : Token
  bad_syntax : Token
  flag : Text → Option Text → Token

-- The name of a flag, and its value where it has one after an equals sign, which cannot be first.
abbrev pub flag_of : Text → Token
unfolding cut
flag_of [] = bad_syntax
flag_of (c ∷ name) =
    if c == b'-' || c == b'='
    then bad_syntax
    else elim (cut b'=' name) [ none ↦ flag (c ∷ name) none | some p ↦ flag (c ∷ p.0) (some p.1) ]

-- The start of `parseOne` of the package `flag`.
unfoldable pub token : Text → Token
unfolding flag_of
token s =
    if ltb (length s) 2 || not (starts_with b'-' s)
    then word
    else if starts_with b'-' (drop 1 s)
    then (if length s == 2 then terminator else flag_of (drop 2 s))
    else flag_of (drop 1 s)

pub data FlagError : Type 0 where
  bad_flag_syntax : Text → FlagError
  help_requested : FlagError
  not_defined : Text → FlagError
  invalid_boolean : Text → FlagError
  needs_argument : Text → FlagError

pub data Flags : Type 0 where
  parsed : Options → List Text → Flags
  refused : FlagError → Options → Flags

-- `strconv.ParseBool`
unfoldable pub parse_bool : Text → Option Bool
unfolding text_eq
parse_bool s =
    if text_eq s (bytes "1")
      || (text_eq s (bytes "t")
          || (text_eq s (bytes "T")
              || (text_eq s (bytes "true")
                  || (text_eq s (bytes "TRUE") || text_eq s (bytes "True")))))
    then some true
    else if text_eq s (bytes "0")
        || (text_eq s (bytes "f")
            || (text_eq s (bytes "F")
                || (text_eq s (bytes "false")
                    || (text_eq s (bytes "FALSE") || text_eq s (bytes "False")))))
    then some false
    else none

-- What one flag does: it changes the options, it takes its value from the next argument, or it is refused.
pub data Effect : Type 0 where
  set : Options → Effect
  set_next : Text → (Text → Options) → Effect
  fail : FlagError → Effect

abbrev pub text_flag : Text → (Text → Options) → Option Text → Effect
text_flag name f none = set_next name f
text_flag name f (some value) = set (f value)

abbrev pub json_flag : Options → Option Text → Effect
unfolding parse_bool
json_flag opts none = set (record opts { json = true })
json_flag opts (some value) = elim (parse_bool value) [
  | none ↦ fail (invalid_boolean value)
  | some b ↦ set (record opts { json = b })
]

-- The rest of `parseOne`, for the three flags that parseArgs defines.
unfoldable pub flag_effect : Options → Text → Option Text → Effect
unfolding text_eq json_flag
flag_effect opts name value =
    if text_eq name (bytes "config")
    then text_flag name (λ v. record opts { config = v }) value
    else if text_eq name (bytes "socket")
    then text_flag name (λ v. record opts { socket = v }) value
    else if text_eq name (bytes "json")
    then json_flag opts value
    else if text_eq name (bytes "help") || text_eq name (bytes "h")
    then fail help_requested
    else fail (not_defined name)

-- What the first of some arguments does, `effect` being that of a flag.
abbrev pub token_effect : Options → Text → Token → Option Effect
unfolding flag_effect
token_effect opts s word = none
token_effect opts s terminator = none
token_effect opts s bad_syntax = some (fail (bad_flag_syntax s))
token_effect opts s (flag name value) = some (flag_effect opts name value)

-- The arguments that are left where the first is no flag.
abbrev pub left_over : Token → Text → List Text → List Text
left_over terminator s args = args
left_over _ s args = s ∷ args

-- What the last argument does, `left` being what is left where it is no flag.
abbrev pub apply_last : Options → List Text → Option Effect → Flags
apply_last opts left none = parsed opts left
apply_last opts left (some (set o)) = parsed o []
apply_last opts left (some (set_next name f)) = refused (needs_argument name) opts
apply_last opts left (some (fail why)) = refused why opts

-- What an argument does before another one, `v`: parsing goes on with that, or with what follows it.
abbrev pub apply_more :
    Options → List Text → (Options → Flags) → (Options → Flags) → Text → Option Effect → Flags
apply_more opts left next after_next v none = parsed opts left
apply_more opts left next after_next v (some (set o)) = next o
apply_more opts left next after_next v (some (set_next name f)) = after_next (f v)
apply_more opts left next after_next v (some (fail why)) = refused why opts

-- `Parse` of the package `flag`.
unfoldable pub parse_flags : Options → List Text → Flags
unfolding token token_effect
parse_flags opts [] = parsed opts []
parse_flags opts (s ∷ []) =
    apply_last opts (left_over (token s) s []) (token_effect opts s (token s))
parse_flags opts (s ∷ v ∷ args) =
    apply_more opts (left_over (token s) s (v ∷ args)) (λ o. parse_flags o (v ∷ args))
      (λ o. parse_flags o args) v (token_effect opts s (token s))

-- What parseArgs returns; `no_fuel` is the loop that goes on past the rounds it was given.
pub data Args : Type 0 where
  positional : List Text → Options → Args
  failed : FlagError → Args
  no_fuel : Args

abbrev pub is_help : List Text → Bool
is_help [] = false
is_help (s ∷ args) = text_eq s (bytes "-h") || text_eq s (bytes "--help")

-- One round, `next` being the rounds that follow.
unfoldable pub round :
    List Text → List Text → (List Text → Options → List Text → Args) → Flags → Args
unfolding text_eq
round words args next (parsed o []) = next words o []
round words args next (parsed o (w ∷ rest)) = next (words ++ w ∷ []) o rest
round words args next (refused why o) =
    if is_empty words && is_help args then positional (bytes "help" ∷ []) o else failed why

-- The loop of parseArgs, for so many rounds.
unfoldable pub parse_rounds : ℕ → List Text → Options → List Text → Args
unfolding parse_flags round
parse_rounds zero words opts args = no_fuel
parse_rounds (suc n) words opts [] = positional words opts
parse_rounds (suc n) words opts (s ∷ args) =
    round words (s ∷ args) (λ ws o rest. parse_rounds n ws o rest) (parse_flags opts (s ∷ args))

-- `parseArgs`; each round takes an argument, if there is one.
unfoldable pub parse_args : Options → List Text → Args
unfolding parse_rounds
parse_args opts args = parse_rounds (suc (length args)) [] opts args
