-- ===== src/Commands/Client/Ending.antt =====
-- parseArgs of cmd/corenet/main.go ends.
use corenet.Common.{
  ℕ, zero, suc, ◌≤◌, Text, bytes, ◌≢◌, Bool, true, false, List, [], ◌∷◌, ◌++◌, Option, none, some,
  arith, length, if◌then◌else◌, is_empty, ◌&&◌,
}
use corenet.Commands.Client.Options.{
  Options, Token, word, terminator, bad_syntax, flag, token, Flags, parsed, refused, Effect, set,
  set_next, fail, token_effect, left_over, apply_last, apply_more, parse_flags, Args, positional,
  failed, no_fuel, is_help, round, parse_rounds, parse_args,
}

-- What is left of the arguments is no more than there was.
abbrev IsNoMore : ℕ → Flags → Type 0
IsNoMore n (parsed o rest) = length rest ≤ n
IsNoMore n (refused why o) = Unit

IsNoMore-mono : (m n : ℕ) (f : Flags) → m ≤ n → IsNoMore m f → IsNoMore n f
IsNoMore-mono m n (parsed o rest) le h = omega (arith, le, h)
IsNoMore-mono m n (refused why o) le h = tt

left_over-IsNoMore :
    (t : Token) (s : Text) (args : List Text) → length (left_over t s args) ≤ suc (length args)
left_over-IsNoMore terminator s args = omega arith
left_over-IsNoMore word s args = omega arith
left_over-IsNoMore bad_syntax s args = omega arith
left_over-IsNoMore (flag name value) s args = omega arith

apply_last-IsNoMore :
    (opts : Options) (n : ℕ) (left : List Text) (e : Option Effect)
    → length left ≤ n
    → IsNoMore n (apply_last opts left e)
apply_last-IsNoMore opts n left none le = le
apply_last-IsNoMore opts n left (some (set o)) le = omega arith
apply_last-IsNoMore opts n left (some (set_next name f)) le = tt
apply_last-IsNoMore opts n left (some (fail why)) le = tt

apply_more-IsNoMore :
    (opts : Options) (n : ℕ) (left : List Text) (next after_next : Options → Flags) (v : Text)
    (e : Option Effect)
    → length left ≤ n
    → ((o : Options) → IsNoMore n (next o))
    → ((o : Options) → IsNoMore n (after_next o))
    → IsNoMore n (apply_more opts left next after_next v e)
apply_more-IsNoMore opts n left next after_next v none le h k = le
apply_more-IsNoMore opts n left next after_next v (some (set o)) le h k = h o
apply_more-IsNoMore opts n left next after_next v (some (set_next name f)) le h k = k (f v)
apply_more-IsNoMore opts n left next after_next v (some (fail why)) le h k = tt

parse_flags-IsNoMore :
    (opts : Options) (args : List Text) → IsNoMore (length args) (parse_flags opts args)
unfolding parse_flags
parse_flags-IsNoMore opts [] = omega arith
parse_flags-IsNoMore opts (s ∷ []) =
    apply_last-IsNoMore opts 1 (left_over (token s) s []) (token_effect opts s (token s))
      (left_over-IsNoMore (token s) s [])
parse_flags-IsNoMore opts (s ∷ v ∷ args) =
    let n = length (s ∷ v ∷ args) in
    apply_more-IsNoMore opts n (left_over (token s) s (v ∷ args)) _ _ v
      (token_effect opts s (token s)) (left_over-IsNoMore (token s) s (v ∷ args))
      (λ o.
        IsNoMore-mono (length (v ∷ args)) n (parse_flags o (v ∷ args)) (omega arith)
          (parse_flags-IsNoMore o (v ∷ args)))
      (λ o.
        IsNoMore-mono (length args) n (parse_flags o args) (omega arith)
          (parse_flags-IsNoMore o args))

-- A round takes an argument, so there are rounds enough.
round-total :
    (n : ℕ) (words args : List Text) (f : Flags) (next : List Text → Options → List Text → Args)
    → ((ws : List Text) (o : Options) (rest : List Text)
        → length rest ≤ n
        → next ws o rest ≢ no_fuel)
    → IsNoMore (suc n) f
    → round words args next f ≢ no_fuel
unfolding round
round-total n words args (parsed o []) next h le = h words o [] (omega arith)
round-total n words args (parsed o (w ∷ rest)) next h le =
    h (words ++ w ∷ []) o rest (omega (arith, le))
round-total n words args (refused why o) next h le = from (is_empty words && is_help args)
  where
    from : (b : Bool) → (if b then positional (bytes "help" ∷ []) o else failed why) ≢ no_fuel
    from true = cc
    from false = cc

parse_rounds-total :
    (n : ℕ) (words : List Text) (opts : Options) (args : List Text)
    → length args ≤ n
    → parse_rounds (suc n) words opts args ≢ no_fuel
unfolding parse_rounds
parse_rounds-total n words opts [] le = cc
parse_rounds-total zero words opts (s ∷ args) le = absurd (omega (arith, le))
parse_rounds-total (suc n) words opts (s ∷ args) le =
    round-total n words (s ∷ args) (parse_flags opts (s ∷ args)) _
      (λ ws o rest le'. parse_rounds-total n ws o rest le')
      (IsNoMore-mono _ _ (parse_flags opts (s ∷ args)) le (parse_flags-IsNoMore opts (s ∷ args)))

-- The loop over the arguments always ends.
pub parse_args-total : (opts : Options) (args : List Text) → parse_args opts args ≢ no_fuel
unfolding parse_args
parse_args-total opts args = parse_rounds-total (length args) [] opts args (omega arith)
