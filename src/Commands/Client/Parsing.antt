-- ===== src/Commands/Client/Parsing.antt =====
-- parseArgs of cmd/corenet/main.go finds the words and the options wherever they stand.
use corenet.Common.{
  ℕ, zero, suc, ◌≤◌, Text, bytes, ◌≡◌, ◌≢◌, refl, subst, sym, ap, ◌∙◌, true, List, [], ◌∷◌, ◌++◌,
  arith, length, All, append-nil, append_assoc,
}
use corenet.Commands.Client.Options.{
  Options, word, token, parsed, parse_flags, positional, no_fuel, round, parse_rounds, parse_args,
}
use corenet.Commands.Client.Ending.{parse_args-total}

-- An argument of the command line: a word, or an option with its value.
pub data Item : Type 0 where
  a_word : Text → Item
  a_config : Text → Item
  a_socket : Text → Item
  a_json : Item

abbrev pub render : List Item → List Text
render [] = []
render (a_word w ∷ items) = w ∷ render items
render (a_config path ∷ items) = bytes "--config" ∷ path ∷ render items
render (a_socket path ∷ items) = bytes "--socket" ∷ path ∷ render items
render (a_json ∷ items) = bytes "--json" ∷ render items

-- The words, each of which is no flag.
abbrev pub words_of : List Item → List Text
words_of [] = []
words_of (a_word w ∷ items) = w ∷ words_of items
words_of (a_config path ∷ items) = words_of items
words_of (a_socket path ∷ items) = words_of items
words_of (a_json ∷ items) = words_of items

unfoldable pub IsWord : Text → Type 0
unfolding token
IsWord w = token w ≡ word

-- The options, of which a later one counts.
abbrev pub options_of : Options → List Item → Options
options_of opts [] = opts
options_of opts (a_word w ∷ items) = options_of opts items
options_of opts (a_config path ∷ items) = options_of (record opts { config = path }) items
options_of opts (a_socket path ∷ items) = options_of (record opts { socket = path }) items
options_of opts (a_json ∷ items) = options_of (record opts { json = true }) items

parse_flags-json :
    (opts : Options) (args : List Text)
    → parse_flags opts (bytes "--json" ∷ args) ≡ parse_flags (record opts { json = true }) args
unfolding parse_flags
parse_flags-json opts [] = refl
parse_flags-json opts (v ∷ args) = refl

parse_flags-config :
    (opts : Options) (v : Text) (args : List Text)
    → parse_flags opts (bytes "--config" ∷ v ∷ args) ≡ parse_flags (record opts { config = v }) args
unfolding parse_flags
parse_flags-config opts v args = refl

parse_flags-socket :
    (opts : Options) (v : Text) (args : List Text)
    → parse_flags opts (bytes "--socket" ∷ v ∷ args) ≡ parse_flags (record opts { socket = v }) args
unfolding parse_flags
parse_flags-socket opts v args = refl

parse_flags-word :
    (opts : Options) (w : Text) (args : List Text)
    → IsWord w
    → parse_flags opts (w ∷ args) ≡ parsed opts (w ∷ args)
unfolding parse_flags IsWord
parse_flags-word opts w [] h = rw (h, parse_flags) refl
parse_flags-word opts w (v ∷ args) h = rw (h, parse_flags) refl

-- What the loop does with arguments, whichever there are.
parse_rounds-round :
    (n : ℕ) (words : List Text) (opts : Options) (args : List Text)
    → parse_rounds (suc (suc n)) words opts args
      ≡ round words args (λ ws o rest. parse_rounds (suc n) ws o rest) (parse_flags opts args)
unfolding parse_rounds round parse_flags
parse_rounds-round n words opts [] = refl
parse_rounds-round n words opts (s ∷ args) = refl

round-render :
    (items : List Item) (n : ℕ) (words args : List Text) (opts : Options)
    → All IsWord (words_of items)
    → length (render items) ≤ suc n
    → round words args
        (λ ws o rest. parse_rounds (suc n) ws o rest)
        (parse_flags opts (render items))
      ≡ positional (words ++ words_of items) (options_of opts items)
unfolding round
round-render [] n words args opts w le =
    unfold parse_flags parse_rounds in ap (λ ws. positional ws opts) (sym (append-nil words))
round-render (a_config path ∷ items) n words args opts w le =
    ap (λ f. round words args (λ ws o rest. parse_rounds (suc n) ws o rest) f)
      (parse_flags-config opts path (render items))
    ∙ round-render items n words args (record opts { config = path }) w (omega (arith, le))
round-render (a_socket path ∷ items) n words args opts w le =
    ap (λ f. round words args (λ ws o rest. parse_rounds (suc n) ws o rest) f)
      (parse_flags-socket opts path (render items))
    ∙ round-render items n words args (record opts { socket = path }) w (omega (arith, le))
round-render (a_json ∷ items) n words args opts w le =
    ap (λ f. round words args (λ ws o rest. parse_rounds (suc n) ws o rest) f)
      (parse_flags-json opts (render items))
    ∙ round-render items n words args (record opts { json = true }) w (omega (arith, le))
round-render (a_word x ∷ []) zero words args opts w le =
    ap (λ f. round words args (λ ws o rest. parse_rounds 1 ws o rest) f)
      (parse_flags-word opts x [] w.0)
    ∙ unfold parse_rounds in refl
round-render (a_word x ∷ a_word y ∷ items) zero words args opts w le = absurd (omega (arith, le))
round-render (a_word x ∷ a_config y ∷ items) zero words args opts w le = absurd (omega (arith, le))
round-render (a_word x ∷ a_socket y ∷ items) zero words args opts w le = absurd (omega (arith, le))
round-render (a_word x ∷ a_json ∷ items) zero words args opts w le = absurd (omega (arith, le))
round-render (a_word x ∷ items) (suc n) words args opts w le =
    ap (λ f. round words args (λ ws o rest. parse_rounds (suc (suc n)) ws o rest) f)
      (parse_flags-word opts x (render items) w.0)
    ∙ parse_rounds-round n (words ++ x ∷ []) opts (render items)
    ∙ round-render items n (words ++ x ∷ []) (render items) opts w.1 (omega (arith, le))
    ∙ ap (λ ws. positional ws (options_of opts items))
        (append_assoc words (x ∷ []) (words_of items))

-- Whatever the arguments are, parseArgs comes to an end. Where they are words that are no flags and the
-- options `--config`, `--socket` and `--json` with their values, in any order, it returns the words in their
-- order, and the options, of which a later one counts.
pub parse_args_lem :
    (opts : Options) (args : List Text) (items : List Item)
    → All IsWord (words_of items)
    → (parse_args opts args ≢ no_fuel)
      × (parse_args opts (render items) ≡ positional (words_of items) (options_of opts items))
unfolding parse_args
parse_args_lem opts args items w = (parse_args-total opts args, rounds items (render items) refl w)
  where
    none_left :
        (items : List Item)
        → render items ≡ []
        → parse_rounds 1 [] opts [] ≡ positional (words_of items) (options_of opts items)
    none_left [] same = unfold parse_rounds in refl
    none_left (a_word x ∷ items) same = absurd (cc same)
    none_left (a_config x ∷ items) same = absurd (cc same)
    none_left (a_socket x ∷ items) same = absurd (cc same)
    none_left (a_json ∷ items) same = absurd (cc same)

    rounds :
        (items : List Item) (args : List Text)
        → render items ≡ args
        → All IsWord (words_of items)
        → parse_rounds (suc (length args)) [] opts args
          ≡ positional (words_of items) (options_of opts items)
    rounds items [] same w = none_left items same
    rounds items (s ∷ args) same w =
        parse_rounds-round (length args) [] opts (s ∷ args)
        ∙ ap
            (λ l.
              round [] (s ∷ args) (λ ws o rest. parse_rounds (suc (length args)) ws o rest)
                (parse_flags opts l))
            (sym same)
        ∙ round-render items (length args) [] (s ∷ args) opts w
            (subst (λ l. length l ≤ suc (length args)) (sym same) (omega arith))
