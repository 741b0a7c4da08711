-- ===== src/Daemon/Proxy/Page.antt =====
-- writeErrorPage of internal/daemon/proxy.go, with html.EscapeString and strings.NewReplacer of Go's library.
use corenet.Common.{
  ℕ, zero, suc, ◌-◌, Text, bytes, Bool, true, false, ◌&&◌, ◌==◌, List, [], ◌∷◌, ◌++◌, Option, none,
  some, length, decimal, if◌then◌else◌,
}
use corenet.Protocol.{version}

-- `html.EscapeString`
unfoldable pub escape_byte : ℕ → Text
escape_byte c =
    if c == b'&'
    then bytes "&amp;"
    else if c == b'\''
    then bytes "&#39;"
    else if c == b'<'
    then bytes "&lt;"
    else if c == b'>'
    then bytes "&gt;"
    else if c == b'"'
    then bytes "&#34;"
    else c ∷ []

unfoldable pub escape_string : Text → Text
unfolding escape_byte
escape_string [] = []
escape_string (c ∷ s) = escape_byte c ++ escape_string s

unfoldable pub has_prefix : Text → Text → Bool
has_prefix [] s = true
has_prefix (c ∷ p) [] = false
has_prefix (c ∷ p) (d ∷ s) = (c == d) && has_prefix p s

-- The first pair whose old text a text starts with.
unfoldable pub match_at : List (Text × Text) → Text → Option (Text × Text)
unfolding has_prefix
match_at [] s = none
match_at ((old, new) ∷ pairs) s =
    let rest = match_at pairs s in if has_prefix old s then some (old, new) else rest

-- `Replace` of strings.NewReplacer, where no old text is empty; the next `skip` bytes are part of an old text.
unfoldable pub replace : List (Text × Text) → ℕ → Text → Text
unfolding match_at
replace pairs skip [] = []
replace pairs (suc skip) (c ∷ s) = replace pairs skip s
replace pairs zero (c ∷ s) = elim (match_at pairs (c ∷ s)) [
  | none ↦ c ∷ replace pairs zero s
  | some p ↦ p.1 ++ replace pairs (length p.0 - 1) s
]

-- `errorPage`
unfoldable pub page_template : Text
page_template =
    bytes
      "<!DOCTYPE html>\n<html lang=\"en\">\n<head>\n<meta charset=\"utf-8\">\n<title>{{status}} {{title}} - CoreNet</title>\n<style>\nbody { font-family: sans-serif; margin: 4rem auto; max-width: 36rem; padding: 0 1rem; }\nh1 { font-size: 1.25rem; }\np { color: #444; }\nfooter { margin-top: 2rem; border-top: 1px solid #ddd; padding-top: 0.5rem; color: #777; font-size: 0.85rem; }\n</style>\n</head>\n<body>\n<h1>{{status}} {{title}}</h1>\n<p>{{message}}</p>\n<footer>CoreNet "
    ++ (version ++ bytes "</footer>\n</body>\n</html>\n")

abbrev pub placeholders : ℕ → Text → Text → List (Text × Text)
unfolding decimal escape_string
placeholders status title message =
    (bytes "{{status}}", decimal status)
    ∷ (bytes "{{title}}", escape_string title)
    ∷ (bytes "{{message}}", escape_string message)
    ∷ []

-- `writeErrorPage`: the body.
unfoldable pub write_error_page : ℕ → Text → Text → Text
unfolding replace placeholders page_template
write_error_page status title message = replace (placeholders status title message) 0 page_template

-- What HTML reads in the place of the five escapes.
abbrev pub entities : List (Text × Text)
entities =
    (bytes "&amp;", bytes "&")
    ∷ (bytes "&#39;", bytes "'")
    ∷ (bytes "&lt;", bytes "<")
    ∷ (bytes "&gt;", bytes ">")
    ∷ (bytes "&#34;", bytes "\"")
    ∷ []

-- A text as a browser reads it.
unfoldable pub unescape : Text → Text
unfolding replace
unescape s = replace entities 0 s
