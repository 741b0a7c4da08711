-- ===== src/Daemon/Proxy/Escaped.antt =====
-- An error page of internal/daemon/proxy.go shows a message and never takes a part of it for markup.
use corenet.Common.{
  ℕ, Text, bytes, ◌≡◌, refl, sym, ap, ◌∙◌, false, [], ◌∷◌, ◌++◌, arith, contains, contains-append,
  append_assoc, decimal,
}
use corenet.Daemon.Proxy.Page.{escape_byte, escape_string, write_error_page, unescape, replace}

unescape-escape_byte : (c : ℕ) (s : Text) → unescape (escape_byte c ++ s) ≡ c ∷ unescape s
unfolding unescape escape_byte replace
unescape-escape_byte c s = ground arith

unescape-escape_string : (s : Text) → unescape (escape_string s) ≡ s
unfolding escape_string
unescape-escape_string [] = unfold unescape replace in refl
unescape-escape_string (c ∷ s) =
    unescape-escape_byte c (escape_string s) ∙ ap (λ (t : Text). c ∷ t) (unescape-escape_string s)

-- No byte of a text opens or closes a tag or an attribute.
pub record IsNoMarkup (s : Text) : Type 0 where
  pub opens : contains b'<' s ≡ false
  pub closes : contains b'>' s ≡ false
  pub quotes : contains b'"' s ≡ false
  pub single_quotes : contains b'\'' s ≡ false

escape_byte-IsNoMarkup : (c : ℕ) → IsNoMarkup (escape_byte c)
unfolding escape_byte contains
escape_byte-IsNoMarkup c = record {
  opens = ground arith;
  closes = ground arith;
  quotes = ground arith;
  single_quotes = ground arith;
}

append-IsNoMarkup : (s t : Text) → IsNoMarkup s → IsNoMarkup t → IsNoMarkup (s ++ t)
append-IsNoMarkup s t h k = record {
  opens = contains-append b'<' s t ∙ rw (h.opens, k.opens) refl;
  closes = contains-append b'>' s t ∙ rw (h.closes, k.closes) refl;
  quotes = contains-append b'"' s t ∙ rw (h.quotes, k.quotes) refl;
  single_quotes = contains-append b'\'' s t ∙ rw (h.single_quotes, k.single_quotes) refl;
}

escape_string-IsNoMarkup : (s : Text) → IsNoMarkup (escape_string s)
unfolding escape_string
escape_string-IsNoMarkup [] =
    unfold contains in (record { opens = refl; closes = refl; quotes = refl; single_quotes = refl })
escape_string-IsNoMarkup (c ∷ s) =
    append-IsNoMarkup (escape_byte c) (escape_string s) (escape_byte-IsNoMarkup c)
      (escape_string-IsNoMarkup s)

-- What stands before a message: parts of the page, of which two come twice.
before_message : (a d t b c : Text) → Text
before_message a d t b c = a ++ (d ++ (b' ' ∷ (t ++ (b ++ (d ++ (b' ' ∷ (t ++ c)))))))

before_message-append :
    (a d t b c x : Text)
    → a ++ (d ++ (b' ' ∷ (t ++ (b ++ (d ++ (b' ' ∷ (t ++ (c ++ x))))))))
      ≡ before_message a d t b c ++ x
unfolding before_message
before_message-append a d t b c x = sym (simp append_assoc)

-- The parts of the template between the placeholders.
abbrev head_part : Text
head_part = bytes "<!DOCTYPE html>\n<html lang=\"en\">\n<head>\n<meta charset=\"utf-8\">\n<title>"

abbrev style_part : Text
style_part =
    bytes
      " - CoreNet</title>\n<style>\nbody { font-family: sans-serif; margin: 4rem auto; max-width: 36rem; padding: 0 1rem; }\nh1 { font-size: 1.25rem; }\np { color: #444; }\nfooter { margin-top: 2rem; border-top: 1px solid #ddd; padding-top: 0.5rem; color: #777; font-size: 0.85rem; }\n</style>\n</head>\n<body>\n<h1>"

abbrev end_part : Text
end_part = bytes "</p>\n<footer>CoreNet 0.2</footer>\n</body>\n</html>\n"

-- An error page shows its message in one place, whatever the message holds, placeholders of the template
-- included: what stands before and after depends on the status and the title only; a browser reads the
-- message in that place; and no byte there opens or closes a tag or an attribute.
pub write_error_page_lem :
    (status : ℕ) (title : Text)
    → (before : Text) × (after : Text) × ((message : Text)
        → (write_error_page status title message ≡ before ++ (escape_string message ++ after))
          × (unescape (escape_string message) ≡ message)
          × IsNoMarkup (escape_string message))
unfolding write_error_page
write_error_page_lem status title =
    let d = decimal status in
    let t = escape_string title in
    let c = bytes "</h1>\n<p>" in
    (
      before_message head_part d t style_part c,
      end_part,
      λ message. (
        before_message-append head_part d t style_part c (escape_string message ++ end_part),
        unescape-escape_string message,
        escape_string-IsNoMarkup message,
      ),
    )
