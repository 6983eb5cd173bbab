-- ===== src/Session/Escape.antt =====
-- What the login page shows of a URL.
use luthien_proxy.Base.{
  ℕ, ◌≡◌, refl, ◌∙◌, Bool, true, false, ◌||◌, [], ◌∷◌, ◌++◌, arith, ◌==◌, if◌then◌else◌,
}
use luthien_proxy.Text.{Text, codes, has_char, replace_char}
use luthien_proxy.Text.Laws.{has_char-append, replace_char-append}
use luthien_proxy.Session.{escape_html_attr}

-- One character, as HTML writes it in an attribute
abbrev pub escape_char : ℕ → Text
escape_char c =
    if c == 38
    then codes "&amp;"
    else if c == 60
    then codes "&lt;"
    else if c == 62
    then codes "&gt;"
    else if c == 34
    then codes "&quot;"
    else if c == 39
    then codes "&#x27;"
    else c ∷ []

unfoldable pub escape_each : Text → Text
escape_each [] = []
escape_each (c ∷ s) = escape_char c ++ escape_each s

escape_html_attr-append :
    (s t : Text) → escape_html_attr (s ++ t) ≡ escape_html_attr s ++ escape_html_attr t
unfolding escape_html_attr
escape_html_attr-append s t =
    rw
      (
        replace_char-append, replace_char-append, replace_char-append, replace_char-append,
        replace_char-append,
      )
      refl

escape_html_attr-char : (c : ℕ) → escape_html_attr (c ∷ []) ≡ escape_char c
unfolding escape_html_attr replace_char
escape_html_attr-char c = ground arith

escape_html_attr-nil : escape_html_attr [] ≡ []
unfolding escape_html_attr replace_char
escape_html_attr-nil = refl

-- The five replacements, one after the other, escape each character of the text once.
pub escape_html_attr-eq-each : (s : Text) → escape_html_attr s ≡ escape_each s
unfolding escape_each
escape_html_attr-eq-each [] = escape_html_attr-nil
escape_html_attr-eq-each (c ∷ s) =
    escape_html_attr-append (c ∷ []) s
    ∙ rw (escape_html_attr-char c, escape_html_attr-eq-each s) refl

-- A character that ends or opens an attribute or a tag
abbrev pub is_markup : ℕ → Bool
is_markup c = (c == 60) || (c == 62) || (c == 34) || (c == 39)

escape_char-safe : (c d : ℕ) → is_markup c ≡ true → has_char c (escape_char d) ≡ false
unfolding has_char
escape_char-safe c d h = ground arith

escape_each-safe : (c : ℕ) (s : Text) → is_markup c ≡ true → has_char c (escape_each s) ≡ false
unfolding escape_each has_char
escape_each-safe c [] h = refl
escape_each-safe c (d ∷ s) h =
    rw (has_char-append, escape_char-safe c d h, escape_each-safe c s h) refl

-- No character of the escaped text is an angle bracket or a quotation mark.
pub escape_html_attr-safe :
    (c : ℕ) (s : Text) → is_markup c ≡ true → has_char c (escape_html_attr s) ≡ false
escape_html_attr-safe c s h = rw escape_html_attr-eq-each (escape_each-safe c s h)
