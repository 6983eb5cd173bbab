-- ===== src/Pipeline/UpstreamHeaders.antt =====
-- The headers that the operator adds to upstream requests (src/luthien_proxy/pipeline/upstream_headers.py). A dictionary
-- is an association list of which a look-up takes the first entry; the order of its entries is not
-- modelled. `str.lower` and the environment are parameters.
pub mod Clean
pub mod Merge
mod Tests
use luthien_proxy.Base.{
  ℕ, zero, suc, ◌+◌, Bool, true, false, not, ◌&&◌, ◌||◌, Option, none, some, List, [], ◌∷◌, ◌++◌,
  if◌then◌else◌, is_nil, length, ◌==◌,
}
use luthien_proxy.Text.{Text, codes, text_eq, starts_with, after, replace_char}

abbrev pub Headers : Type 0
Headers = List (Text × Text)

-- What the templates may refer to
pub record TemplateEnv : Type 0 where
  pub session_id : Option Text
  pub request_path : Text
  pub environ : Text → Option Text

abbrev pub or_empty : Option Text → Text
or_empty none = []
or_empty (some t) = t

-- `_replace` of the variable between the braces; an unknown one stays
unfoldable pub variable_value : TemplateEnv → Text → Text
unfolding text_eq starts_with after
variable_value env var =
    if text_eq var (codes "session_id")
    then or_empty env.session_id
    else if text_eq var (codes "request_path")
    then env.request_path
    else if starts_with var (codes "env.")
    then or_empty (env.environ (after 4 var))
    else codes "${" ++ (var ++ codes "}")

-- What stands before the first closing brace
unfoldable pub before_brace : Text → Option Text
before_brace [] = none
before_brace (c ∷ s) = elim (c == 125) [
  | true ↦ some []
  | false ↦ elim (before_brace s) [ none ↦ none | some t ↦ some (c ∷ t) ]
]

-- The variable of a match of `_TEMPLATE_PATTERN` at the start of the text
abbrev pub variable_of : Option Text → Option Text
variable_of none = none
variable_of (some []) = none
variable_of (some (c ∷ t)) = some (c ∷ t)

unfoldable pub match_variable : Text → Option Text
unfolding before_brace starts_with after
match_variable s =
    if starts_with s (codes "${") then variable_of (before_brace (after 2 s)) else none

-- `_TEMPLATE_PATTERN.sub(_replace, template)`; the first `skip` characters belong to a match
unfoldable pub substitute : TemplateEnv → ℕ → Text → Text
unfolding match_variable variable_value
substitute env skip [] = []
substitute env (suc skip) (c ∷ s) = substitute env skip s
substitute env zero (c ∷ s) = elim (match_variable (c ∷ s)) [
  | some var ↦ variable_value env var ++ substitute env (length var + 2) s
  | none ↦ c ∷ substitute env 0 s
]

-- `_expand_template`
unfoldable pub expand_template : TemplateEnv → Text → Text
unfolding substitute replace_char
expand_template env template =
    replace_char 0 [] (replace_char 10 [] (replace_char 13 [] (substitute env 0 template)))

unfoldable pub expand_each : TemplateEnv → Headers → Headers
unfolding expand_template
expand_each env [] = []
expand_each env ((name, template) ∷ templates) =
    let rest = expand_each env templates in
    let value = expand_template env template in if is_nil value then rest else (name, value) ∷ rest

abbrev pub or_none : Headers → Option Headers
or_none [] = none
or_none (h ∷ hs) = some (h ∷ hs)

-- `expand_upstream_headers`, given the templates
unfoldable pub expand_upstream_headers : TemplateEnv → Headers → Option Headers
unfolding expand_each
expand_upstream_headers env templates = or_none (expand_each env templates)

unfoldable pub lookup_header : Text → Headers → Option Text
unfolding text_eq
lookup_header k [] = none
lookup_header k ((j, v) ∷ h) = if text_eq j k then some v else lookup_header k h

-- `lower(k) in {lower(j) for j in base}`
unfoldable pub collides : (Text → Text) → Text → Headers → Bool
unfolding text_eq
collides lower k [] = false
collides lower k ((j, v) ∷ h) = text_eq (lower j) (lower k) || collides lower k h

-- The entries of `upstream` that do not collide
unfoldable pub not_in_base : (Text → Text) → Headers → Headers → Headers
unfolding collides
not_in_base lower base [] = []
not_in_base lower base ((k, v) ∷ h) =
    let rest = not_in_base lower base h in if collides lower k base then rest else (k, v) ∷ rest

-- `{**first, **second}`
abbrev pub union : Headers → Headers → Headers
union first second = second ++ first

abbrev pub headers_of : Option Headers → Headers
headers_of none = []
headers_of (some h) = h

-- `merge_forwarded_headers`
unfoldable pub merge_forwarded_headers :
    (Text → Text) → Option Headers → Option Headers → Option Headers
unfolding not_in_base
merge_forwarded_headers lower base upstream =
    if is_nil (headers_of upstream)
    then or_none (headers_of base)
    else if is_nil (headers_of base)
    then upstream
    else some (union (not_in_base lower (headers_of base) (headers_of upstream)) (headers_of base))
