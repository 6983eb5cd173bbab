-- ===== src/Policies/StringReplacement.antt =====
-- src/luthien_proxy/policies/string_replacement_policy.py: the replacements themselves. The case of
-- characters and regular expressions that ignore it are a parameter.
pub mod Stream
pub mod Sides
pub mod Lengths
pub mod Held
pub mod Whole
pub mod Unchanged
pub mod Everywhere
pub mod Requests
mod Tests
use luthien_proxy.Base.{
  ℕ, zero, suc, ◌+◌, ◌-◌, Bool, true, false, not, ◌&&◌, ◌||◌, Option, none, some, List, [], ◌∷◌,
  ◌++◌, if◌then◌else◌, is_nil, length, ◌==◌, leb,
}
use luthien_proxy.Text.{Text, replace_from, count_from}

-- `str.isalpha` and so on of one character, `str.upper` and so on of a text, and
-- `re.compile(re.escape(source), re.IGNORECASE).subn(f, text)`
pub record CaseLib : Type 0 where
  pub is_alpha : ℕ → Bool
  pub is_upper : ℕ → Bool
  pub is_lower : ℕ → Bool
  pub upper : Text → Text
  pub lower : Text → Text
  pub capitalize : Text → Text
  pub subn : Text → (Text → Text) → Text → Text × ℕ

pub data Pattern : Type 0 where
  upper lower title mixed : Pattern

abbrev pub all_of : (ℕ → Bool) → Text → Bool
all_of test [] = true
all_of test (c ∷ s) = test c && all_of test s

unfoldable pub alpha_chars : CaseLib → Text → Text
alpha_chars lib [] = []
alpha_chars lib (c ∷ s) = let rest = alpha_chars lib s in if lib.is_alpha c then c ∷ rest else rest

abbrev pub pattern_of : CaseLib → Text → Pattern
pattern_of lib [] = lower
pattern_of lib (c ∷ s) =
    if all_of lib.is_upper (c ∷ s)
    then upper
    else if all_of lib.is_lower (c ∷ s)
    then lower
    else if lib.is_upper c && all_of lib.is_lower s
    then title
    else mixed

-- `_detect_capitalization_pattern`
unfoldable pub detect_capitalization_pattern : CaseLib → Text → Pattern
unfolding alpha_chars
detect_capitalization_pattern lib text = pattern_of lib (alpha_chars lib text)

-- `source_cases[alpha_pos]`, if there is one
abbrev pub case_at : CaseLib → ℕ → Text → Option Bool
case_at lib n [] = none
case_at lib zero (c ∷ s) = some (lib.is_upper c)
case_at lib (suc n) (c ∷ s) = case_at lib n s

abbrev pub in_case : CaseLib → ℕ → Option Bool → Text
in_case lib c none = c ∷ []
in_case lib c (some true) = lib.upper (c ∷ [])
in_case lib c (some false) = lib.lower (c ∷ [])

-- The loop over the replacement for a mixed pattern, after `alpha_pos` letters
unfoldable pub mixed_case : CaseLib → Text → ℕ → Text → Text
mixed_case lib source alpha_pos [] = []
mixed_case lib source alpha_pos (c ∷ s) = elim (lib.is_alpha c) [
  | true ↦ in_case lib c (case_at lib alpha_pos source) ++ mixed_case lib source (suc alpha_pos) s
  | false ↦ c ∷ mixed_case lib source alpha_pos s
]

-- `_apply_capitalization_pattern`
unfoldable pub apply_capitalization_pattern : CaseLib → Text → Text → Text
unfolding detect_capitalization_pattern mixed_case
apply_capitalization_pattern lib source replacement =
    elim (detect_capitalization_pattern lib source) [
      | upper ↦ lib.upper replacement
      | lower ↦ lib.lower replacement
      | title ↦ lib.capitalize replacement
      | mixed ↦ mixed_case lib (alpha_chars lib source) 0 replacement
    ]

-- One round of the loop of `_apply_with_compiled_count`; an empty source has no pattern
unfoldable pub replace_ignoring_case : CaseLib → Text × Text → Text → Text × ℕ
unfolding apply_capitalization_pattern
replace_ignoring_case lib ([], to_str) text = (text, 0)
replace_ignoring_case lib (from_str, to_str) text =
    lib.subn from_str (λ m. apply_capitalization_pattern lib m to_str) text

-- One round of the loop of `apply_replacements_with_count`
unfoldable pub replace_exactly : Text × Text → Text → Text × ℕ
unfolding replace_from count_from
replace_exactly ([], to_str) text = (text, 0)
replace_exactly (from_str, to_str) text =
    let n = count_from from_str 0 text in
    ((if n == 0 then text else replace_from from_str to_str 0 text), n)

unfoldable pub replace_one : CaseLib → Bool → Text × Text → Text → Text × ℕ
unfolding replace_ignoring_case replace_exactly
replace_one lib true pair text = replace_ignoring_case lib pair text
replace_one lib false pair text = replace_exactly pair text

-- The loop, with the total so far
unfoldable pub replace_loop : CaseLib → Bool → List (Text × Text) → Text × ℕ → Text × ℕ
unfolding replace_one
replace_loop lib ignoring_case [] (text, total) = (text, total)
replace_loop lib ignoring_case (pair ∷ pairs) (text, total) =
    let (replaced, n) = replace_one lib ignoring_case pair text in
    replace_loop lib ignoring_case pairs (replaced, total + n)

-- `apply_replacements_with_count`, and `_apply_with_compiled_count` if the case is ignored
unfoldable pub apply_replacements_with_count : CaseLib → Bool → List (Text × Text) → Text → Text × ℕ
unfolding replace_loop
apply_replacements_with_count lib match_capitalization replacements text =
    if is_nil text || is_nil replacements
    then (text, 0)
    else replace_loop lib match_capitalization replacements (text, 0)

pub data ApplyTo : Type 0 where
  request response both : ApplyTo

pub record StringReplacementConfig : Type 0 where
  pub replacements : List (Text × Text)
  pub match_capitalization : Bool
  pub apply_to : ApplyTo

-- The policy, without what it only computes ahead
pub record StringReplacement : Type 0 where
  pub replacements : List (Text × Text)
  pub match_capitalization : Bool
  pub apply_to_request : Bool
  pub apply_to_response : Bool
  pub buffer_size : ℕ

unfoldable pub longest_source : List (Text × Text) → ℕ
longest_source [] = 0
longest_source ((from_str, _) ∷ pairs) =
    let rest = longest_source pairs in if leb rest (length from_str) then length from_str else rest

abbrev pub covers_request : ApplyTo → Bool
covers_request response = false
covers_request _ = true

abbrev pub covers_response : ApplyTo → Bool
covers_response request = false
covers_response _ = true

-- `__init__`
unfoldable pub new_policy : StringReplacementConfig → StringReplacement
unfolding longest_source
new_policy config = record {
  replacements = config.replacements;
  match_capitalization = config.match_capitalization;
  apply_to_request = covers_request config.apply_to;
  apply_to_response = covers_response config.apply_to;
  buffer_size = longest_source config.replacements - 1;
}

-- `_apply_replacements_with_count` of the policy
unfoldable pub replace_text : CaseLib → StringReplacement → Text → Text × ℕ
unfolding apply_replacements_with_count
replace_text lib policy text =
    apply_replacements_with_count lib policy.match_capitalization policy.replacements text
