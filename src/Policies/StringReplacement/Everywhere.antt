-- ===== src/Policies/StringReplacement/Everywhere.antt =====
-- The request hook against its description: every text of the messages is replaced, and nothing else.
use luthien_proxy.Base.{
  ℕ, ◌+◌, ◌≤◌, ◌≡◌, refl, ◌∙◌, Bool, true, false, ◌||◌, none, some, List, [], ◌∷◌, arith, is_nil,
  ◌==◌, Bool-cases, inl, inr,
}
use luthien_proxy.Text.{Text, count_from}
use luthien_proxy.Policies.StringReplacement.{
  CaseLib, StringReplacement, replace_text, replace_one, replace_loop, replace_exactly,
  replace_ignoring_case, apply_replacements_with_count,
}
use luthien_proxy.Policies.StringReplacement.Sides.{
  InnerBlock, inner_text, inner_other, whole, parts, absent, Block, text_block, tool_result,
  other_block, Content, plain, blocks, other_content, Message,
}

-- The description
module _ (f : Text → Text) where
  abbrev pub map_inner : List InnerBlock → List InnerBlock
  map_inner [] = []
  map_inner (inner_text (some t) rest ∷ inner) = inner_text (some (f t)) rest ∷ map_inner inner
  map_inner (inner_text none rest ∷ inner) = inner_text none rest ∷ map_inner inner
  map_inner (inner_other rest ∷ inner) = inner_other rest ∷ map_inner inner

  abbrev pub map_block : Block → Block
  map_block (text_block (some t) rest) = text_block (some (f t)) rest
  map_block (text_block none rest) = text_block none rest
  map_block (tool_result (whole t) rest) = tool_result (whole (f t)) rest
  map_block (tool_result (parts inner) rest) = tool_result (parts (map_inner inner)) rest
  map_block (tool_result absent rest) = tool_result absent rest
  map_block (other_block rest) = other_block rest

  abbrev pub map_blocks : List Block → List Block
  map_blocks [] = []
  map_blocks (b ∷ bs) = map_block b ∷ map_blocks bs

  abbrev pub map_content : Content → Content
  map_content (plain t) = plain (f t)
  map_content (blocks bs) = blocks (map_blocks bs)
  map_content (other_content c) = other_content c

  abbrev pub map_messages : List Message → List Message
  map_messages [] = []
  map_messages (m ∷ ms) = (record m { content = map_content m.content }) ∷ map_messages ms

-- A text in which nothing was replaced is the same.
replace_one-idle :
    (lib : CaseLib) (b : Bool) (pair : Text × Text) (text : Text)
    → ((f : Text) (g : Text → Text) (t : Text) → (lib.subn f g t).1 ≡ 0 → (lib.subn f g t).0 ≡ t)
    → (replace_one lib b pair text).1 ≡ 0
    → (replace_one lib b pair text).0 ≡ text
unfolding replace_one replace_exactly replace_ignoring_case
replace_one-idle lib true ([], to) text same h = refl
replace_one-idle lib true (c ∷ f, to) text same h = same (c ∷ f) _ text h
replace_one-idle lib false ([], to) text same h = refl
replace_one-idle lib false (c ∷ f, to) text same h =
    let zero_test : (count_from (c ∷ f) 0 text == 0) ≡ true = rw h refl in rw zero_test refl

replace_loop-idle :
    (lib : CaseLib) (b : Bool) (pairs : List (Text × Text)) (text : Text) (total : ℕ)
    → ((f : Text) (g : Text → Text) (t : Text) → (lib.subn f g t).1 ≡ 0 → (lib.subn f g t).0 ≡ t)
    → (total ≤ (replace_loop lib b pairs (text, total)).1)
      × ((replace_loop lib b pairs (text, total)).1 ≡ total
          → (replace_loop lib b pairs (text, total)).0 ≡ text)
unfolding replace_loop
replace_loop-idle lib b [] text total same = (omega arith, λ h. refl)
replace_loop-idle lib b (pair ∷ pairs) text total same =
    let (replaced, n) = replace_one lib b pair text in
    let (grows, idle) = replace_loop-idle lib b pairs replaced (total + n) same in
    (
      omega (arith, grows),
      λ h.
          let none_here : n ≡ 0 = omega (arith, grows, h) in
          let none_later : (replace_loop lib b pairs (replaced, total + n)).1 ≡ total + n =
            omega (arith, h, none_here) in
          idle none_later ∙ replace_one-idle lib b pair text same none_here,
    )

pub replace_text-idle :
    (lib : CaseLib) (policy : StringReplacement) (text : Text)
    → ((f : Text) (g : Text → Text) (t : Text) → (lib.subn f g t).1 ≡ 0 → (lib.subn f g t).0 ≡ t)
    → (replace_text lib policy text).1 ≡ 0
    → (replace_text lib policy text).0 ≡ text
unfolding replace_text apply_replacements_with_count
replace_text-idle lib policy text same h =
    elim (Bool-cases (is_nil text || is_nil policy.replacements)) [
      | inl e ↦ rw (e, replace_text) refl
      | inr e ↦
          rw (e, replace_text)
            ((replace_loop-idle lib policy.match_capitalization policy.replacements text 0 same).1
              (rw e at h))
    ]
