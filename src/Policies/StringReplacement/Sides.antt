-- ===== src/Policies/StringReplacement/Sides.antt =====
-- The non-streaming hooks. A block keeps its type, its text and its other fields; a text that is absent
-- or not a string is `none`.
use luthien_proxy.Base.{
  ℕ, ◌+◌, not, ◌||◌, Option, none, some, List, [], ◌∷◌, if◌then◌else◌, is_nil, length, ◌==◌,
}
use luthien_proxy.Json.{JsonObject}
use luthien_proxy.Text.{Text}
use luthien_proxy.Policies.StringReplacement.{CaseLib, StringReplacement, replace_text}
use luthien_proxy.Policies.StringReplacement.Stream.{ModifiedEvent}

-- A block inside a tool result
pub data InnerBlock : Type 0 where
  inner_text : Option Text → JsonObject → InnerBlock
  inner_other : JsonObject → InnerBlock

pub data ToolContent : Type 0 where
  whole : Text → ToolContent
  parts : List InnerBlock → ToolContent
  absent : ToolContent

pub data Block : Type 0 where
  text_block : Option Text → JsonObject → Block
  tool_result : ToolContent → JsonObject → Block
  other_block : JsonObject → Block

pub data Content : Type 0 where
  plain : Text → Content
  blocks : List Block → Content
  other_content : JsonObject → Content

pub record Message : Type 0 where
  pub content : Content
  pub rest : JsonObject

abbrev pub no_changes : ModifiedEvent
no_changes = record {
  blocks_modified = 0;
  total_replacements = 0;
  original_length = 0;
  transformed_length = 0;
}

-- What `_apply_to_block_in_place` returns of a block that has text
pub record Stats : Type 0 where
  pub count : ℕ
  pub before : ℕ
  pub behind : ℕ

-- `if count > 0: text = transformed`, with the statistics
abbrev pub settle : Text → Text × ℕ → Text × Stats
settle text (transformed, count) = (
  (if count == 0 then text else transformed),
  record { count = count; before = length text; behind = length transformed },
)

unfoldable pub change : CaseLib → StringReplacement → Text → Text × Stats
unfolding replace_text
change lib policy text = settle text (replace_text lib policy text)

abbrev pub plus : Stats → Stats → Stats
plus s t = record {
  count = s.count + t.count;
  before = s.before + t.before;
  behind = s.behind + t.behind;
}

abbrev pub nothing : Stats
nothing = record { count = 0; before = 0; behind = 0 }

-- The statistics of a part, if something was replaced in it
abbrev pub if_changed : Stats → Stats
if_changed s = if s.count == 0 then nothing else s

-- The loop over the parts of a tool result
unfoldable pub change_parts :
    CaseLib → StringReplacement → List InnerBlock → List InnerBlock × Stats
unfolding change
change_parts lib policy [] = ([], nothing)
change_parts lib policy (inner_text (some text) rest ∷ inner) =
    let (text1, s) = change lib policy text in
    let (inner1, t) = change_parts lib policy inner in
    (inner_text (some text1) rest ∷ inner1, plus (if_changed s) t)
change_parts lib policy (block ∷ inner) =
    let (inner1, t) = change_parts lib policy inner in (block ∷ inner1, t)

-- `_apply_to_block_in_place`; the statistics of a block that is ignored are `none`
unfoldable pub apply_to_block : CaseLib → StringReplacement → Block → Block × Option Stats
unfolding change change_parts
apply_to_block lib policy (text_block (some text) rest) =
    let (text1, s) = change lib policy text in (text_block (some text1) rest, some s)
apply_to_block lib policy (tool_result (whole text) rest) =
    let (text1, s) = change lib policy text in (tool_result (whole text1) rest, some s)
apply_to_block lib policy (tool_result (parts inner) rest) =
    let (inner1, s) = change_parts lib policy inner in (tool_result (parts inner1) rest, some s)
apply_to_block lib policy block = (block, none)

-- The totals after a block
abbrev pub add_stats : Option Stats → ModifiedEvent → ModifiedEvent
add_stats none totals = totals
add_stats (some s) totals = if s.count == 0 then totals else record {
  blocks_modified = totals.blocks_modified + 1;
  total_replacements = totals.total_replacements + s.count;
  original_length = totals.original_length + s.before;
  transformed_length = totals.transformed_length + s.behind;
}

unfoldable pub apply_to_blocks :
    CaseLib → StringReplacement → List Block → ModifiedEvent → List Block × ModifiedEvent
unfolding apply_to_block
apply_to_blocks lib policy [] totals = ([], totals)
apply_to_blocks lib policy (block ∷ rest) totals =
    let (block1, s) = apply_to_block lib policy block in
    let (rest1, totals1) = apply_to_blocks lib policy rest (add_stats s totals) in
    (block1 ∷ rest1, totals1)

unfoldable pub apply_to_content :
    CaseLib → StringReplacement → Content → ModifiedEvent → Content × ModifiedEvent
unfolding change apply_to_blocks
apply_to_content lib policy (plain text) totals =
    let (text1, s) = change lib policy text in (plain text1, add_stats (some s) totals)
apply_to_content lib policy (blocks bs) totals =
    let (bs1, totals1) = apply_to_blocks lib policy bs totals in (blocks bs1, totals1)
apply_to_content lib policy (other_content c) totals = (other_content c, totals)

-- The loop over the messages
unfoldable pub apply_to_messages :
    CaseLib → StringReplacement → List Message → ModifiedEvent → List Message × ModifiedEvent
unfolding apply_to_content
apply_to_messages lib policy [] totals = ([], totals)
apply_to_messages lib policy (message ∷ rest) totals =
    let (content1, totals1) = apply_to_content lib policy message.content totals in
    let (rest1, totals2) = apply_to_messages lib policy rest totals1 in
    ((record message { content = content1 }) ∷ rest1, totals2)

-- `on_anthropic_request` of the messages, with the event that is recorded
unfoldable pub replacement_request :
    CaseLib → StringReplacement → List Message → List Message × Option ModifiedEvent
unfolding apply_to_messages
replacement_request lib policy messages =
    if not policy.apply_to_request || is_nil policy.replacements || is_nil messages
    then (messages, none)
    else let (messages1, totals) = apply_to_messages lib policy messages no_changes in
      if totals.blocks_modified == 0 then (messages, none) else (messages1, some totals)

-- The loop of `on_anthropic_response`: only text blocks, which always get the new text
unfoldable pub replace_content :
    CaseLib → StringReplacement → List Block → ModifiedEvent → List Block × ModifiedEvent
unfolding replace_text
replace_content lib policy [] totals = ([], totals)
replace_content lib policy (text_block (some text) rest ∷ bs) totals =
    let (transformed, count) = replace_text lib policy text in
    let s : Stats = record { count = count; before = length text; behind = length transformed } in
    let (bs1, totals1) = replace_content lib policy bs (add_stats (some s) totals) in
    (text_block (some transformed) rest ∷ bs1, totals1)
replace_content lib policy (block ∷ bs) totals =
    let (bs1, totals1) = replace_content lib policy bs totals in (block ∷ bs1, totals1)

-- `on_anthropic_response` of the content, with the event that is recorded
unfoldable pub replacement_response :
    CaseLib → StringReplacement → List Block → List Block × Option ModifiedEvent
unfolding replace_content
replacement_response lib policy content =
    let (content1, totals) = replace_content lib policy content no_changes in
    if not policy.apply_to_response
    then (content, none)
    else if totals.blocks_modified == 0
    then (content1, none)
    else (content1, some totals)
