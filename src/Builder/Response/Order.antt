-- ===== src/Builder/Response/Order.antt =====
-- What a composed response holds.
use luthien_proxy.Base.{
  ◌≡◌, ◌≢◌, ◌∙◌, refl, sym, String, str_eq, str_eq_iff, Bool, Bool-cases, true, false, ◌⊎◌, inl,
  inr, ◌&&◌, Option, none, some, List, [], ◌∷◌, ◌++◌, map, any_of, is_nil, if◌then◌else◌, arith,
}
use luthien_proxy.Json.{JsonValue, JsonObject, JsonLib}
use luthien_proxy.Stream.Event.{StopReason, tool_use, end_turn}
use luthien_proxy.Builder
use luthien_proxy.Builder.Types.{ContentBlock, QueuedTool, Builder}
use luthien_proxy.Builder.Dispatch.{marker_text, correct_stop_reason}
use luthien_proxy.Builder.Response.{
  AnthropicResponse, ToolBlockHandler, commit_blocks, is_tool_block, tool_block, optional_text,
  or_fallback, parsed_or_raw, parse_tool_input, new_content, to_anthropic_response,
  compose_tool_only_response,
}
use luthien_proxy.Builder.Response.Blocks.{no_tools, Open, AllDecide, commit_blocks-Open}

abbrev pub only_tools : List ContentBlock → Bool
only_tools [] = true
only_tools (block ∷ blocks) = is_tool_block block && only_tools blocks

-- Behind the first tool_use block stand only tool_use blocks.
unfoldable pub trailing_tools : List ContentBlock → Bool
trailing_tools [] = true
trailing_tools (block ∷ blocks) =
    let rest = trailing_tools blocks in if is_tool_block block then only_tools blocks else rest

-- The id, the name and the input of each tool_use block
unfoldable pub block_calls : List ContentBlock → List (String × String × JsonValue)
block_calls [] = []
block_calls (ContentBlock.tool_use id name input ∷ blocks) = (id, name, input) ∷ block_calls blocks
block_calls (_ ∷ blocks) = block_calls blocks

-- The input is the empty object for no text, the object that the text is, and else an object that
-- holds the text.
abbrev pub IsInput : JsonLib → String → JsonValue → Type 0
IsInput lib text v =
    ((text ≡ "") × (v ≡ JsonValue.object JsonObject.end))
    ⊎ ((text ≢ "")
        × ((o : JsonObject) × (lib.loads text ≡ some (JsonValue.object o))
            × (v ≡ JsonValue.object o)))
    ⊎ ((text ≢ "")
        × ((o : JsonObject) → lib.loads text ≢ some (JsonValue.object o))
        × (v ≡ JsonValue.object (JsonObject.field "_raw" (JsonValue.string text) JsonObject.end)))

-- The calls are those of the tools, one for one and in order.
abbrev pub AreCalls : JsonLib → List QueuedTool → List (String × String × JsonValue) → Type 0
AreCalls lib [] [] = true ≡ true
AreCalls lib (t ∷ tools) ((id, name, input) ∷ calls) =
    (id ≡ t.id) × (name ≡ t.name) × IsInput lib t.input_json input × AreCalls lib tools calls
AreCalls lib tools calls = false ≡ true

-- A stop for tool use becomes the end of the turn if no tool is left, and any other stays.
abbrev pub IsStop : List QueuedTool → Option StopReason → Option StopReason → Type 0
IsStop tools upstream new =
    ((tools ≡ []) × (upstream ≡ some tool_use) × (new ≡ some end_turn))
    ⊎ ((new ≡ upstream) × ((is_nil tools ≡ false) ⊎ (upstream ≢ some tool_use)))

correct_stop_reason-IsStop :
    (tools : List QueuedTool) (upstream : Option StopReason)
    → IsStop tools upstream (correct_stop_reason (is_nil tools) upstream)
unfolding correct_stop_reason
correct_stop_reason-IsStop (t ∷ tools) upstream = inr (ground arith, inl refl)
correct_stop_reason-IsStop [] none = inr (refl, inr (ground arith))
correct_stop_reason-IsStop [] (some tool_use) = inl (refl, refl, refl)
correct_stop_reason-IsStop [] (some reason) = inr (refl, inr (ground arith))

parsed_or_raw-cases :
    (lib : JsonLib) (text : String) (o : Option JsonValue)
    → lib.loads text ≡ o
    → text ≢ ""
    → IsInput lib text (JsonValue.object (parsed_or_raw text o))
parsed_or_raw-cases lib text (some (JsonValue.object o)) e n = inr (inl (n, (o, e, refl)))
parsed_or_raw-cases lib text none e n = inr (inr (n, λ o h. ground (arith, sym e ∙ h), refl))
parsed_or_raw-cases lib text (some v) e n = inr (inr (n, λ o h. ground (arith, sym e ∙ h), refl))

parse_tool_input-IsInput :
    (lib : JsonLib) (text : String)
    → IsInput lib text (JsonValue.object (parse_tool_input lib text))
unfolding parse_tool_input
parse_tool_input-IsInput lib text = elim (Bool-cases (str_eq text "")) [
  | inl e ↦ rw (e, parse_tool_input) (inl ((str_eq_iff text "").0 e, refl))
  | inr e ↦
      let full : text ≢ "" = λ same. ground (arith, e, (str_eq_iff text "").1 same) in
      rw (e, parse_tool_input) (parsed_or_raw-cases lib text (lib.loads text) refl full)
]

trailing_tools-append :
    (xs ys : List ContentBlock)
    → no_tools xs ≡ true
    → trailing_tools ys ≡ true
    → trailing_tools (xs ++ ys) ≡ true
unfolding trailing_tools
trailing_tools-append [] ys h k = k
trailing_tools-append (x ∷ xs) ys h k = ground (arith, trailing_tools-append xs ys)

block_calls-append :
    (xs ys : List ContentBlock) → no_tools xs ≡ true → block_calls (xs ++ ys) ≡ block_calls ys
unfolding block_calls
block_calls-append [] ys h = refl
block_calls-append (ContentBlock.text t ∷ xs) ys h = block_calls-append xs ys h
block_calls-append (ContentBlock.tool_use id name input ∷ xs) ys h = absurd (ground (arith, h))
block_calls-append (ContentBlock.raw t payload ∷ xs) ys h = block_calls-append xs ys h

only_tools-map :
    (lib : JsonLib) (ts : List QueuedTool) → only_tools (map (tool_block lib) ts) ≡ true
unfolding tool_block
only_tools-map lib [] = refl
only_tools-map lib (t ∷ ts) = only_tools-map lib ts

trailing_tools-map :
    (lib : JsonLib) (ts : List QueuedTool) → trailing_tools (map (tool_block lib) ts) ≡ true
unfolding trailing_tools tool_block
trailing_tools-map lib [] = refl
trailing_tools-map lib (t ∷ ts) = only_tools-map lib ts

block_calls-map :
    (lib : JsonLib) (ts : List QueuedTool) → AreCalls lib ts (block_calls (map (tool_block lib) ts))
unfolding block_calls tool_block
block_calls-map lib [] = refl
block_calls-map lib (t ∷ ts) =
    (refl, refl, parse_tool_input-IsInput lib t.input_json, block_calls-map lib ts)

optional_text-no_tools : (o : Option String) → no_tools (optional_text o) ≡ true
optional_text-no_tools none = refl
optional_text-no_tools (some t) = refl

or_fallback-keeps :
    (o : Option String) (xs : List ContentBlock)
    → trailing_tools xs ≡ true
    → (trailing_tools (or_fallback o xs) ≡ true) × (block_calls (or_fallback o xs) ≡ block_calls xs)
unfolding or_fallback trailing_tools block_calls
or_fallback-keeps none [] h = (refl, refl)
or_fallback-keeps (some t) [] h = (refl, refl)
or_fallback-keeps o (x ∷ xs) h = (h, refl)

new_content-order :
    (lib : JsonLib) (b : Builder)
    → Open b
    → (trailing_tools (new_content lib b) ≡ true)
      × AreCalls lib b.buffered_tools (block_calls (new_content lib b))
unfolding new_content
new_content-order lib b o =
    let tools = map (tool_block lib) b.buffered_tools in
    let warning = optional_text b.pending_warning_text in
    let marker = optional_text (marker_text b) in
    let w = optional_text-no_tools b.pending_warning_text in
    let m = optional_text-no_tools (marker_text b) in
    let (last, calls) =
      or_fallback-keeps b.pending_fallback_text
        (b.pre_tool_blocks ++ (warning ++ (marker ++ tools)))
        (trailing_tools-append b.pre_tool_blocks _ o.clean (
          trailing_tools-append warning _ w
            (trailing_tools-append marker tools m (trailing_tools-map lib b.buffered_tools)))) in
    let same =
      calls
      ∙ block_calls-append b.pre_tool_blocks _ o.clean
      ∙ block_calls-append warning _ w
      ∙ block_calls-append marker tools m in
    (last, rw same (block_calls-map lib b.buffered_tools))

fresh-Open : Open Builder.fresh
fresh-Open = record { running = refl; clean = refl }

-- The hooks decide by the primitives at each tool_use block, of which the response has one: then the
-- composition returns a response in which only tool_use blocks stand behind the first, and these are
-- the tools that the hooks have queued, in order, each with its input as an object, in which a text
-- that is no object is kept under "_raw"; the stop reason is the upstream's, but the end of the turn if
-- that is tool use and no tool is left.
pub compose-trailing_tools :
    (lib : JsonLib) (response : AnthropicResponse) (blocks : List (ContentBlock × ToolBlockHandler))
    → AllDecide blocks
    → any_of is_tool_block (map (λ t. t.0) blocks) ≡ true
    → (composed : AnthropicResponse) × (compose_tool_only_response lib response blocks
        ≡ some composed)
      × (trailing_tools composed.content ≡ true)
      × AreCalls lib
          (commit_blocks lib blocks Builder.fresh).buffered_tools
          (block_calls composed.content)
      × IsStop
          (commit_blocks lib blocks Builder.fresh).buffered_tools
          response.stop_reason
          composed.stop_reason
unfolding compose_tool_only_response to_anthropic_response
compose-trailing_tools lib response blocks by h =
    let b = commit_blocks lib blocks Builder.fresh in
    let o = commit_blocks-Open lib blocks Builder.fresh by fresh-Open in
    let (last, calls) = new_content-order lib b o in
    (
      record response {
        content = new_content lib b;
        stop_reason = correct_stop_reason (is_nil b.buffered_tools) response.stop_reason;
      },
      rw (h, o.running) refl,
      last,
      calls,
      correct_stop_reason-IsStop b.buffered_tools response.stop_reason,
    )
