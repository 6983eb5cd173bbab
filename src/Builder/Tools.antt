-- ===== src/Builder/Tools.antt =====
-- Which tool calls reach the wire: those that the hooks have queued, each once and in order.
use text.Mathlib.TextLemmas.{append-nil as text_append-nil}
use luthien_proxy.Base.{
  ◌≡◌, refl, ap, ◌∙◌, String, Bool, true, false, ◌||◌, some, List, [], ◌∷◌, ◌++◌, map,
  if◌then◌else◌, arith, ℤ, ◌==ℤ◌, ==ℤ_refl, str_eq, str_append,
}
use luthien_proxy.Stream.Event.{
  Event, content_block_start, content_block_delta, content_block_stop, input_json_delta,
  message_delta, MessageDelta, tool_use_block, view,
}
use luthien_proxy.Stream.Validator.{is_message_delta}
use luthien_proxy.Stream.Validator.Accept.{content_first, quiet}
use luthien_proxy.Builder
use luthien_proxy.Builder.Types.{Builder, QueuedTool}
use luthien_proxy.Builder.Dispatch.{
  ToolStopHandler, emit_tools, emit_optional, fallback_text, marker_text, flush, dispatch_tool_only,
  run,
}
use luthien_proxy.Builder.Runs.{
  HooksDecide, events_of, run-cons, run-quiet, finalize-some, finalized-flush, flush-keeps,
  emit_optional-keeps,
}
use luthien_proxy.Builder.Order.{is_tool_start, none_of, dispatch-no_tool, emit_optional-no_tool}
use luthien_proxy.Builder.Protocol.Total.{dispatch-finalized}

-- A tool call: its id, its name and its input as text
abbrev pub Call : Type 0
Call = String × String × String

-- The input of a block that is open at `i`: the pieces up to its stop, put together
unfoldable pub input_of : ℤ → List Event → String
input_of i [] = ""
input_of i (content_block_delta j (input_json_delta piece) ∷ es) =
    let rest = input_of i es in if j ==ℤ i then str_append piece rest else rest
input_of i (content_block_stop j ∷ es) = let rest = input_of i es in if j ==ℤ i then "" else rest
input_of i (_ ∷ es) = input_of i es

-- The tool calls that a client reads from a stream
unfoldable pub tool_calls : List Event → List Call
unfolding input_of
tool_calls [] = []
tool_calls (content_block_start i (tool_use_block id name) ∷ es) =
    (id, name, input_of i es) ∷ tool_calls es
tool_calls (_ ∷ es) = tool_calls es

-- On the wire an input without any text is the empty object.
abbrev pub wire_call : Call → Call
wire_call (id, name, input) = (id, name, if str_eq input "" then "{}" else input)

abbrev pub queued_calls : List QueuedTool → List Call
queued_calls = map (λ (t : QueuedTool). wire_call (t.id, t.name, t.input_json))

tool_calls-no_tool :
    (xs ys : List Event) → none_of is_tool_start xs ≡ true → tool_calls (xs ++ ys) ≡ tool_calls ys
unfolding tool_calls
tool_calls-no_tool [] ys h = refl
tool_calls-no_tool (x ∷ xs) ys h = ground (arith, tool_calls-no_tool xs ys)

tool_calls-quiet : (xs : List Event) → quiet (map view xs) ≡ true → tool_calls xs ≡ []
unfolding tool_calls quiet
tool_calls-quiet [] h = refl
tool_calls-quiet (x ∷ xs) h = ground (arith, tool_calls-quiet xs)

input_of-quiet : (i : ℤ) (ys : List Event) → quiet (map view ys) ≡ true → input_of i ys ≡ ""
unfolding input_of quiet
input_of-quiet i [] h = refl
input_of-quiet i (y ∷ ys) h = ground (arith, input_of-quiet i ys)

-- What is no content block event adds nothing to the calls before it.
input_of-append_quiet :
    (i : ℤ) (xs ys : List Event)
    → quiet (map view ys) ≡ true
    → input_of i (xs ++ ys) ≡ input_of i xs
unfolding input_of
input_of-append_quiet i [] ys h = input_of-quiet i ys h
input_of-append_quiet i (x ∷ xs) ys h = ground (arith, input_of-append_quiet i xs ys h)

tool_calls-append_quiet :
    (xs ys : List Event) → quiet (map view ys) ≡ true → tool_calls (xs ++ ys) ≡ tool_calls xs
unfolding tool_calls
tool_calls-append_quiet [] ys h = tool_calls-quiet ys h
tool_calls-append_quiet (content_block_start i (tool_use_block id name) ∷ xs) ys h =
    ground (arith, tool_calls-append_quiet xs ys h, input_of-append_quiet i xs ys h)
tool_calls-append_quiet (x ∷ xs) ys h = ground (arith, tool_calls-append_quiet xs ys h)

emitted_input :
    (i : ℤ) (piece : String) (es : List Event)
    → input_of i (content_block_delta i (input_json_delta piece) ∷ content_block_stop i ∷ es)
      ≡ piece
unfolding input_of
emitted_input i piece es = rw (==ℤ_refl) (text_append-nil piece)

tool_calls-emit_tools :
    (tools : List QueuedTool) (b : Builder) → tool_calls (emit_tools tools b).1 ≡ queued_calls tools
unfolding tool_calls emit_tools Builder.emit_tool_now
tool_calls-emit_tools [] b = refl
tool_calls-emit_tools (t ∷ tools) b =
    rw (emitted_input, tool_calls-emit_tools tools (Builder.emit_tool_now t b).0) refl

tool_calls-flush :
    (m : MessageDelta) (b : Builder) → tool_calls (flush m b).1 ≡ queued_calls b.buffered_tools
unfolding flush quiet
tool_calls-flush m b =
    let (b1, _) = emit_optional (fallback_text b) b in
    let (b2, _) = emit_optional b1.pending_warning_text b1 in
    let (b3, _) = emit_optional (marker_text b2) b2 in
    let (_, t1) = emit_optional-keeps (fallback_text b) b in
    let (_, t2) = emit_optional-keeps b1.pending_warning_text b1 in
    let (_, t3) = emit_optional-keeps (marker_text b2) b2 in
    tool_calls-no_tool (emit_optional (fallback_text b) b).1 _
      (emit_optional-no_tool (fallback_text b) b)
    ∙ tool_calls-no_tool (emit_optional b1.pending_warning_text b1).1 _
        (emit_optional-no_tool b1.pending_warning_text b1)
    ∙ tool_calls-no_tool (emit_optional (marker_text b2) b2).1 _
        (emit_optional-no_tool (marker_text b2) b2)
    ∙ tool_calls-append_quiet (emit_tools b3.buffered_tools b3).1 _ refl
    ∙ tool_calls-emit_tools b3.buffered_tools b3
    ∙ ap queued_calls (t3 ∙ t2 ∙ t1)

-- For a builder that is not finalized, hooks that decide by the primitives, no upstream content
-- behind the message_delta and no call that raises: the tool calls that go out are the queue, in
-- order, each with its id, its name and its input, or "{}" for an empty one, if the builder is
-- finalized in the end, and none if not.
pub tool_calls-run :
    (turns : List (Event × ToolStopHandler)) (b b' : Builder) (out : List Event)
    → b.finalized ≡ false
    → HooksDecide turns
    → content_first (map view (events_of turns)) ≡ true
    → run turns b ≡ some (b', out)
    → tool_calls out ≡ (if b'.finalized then queued_calls b'.buffered_tools else [])
unfolding content_first
tool_calls-run [] b b' out f by c r =
    let e1 : b ≡ b' = unfold run in ground arith in
    let e2 : [] ≡ out = unfold run in ground arith in
    rw (← e2, ← e1) (rw f (unfold tool_calls in refl))
tool_calls-run ((message_delta m, h) ∷ turns) b b' out f by c r =
    let (b1, here, later, first, rest, e1) = run-cons (message_delta m) h turns b b' out r in
    let (_, e2) = finalize-some m b b1 here (unfold dispatch_tool_only in first) in
    let done = finalized-flush m b b1 here e2 in
    let (e3, e4) = run-quiet turns b1 b' later done c rest in
    let e5 : here ≡ (flush m (record b { finalized = true })).1 =
      ap (λ (p : Builder × List Event). p.1) e2 in
    let e6 : b1.buffered_tools ≡ b.buffered_tools =
      ap (λ (p : Builder × List Event). p.0.buffered_tools) e2
      ∙ (flush-keeps m (record b { finalized = true })).1 in
    rw (e1, tool_calls-append_quiet here later (rw e4 c), e3, done, e6)
      (rw (e5, tool_calls-flush) refl)
tool_calls-run ((e, h) ∷ turns) b b' out f by c r =
    let (b1, here, later, first, rest, e1) = run-cons e h turns b b' out r in
    let f1 = dispatch-finalized e h b b1 here by.0 refl first ∙ f in
    rw (e1, tool_calls-no_tool here later (dispatch-no_tool e h b b1 here by.0 refl first))
      (tool_calls-run turns b1 b' later f1 by.1 c rest)

abbrev pub has_delta : List Event → Bool
has_delta [] = false
has_delta (e ∷ es) = is_message_delta (view e).type || has_delta es

-- The builder is finalized exactly when a message_delta has come.
pub run-finalized :
    (turns : List (Event × ToolStopHandler)) (b b' : Builder) (out : List Event)
    → b.finalized ≡ false
    → HooksDecide turns
    → content_first (map view (events_of turns)) ≡ true
    → run turns b ≡ some (b', out)
    → b'.finalized ≡ has_delta (events_of turns)
unfolding content_first
run-finalized [] b b' out f by c r = let e1 : b ≡ b' = unfold run in ground arith in rw (← e1) f
run-finalized ((message_delta m, h) ∷ turns) b b' out f by c r =
    let (b1, here, later, first, rest, _) = run-cons (message_delta m) h turns b b' out r in
    let (_, e2) = finalize-some m b b1 here (unfold dispatch_tool_only in first) in
    let done = finalized-flush m b b1 here e2 in
    let (e3, _) = run-quiet turns b1 b' later done c rest in rw e3 done
run-finalized ((e, h) ∷ turns) b b' out f by c r =
    let (b1, here, later, first, rest, _) = run-cons e h turns b b' out r in
    let f1 = dispatch-finalized e h b b1 here by.0 refl first ∙ f in
    run-finalized turns b1 b' later f1 by.1 c rest
