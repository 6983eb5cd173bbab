-- ===== src/Builder/Order.antt =====
-- The wire invariant of the builder: behind the first tool_use block only tool_use blocks follow.
use luthien_proxy.Base.{
  ℤ, ◌≡◌, refl, ap, String, Bool, true, false, not, ◌&&◌, Option, none, some, List, [], ◌∷◌, ◌++◌,
  map, if◌then◌else◌, arith,
}
use luthien_proxy.Stream.Event.{
  Event, content_block_start, content_block_delta, content_block_stop, message_delta, BlockHead,
  tool_use_block, text_block, other_block, Delta, text_delta, other_delta, input_json_delta,
  MessageDelta, view,
}
use luthien_proxy.Stream.Validator.{is_message_delta}
use luthien_proxy.Stream.Validator.Accept.{content_first, quiet}
use luthien_proxy.Builder.Types.{QueuedTool, BufferedTool, Builder}
use luthien_proxy.Base.Dict
use luthien_proxy.Builder
use luthien_proxy.Builder.Dispatch.{
  ToolStopHandler, Decision, commit_text, buffer_tool, record_blocked_tool, decide, decide_all,
  emit_tools, emit_optional, flush, dispatch_start, dispatch_delta, dispatch_stop,
  dispatch_tool_only, stopped, run, fallback_text, marker_text,
}
use luthien_proxy.Builder.Runs.{
  ByDecisions, HooksDecide, events_of, run-cons, run-quiet, finalize-some, finalized-flush,
}

abbrev pub is_tool_start : Event → Bool
is_tool_start (content_block_start _ (tool_use_block _ _)) = true
is_tool_start _ = false

-- the start of a block that is no tool_use, or a delta that is no tool input
abbrev pub is_other_content : Event → Bool
is_other_content (content_block_start _ (text_block _)) = true
is_other_content (content_block_start _ (other_block _)) = true
is_other_content (content_block_delta _ (text_delta _)) = true
is_other_content (content_block_delta _ (other_delta _ _)) = true
is_other_content _ = false

abbrev pub none_of : (Event → Bool) → List Event → Bool
none_of test [] = true
none_of test (e ∷ es) = not (test e) && none_of test es

unfoldable pub tools_last : List Event → Bool
tools_last [] = true
tools_last (e ∷ es) =
    let rest = tools_last es in if is_tool_start e then none_of is_other_content es else rest

none_of-append :
    (test : Event → Bool) (xs ys : List Event)
    → none_of test xs ≡ true
    → none_of test ys ≡ true
    → none_of test (xs ++ ys) ≡ true
none_of-append test [] ys h k = k
none_of-append test (x ∷ xs) ys h k = ground (arith, none_of-append test xs ys)

tools_last-append :
    (xs ys : List Event)
    → none_of is_tool_start xs ≡ true
    → tools_last ys ≡ true
    → tools_last (xs ++ ys) ≡ true
unfolding tools_last
tools_last-append [] ys h k = k
tools_last-append (x ∷ xs) ys h k = ground (arith, tools_last-append xs ys)

tools_last_of_none_of :
    (xs : List Event) → none_of is_other_content xs ≡ true → tools_last xs ≡ true
unfolding tools_last
tools_last_of_none_of [] h = refl
tools_last_of_none_of (x ∷ xs) h = ground (arith, tools_last_of_none_of xs)

tools_last-append_tail :
    (xs ys : List Event)
    → tools_last xs ≡ true
    → none_of is_other_content ys ≡ true
    → tools_last (xs ++ ys) ≡ true
unfolding tools_last
tools_last-append_tail [] ys h k = tools_last_of_none_of ys k
tools_last-append_tail (x ∷ xs) ys h k =
    ground (arith, tools_last-append_tail xs ys, none_of-append is_other_content xs ys)

-- Until the end no primitive puts a tool_use block on the wire.
decide-no_tool : (d : Decision) (b : Builder) → none_of is_tool_start (decide d b).1 ≡ true
unfolding decide Builder.commit_text Builder.emit_text_now
decide-no_tool (commit_text t) b = ground arith
decide-no_tool (buffer_tool i n j) b = refl
decide-no_tool (record_blocked_tool n f) b = refl

decide_all-no_tool :
    (ds : List Decision) (b : Builder) → none_of is_tool_start (decide_all ds b).1 ≡ true
unfolding decide_all
decide_all-no_tool [] b = refl
decide_all-no_tool (d ∷ ds) b =
    none_of-append is_tool_start (decide d b).1 (decide_all ds (decide d b).0).1
      (decide-no_tool d b) (decide_all-no_tool ds (decide d b).0)

dispatch_start-no_tool :
    (i : ℤ) (head : BlockHead) (b : Builder)
    → none_of is_tool_start (dispatch_start i head b).1 ≡ true
unfolding dispatch_start Builder.passthrough_start
dispatch_start-no_tool i (tool_use_block id n) b = refl
dispatch_start-no_tool i (text_block t) b = refl
dispatch_start-no_tool i (other_block t) b = refl

dispatch_delta-no_tool :
    (i : ℤ) (d : Delta) (b : Builder) → none_of is_tool_start (dispatch_delta i d b).1 ≡ true
unfolding dispatch_delta Builder.append_tool_delta Builder.passthrough_delta
dispatch_delta-no_tool i (text_delta t) b = ground arith
dispatch_delta-no_tool i (input_json_delta t) b = ground arith
dispatch_delta-no_tool i (other_delta t p) b = ground arith

passthrough_stop-no_tool :
    (i : ℤ) (b : Builder) → none_of is_tool_start (Builder.passthrough_stop i b) ≡ true
unfolding Builder.passthrough_stop
passthrough_stop-no_tool i b = ground arith

stopped-no_tool :
    (o : Option BufferedTool) (i : ℤ) (h : ToolStopHandler) (b : Builder)
    → ByDecisions h
    → none_of is_tool_start (stopped o i h b).1 ≡ true
unfolding stopped
stopped-no_tool none i h b by = passthrough_stop-no_tool i b
stopped-no_tool (some tool) i h b by = let (ds, e) = by tool b in rw e (decide_all-no_tool ds b)

dispatch_stop-no_tool :
    (i : ℤ) (h : ToolStopHandler) (b : Builder)
    → ByDecisions h
    → none_of is_tool_start (dispatch_stop i h b).1 ≡ true
unfolding dispatch_stop Builder.take_tool
dispatch_stop-no_tool i h b by =
    stopped-no_tool (Dict.get b.tool_buffer i) i h (Builder.take_tool i b).0 by

emit_tools-no_other :
    (tools : List QueuedTool) (b : Builder) → none_of is_other_content (emit_tools tools b).1 ≡ true
unfolding emit_tools Builder.emit_tool_now
emit_tools-no_other [] b = refl
emit_tools-no_other (t ∷ tools) b = emit_tools-no_other tools _

pub emit_optional-no_tool :
    (o : Option String) (b : Builder) → none_of is_tool_start (emit_optional o b).1 ≡ true
unfolding emit_optional Builder.emit_text_now
emit_optional-no_tool none b = refl
emit_optional-no_tool (some t) b = refl

tools_last-flush : (d : MessageDelta) (b : Builder) → tools_last (flush d b).1 ≡ true
unfolding flush
tools_last-flush d b =
    let (b1, fallback) = emit_optional (fallback_text b) b in
    let (b2, warning) = emit_optional b1.pending_warning_text b1 in
    let (b3, marker) = emit_optional (marker_text b2) b2 in
    tools_last-append fallback _ (emit_optional-no_tool (fallback_text b) b) (
      tools_last-append warning _ (emit_optional-no_tool b1.pending_warning_text b1) (
        tools_last-append marker _ (emit_optional-no_tool (marker_text b2) b2) (
          tools_last_of_none_of _ (
            none_of-append is_other_content (emit_tools b3.buffered_tools b3).1 _
              (emit_tools-no_other b3.buffered_tools b3) refl))))

none_of_other-quiet :
    (es : List Event) → quiet (map view es) ≡ true → none_of is_other_content es ≡ true
unfolding quiet
none_of_other-quiet [] h = refl
none_of_other-quiet (e ∷ es) h = ground (arith, none_of_other-quiet es)

-- A step before the message_delta
pub dispatch-no_tool :
    (e : Event) (h : ToolStopHandler) (b b1 : Builder) (here : List Event)
    → ByDecisions h
    → is_message_delta (view e).type ≡ false
    → dispatch_tool_only e h b ≡ some (b1, here)
    → none_of is_tool_start here ≡ true
unfolding dispatch_tool_only
dispatch-no_tool (content_block_start i head) h b b1 here by q r =
    ground (arith, dispatch_start-no_tool i head b)
dispatch-no_tool (content_block_delta i d) h b b1 here by q r =
    ground (arith, dispatch_delta-no_tool i d b)
dispatch-no_tool (content_block_stop i) h b b1 here by q r =
    ground (arith, dispatch_stop-no_tool i h b by)
dispatch-no_tool (message_delta d) h b b1 here by q r = cc
dispatch-no_tool e h b b1 here by q r = ground arith

-- Whatever the hooks decide by the primitives: if no upstream content stands behind the
-- message_delta and no call raises, then from the first tool_use block that goes out on, no block of
-- another type is opened.
pub tools_last-run :
    (turns : List (Event × ToolStopHandler)) (b b' : Builder) (out : List Event)
    → HooksDecide turns
    → content_first (map view (events_of turns)) ≡ true
    → run turns b ≡ some (b', out)
    → tools_last out ≡ true
unfolding content_first tools_last
tools_last-run [] b b' out by c r = let e : out ≡ [] = unfold run in ground arith in rw e
tools_last-run ((message_delta d, h) ∷ turns) b b' out by c r =
    let (b1, here, later, first, rest, e1) = run-cons (message_delta d) h turns b b' out r in
    let (e2, e3) = finalize-some d b b1 here (unfold dispatch_tool_only in first) in
    let done = finalized-flush d b b1 here e3 in
    let (_, e4) = run-quiet turns b1 b' later done c rest in
    rw e1 (
      tools_last-append_tail here later
        (rw (ap (λ (p : Builder × List Event). p.1) e3) (tools_last-flush d _))
        (rw e4 (none_of_other-quiet (events_of turns) c)))
tools_last-run ((e, h) ∷ turns) b b' out by c r =
    let (b1, here, later, first, rest, e1) = run-cons e h turns b b' out r in
    rw e1 (
      tools_last-append here later (dispatch-no_tool e h b b1 here by.0 refl first)
        (tools_last-run turns b1 b' later by.1 c rest))
