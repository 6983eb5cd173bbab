-- ===== src/Builder/Runs.antt =====
-- What a run of `dispatch_tool_only` over a stream does, step by step.
use luthien_proxy.Base.{
  ◌≡◌, refl, ap, ◌∙◌, String, true, false, Option, none, some, List, [], ◌∷◌, ◌++◌, map, arith,
  Option-cases, inl, inr,
}
use luthien_proxy.Stream.Event.{Event, MessageDelta, view}
use luthien_proxy.Stream.Validator.{is_content_block_event}
use luthien_proxy.Stream.Validator.Accept.{quiet}
use luthien_proxy.Builder.Types.{QueuedTool, BufferedTool, Builder}
use luthien_proxy.Builder
use luthien_proxy.Builder.Dispatch.{
  ToolStopHandler, Decision, decide_all, emit_tools, emit_optional, flush, finalize,
  dispatch_tool_only, run, fallback_text, marker_text,
}

-- The hook acts on the builder by the three primitives alone.
abbrev pub ByDecisions : ToolStopHandler → Type 0
ByDecisions h =
    (tool : BufferedTool) (b : Builder) → (ds : List Decision) × (h tool b ≡ decide_all ds b)

abbrev pub HooksDecide : List (Event × ToolStopHandler) → Type 0
HooksDecide [] = Unit {0}
HooksDecide ((_, h) ∷ turns) = ByDecisions h × HooksDecide turns

abbrev pub events_of : List (Event × ToolStopHandler) → List Event
events_of = map (λ t. t.0)

-- A run that returns has a first step and a rest that return.
pub run-cons :
    (e : Event) (h : ToolStopHandler) (turns : List (Event × ToolStopHandler)) (b b' : Builder)
    (out : List Event)
    → run ((e, h) ∷ turns) b ≡ some (b', out)
    → (b1 : Builder) × (here : List Event) × (later : List Event) × (dispatch_tool_only e h b
        ≡ some (b1, here))
      × (run turns b1 ≡ some (b', later))
      × (out ≡ here ++ later)
unfolding run
run-cons e h turns b b' out r = elim (Option-cases (dispatch_tool_only e h b)) [
  | inl raised ↦ cc (rw (raised, run) at r)
  | inr ((b1, here), first) ↦ elim (Option-cases (run turns b1)) [
    | inl raised ↦ cc (rw (first, raised, run) at r)
    | inr ((b2, later), rest) ↦ (b1, here, later, first, ground arith, ground arith)
  ]
]

-- Behind a message_delta an event that is no content block event goes through as it is.
pub dispatch-quiet :
    (e : Event) (h : ToolStopHandler) (b b1 : Builder) (here : List Event)
    → b.finalized ≡ true
    → is_content_block_event (view e).type ≡ false
    → dispatch_tool_only e h b ≡ some (b1, here)
    → (b1 ≡ b) × (here ≡ e ∷ [])
unfolding dispatch_tool_only finalize
dispatch-quiet e h b b1 here f q r = ground arith

pub run-quiet :
    (turns : List (Event × ToolStopHandler)) (b b' : Builder) (out : List Event)
    → b.finalized ≡ true
    → quiet (map view (events_of turns)) ≡ true
    → run turns b ≡ some (b', out)
    → (b' ≡ b) × (out ≡ events_of turns)
unfolding quiet
run-quiet [] b b' out f q r = unfold run in (ground arith, ground arith)
run-quiet ((e, h) ∷ turns) b b' out f q r =
    let (b1, here, later, first, rest, e1) = run-cons e h turns b b' out r in
    let (e2, e3) = dispatch-quiet e h b b1 here f (ground arith) first in
    let (e4, e5) = run-quiet turns b b' later f (ground arith) (rw e2 at rest) in (e4, cc)

pub finalize-some :
    (d : MessageDelta) (b b1 : Builder) (here : List Event)
    → finalize d b ≡ some (b1, here)
    → (b.finalized ≡ false) × ((b1, here) ≡ flush d (record b { finalized = true }))
unfolding finalize
finalize-some d b b1 here h = ground arith

-- The flush leaves the flag and the queue of tools as they are.
pub emit_tools-keeps :
    (tools : List QueuedTool) (b : Builder)
    → ((emit_tools tools b).0.finalized ≡ b.finalized)
      × ((emit_tools tools b).0.buffered_tools ≡ b.buffered_tools)
unfolding emit_tools Builder.emit_tool_now
emit_tools-keeps [] b = (refl, refl)
emit_tools-keeps (t ∷ tools) b = emit_tools-keeps tools _

pub emit_optional-keeps :
    (o : Option String) (b : Builder)
    → ((emit_optional o b).0.finalized ≡ b.finalized)
      × ((emit_optional o b).0.buffered_tools ≡ b.buffered_tools)
unfolding emit_optional Builder.emit_text_now
emit_optional-keeps none b = (refl, refl)
emit_optional-keeps (some t) b = (refl, refl)

pub flush-keeps :
    (d : MessageDelta) (b : Builder)
    → ((flush d b).0.finalized ≡ b.finalized) × ((flush d b).0.buffered_tools ≡ b.buffered_tools)
unfolding flush
flush-keeps d b =
    let (b1, _) = emit_optional (fallback_text b) b in
    let (b2, _) = emit_optional b1.pending_warning_text b1 in
    let (b3, _) = emit_optional (marker_text b2) b2 in
    let (f1, t1) = emit_optional-keeps (fallback_text b) b in
    let (f2, t2) = emit_optional-keeps b1.pending_warning_text b1 in
    let (f3, t3) = emit_optional-keeps (marker_text b2) b2 in
    let (f4, t4) = emit_tools-keeps b3.buffered_tools b3 in (f4 ∙ f3 ∙ f2 ∙ f1, t4 ∙ t3 ∙ t2 ∙ t1)

pub finalized-flush :
    (d : MessageDelta) (b b1 : Builder) (here : List Event)
    → (b1, here) ≡ flush d (record b { finalized = true })
    → b1.finalized ≡ true
finalized-flush d b b1 here e =
    ap (λ (p : Builder × List Event). p.0.finalized) e
    ∙ (flush-keeps d (record b { finalized = true })).0

-- The result of a step that returns
pub returned :
    {b1 : Builder} {here : List Event} (p : Builder × List Event)
    → some p ≡ some (b1, here)
    → (p.0 ≡ b1) × (p.1 ≡ here)
returned p h = ground arith
