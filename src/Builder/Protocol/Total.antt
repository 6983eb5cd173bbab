-- ===== src/Builder/Protocol/Total.antt =====
-- A run over a stream with at most one message_delta does not raise.
use luthien_proxy.Base.{
  ℤ, ◌≡◌, refl, ap, sym, ◌∙◌, Bool, true, false, Option, none, some, List, [], ◌∷◌, ◌++◌,
  if◌then◌else◌, arith,
}
use luthien_proxy.Base.Dict
use luthien_proxy.Stream.Event.{
  Event, content_block_start, content_block_delta, content_block_stop, message_delta, BlockHead,
  tool_use_block, text_block, other_block, Delta, text_delta, input_json_delta, other_delta, view,
}
use luthien_proxy.Stream.Validator.{is_message_delta}
use luthien_proxy.Builder
use luthien_proxy.Builder.Types.{Builder, BufferedTool}
use luthien_proxy.Builder.Dispatch.{
  ToolStopHandler, Decision, commit_text, buffer_tool, record_blocked_tool, decide, decide_all,
  dispatch_start, dispatch_delta, dispatch_stop, stopped, dispatch_tool_only, finalize, flush, run,
}
use luthien_proxy.Builder.Runs.{ByDecisions, HooksDecide, events_of}
use luthien_proxy.Builder.Protocol.Emit.{no_delta}

unfoldable pub single_delta : List Event → Bool
single_delta [] = true
single_delta (e ∷ es) =
    let rest = single_delta es in if is_message_delta (view e).type then no_delta es else rest

decide-finalized : (x : Decision) (b : Builder) → (decide x b).0.finalized ≡ b.finalized
unfolding decide Builder.commit_text Builder.emit_text_now Builder.buffer_tool
    Builder.record_blocked_tool
decide-finalized (commit_text t) b = ground arith
decide-finalized (buffer_tool i n j) b = refl
decide-finalized (record_blocked_tool n f) b = refl

decide_all-finalized :
    (ds : List Decision) (b : Builder) → (decide_all ds b).0.finalized ≡ b.finalized
unfolding decide_all
decide_all-finalized [] b = refl
decide_all-finalized (x ∷ ds) b = decide_all-finalized ds (decide x b).0 ∙ decide-finalized x b

dispatch_start-finalized :
    (i : ℤ) (head : BlockHead) (b : Builder) → (dispatch_start i head b).0.finalized ≡ b.finalized
unfolding dispatch_start Builder.begin_tool_buffer Builder.passthrough_start
dispatch_start-finalized i (tool_use_block id n) b = refl
dispatch_start-finalized i (text_block t) b = refl
dispatch_start-finalized i (other_block t) b = refl

dispatch_delta-finalized :
    (i : ℤ) (d : Delta) (b : Builder) → (dispatch_delta i d b).0.finalized ≡ b.finalized
unfolding dispatch_delta Builder.append_tool_delta
dispatch_delta-finalized i (text_delta t) b = refl
dispatch_delta-finalized i (other_delta t p) b = refl
dispatch_delta-finalized i (input_json_delta t) b = ground arith

stopped-finalized :
    (o : Option BufferedTool) (i : ℤ) (h : ToolStopHandler) (b : Builder)
    → ByDecisions h
    → (stopped o i h b).0.finalized ≡ b.finalized
unfolding stopped
stopped-finalized none i h b by = refl
stopped-finalized (some tool) i h b by = let (ds, e) = by tool b in rw e (decide_all-finalized ds b)

dispatch_stop-finalized :
    (i : ℤ) (h : ToolStopHandler) (b : Builder)
    → ByDecisions h
    → (dispatch_stop i h b).0.finalized ≡ b.finalized
unfolding dispatch_stop Builder.take_tool
dispatch_stop-finalized i h b by =
    stopped-finalized (Dict.get b.tool_buffer i) i h (Builder.take_tool i b).0 by

-- Every event but a message_delta is handled, and leaves the flag of the flush alone.
pub dispatch_returns :
    (e : Event) (h : ToolStopHandler) (b : Builder)
    → is_message_delta (view e).type ≡ false
    → (r : Builder × List Event) × (dispatch_tool_only e h b ≡ some r)
      × (ByDecisions h → r.0.finalized ≡ b.finalized)
unfolding dispatch_tool_only
dispatch_returns (content_block_start i head) h b q =
    (dispatch_start i head b, refl, λ by. dispatch_start-finalized i head b)
dispatch_returns (content_block_delta i d) h b q =
    (dispatch_delta i d b, refl, λ by. dispatch_delta-finalized i d b)
dispatch_returns (content_block_stop i) h b q =
    (dispatch_stop i h b, refl, dispatch_stop-finalized i h b)
dispatch_returns (message_delta m) h b q = cc
dispatch_returns e h b q = ((b, e ∷ []), refl, λ by. refl)

pub dispatch-finalized :
    (e : Event) (h : ToolStopHandler) (b b1 : Builder) (here : List Event)
    → ByDecisions h
    → is_message_delta (view e).type ≡ false
    → dispatch_tool_only e h b ≡ some (b1, here)
    → b1.finalized ≡ b.finalized
dispatch-finalized e h b b1 here by q r =
    let ((b2, here'), first, keeps) = dispatch_returns e h b q in
    let same : (b2, here') ≡ (b1, here) = cc (first, r) in
    sym (ap (λ (p : Builder × List Event). p.0.finalized) same) ∙ keeps by

run_step :
    (e : Event) (h : ToolStopHandler) (turns : List (Event × ToolStopHandler)) (b b1 b2 : Builder)
    (here later : List Event)
    → dispatch_tool_only e h b ≡ some (b1, here)
    → run turns b1 ≡ some (b2, later)
    → run ((e, h) ∷ turns) b ≡ some (b2, here ++ later)
unfolding run
run_step e h turns b b1 b2 here later p q = rw (p, run) (rw (q, run))

run-no_delta :
    (turns : List (Event × ToolStopHandler)) (b : Builder)
    → no_delta (events_of turns) ≡ true
    → (b' : Builder) × (out : List Event) × (run turns b ≡ some (b', out))
run-no_delta [] b q = (b, [], unfold run in refl)
run-no_delta ((e, h) ∷ turns) b q =
    let ((b1, here), first, _) = dispatch_returns e h b (ground arith) in
    let (b2, later, rest) = run-no_delta turns b1 (ground arith) in
    (b2, here ++ later, run_step e h turns b b1 b2 here later first rest)

-- With at most one message_delta no call raises.
pub run-total :
    (turns : List (Event × ToolStopHandler)) (b : Builder)
    → b.finalized ≡ false
    → HooksDecide turns
    → single_delta (events_of turns) ≡ true
    → (b' : Builder) × (out : List Event) × (run turns b ≡ some (b', out))
unfolding single_delta
run-total [] b f by q = (b, [], unfold run in refl)
run-total ((message_delta m, h) ∷ turns) b f by q =
    let (b1, here) = flush m (record b { finalized = true }) in
    let first : dispatch_tool_only (message_delta m) h b ≡ some (b1, here) =
      unfold dispatch_tool_only finalize in rw f in
    let (b2, later, rest) = run-no_delta turns b1 q in
    (b2, here ++ later, run_step (message_delta m) h turns b b1 b2 here later first rest)
run-total ((e, h) ∷ turns) b f by q =
    let (r, first, keeps) = dispatch_returns e h b refl in
    let (b2, later, rest) = run-total turns r.0 (keeps by.0 ∙ f) by.1 q in
    (b2, r.1 ++ later, run_step e h turns b r.0 b2 r.1 later first rest)
