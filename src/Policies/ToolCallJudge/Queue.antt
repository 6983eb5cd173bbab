-- ===== src/Policies/ToolCallJudge/Queue.antt =====
-- A stream queues exactly the tool calls that the judge allows.
use mathlib.Core.List.{append_assoc, append-nil}
use luthien_proxy.Base.{
  ℤ, ◌≡◌, refl, ap, sym, ◌∙◌, true, false, Option, none, some, List, [], ◌∷◌, ◌++◌, map, arith,
  str_append, Option-cases, inl, inr,
}
use luthien_proxy.Base.Dict
use luthien_proxy.Base.Dict.{Dict, get-put, get-remove, get-empty}
use luthien_proxy.Stream.Event.{
  Event, content_block_start, content_block_delta, content_block_stop, message_delta, BlockHead,
  tool_use_block, text_block, other_block, Delta, text_delta, input_json_delta, other_delta, view,
}
use luthien_proxy.Stream.Validator.{is_message_delta}
use luthien_proxy.Stream.Validator.Accept.{content_first, quiet}
use luthien_proxy.Builder
use luthien_proxy.Builder.Types.{Builder, BufferedTool}
use luthien_proxy.Builder.Dispatch.{
  dispatch_start, dispatch_delta, dispatch_stop, stopped, dispatch_tool_only, run,
}
use luthien_proxy.Builder.Runs.{
  run-cons, returned, run-quiet, finalize-some, finalized-flush, flush-keeps,
}
use luthien_proxy.Builder.Tools.{Call, queued_calls}
use luthien_proxy.Policies.ToolCallJudge.{JudgeEnv, JudgeReply, returning_hook}
use luthien_proxy.Policies.ToolCallJudge.Hooks.{
  open_after, call_of, Same, Same-put, Same-remove, Calls, approve, approved_here, approved, hooks,
  upstream, events_of-hooks, queued-on_tool_stop, tool_buffer-on_tool_stop,
}

module _ (env : JudgeEnv) (threshold : env.Probability) where
  -- `b1` comes from a builder with that queue by an event that approves `calls_here`, and leaves `calls` open.
  pub record Follows (queue : List Call) (b1 : Builder) (calls_here : List Call) (calls : Calls)
      : Type 0 where
    pub queued : queued_calls b1.buffered_tools ≡ queue ++ calls_here
    pub same : Same calls b1.tool_buffer

  pub dispatch_start-Follows :
      (i : ℤ) (head : BlockHead) (reply : JudgeReply env) (calls : Calls) (b : Builder)
      → Same calls b.tool_buffer
      → Follows
          (queued_calls b.buffered_tools)
          (dispatch_start i head b).0
          []
          (open_after (content_block_start i head) calls)
  unfolding dispatch_start Builder.begin_tool_buffer Builder.passthrough_start
  dispatch_start-Follows i (tool_use_block id name) reply calls b s = record {
    queued = sym (append-nil _);
    same = Same-put calls b.tool_buffer i (record { id = id; name = name; input_json = "" }) s;
  }
  dispatch_start-Follows i (text_block t) reply calls b s = record {
    queued = sym (append-nil _);
    same = s;
  }
  dispatch_start-Follows i (other_block t) reply calls b s = record {
    queued = sym (append-nil _);
    same = s;
  }

  pub dispatch_delta-Follows :
      (i : ℤ) (delta : Delta) (calls : Calls) (b : Builder)
      → Same calls b.tool_buffer
      → Follows
          (queued_calls b.buffered_tools)
          (dispatch_delta i delta b).0
          []
          (open_after (content_block_delta i delta) calls)
  unfolding dispatch_delta Builder.append_tool_delta
  dispatch_delta-Follows i (text_delta t) calls b s = record {
    queued = sym (append-nil _);
    same = s;
  }
  dispatch_delta-Follows i (other_delta t p) calls b s = record {
    queued = sym (append-nil _);
    same = s;
  }
  dispatch_delta-Follows i (input_json_delta t) calls b s =
      elim (Option-cases (Dict.get b.tool_buffer i)) [
        | inl missing ↦
            rw (s i, missing, Builder.append_tool_delta)
              (record { queued = sym (append-nil _); same = s })
        | inr (tool, found) ↦
            rw (s i, found, Builder.append_tool_delta)
              (record {
                queued = sym (append-nil _);
                same =
                    Same-put calls b.tool_buffer i
                      (record tool { input_json = str_append tool.input_json t }) s;
              })
      ]

  pub stopped-Follows :
      (o : Option BufferedTool) (i : ℤ) (reply : JudgeReply env) (calls : Calls) (b : Builder)
      → Same calls b.tool_buffer
      → Follows
          (queued_calls b.buffered_tools)
          (stopped o i (returning_hook env threshold reply) b).0
          (approve env threshold (call_of o) reply)
          calls
  unfolding stopped
  stopped-Follows none i reply calls b s = record { queued = sym (append-nil _); same = s }
  stopped-Follows (some tool) i reply calls b s = record {
    queued = queued-on_tool_stop env threshold reply tool b;
    same = rw (tool_buffer-on_tool_stop env threshold) s;
  }

  pub dispatch_stop-Follows :
      (i : ℤ) (reply : JudgeReply env) (calls : Calls) (b : Builder)
      → Same calls b.tool_buffer
      → Follows
          (queued_calls b.buffered_tools)
          (dispatch_stop i (returning_hook env threshold reply) b).0
          (approve env threshold (Dict.get calls i) reply)
          (Dict.remove calls i)
  unfolding dispatch_stop Builder.take_tool
  dispatch_stop-Follows i reply calls b s = rw (s i) (
      stopped-Follows (Dict.get b.tool_buffer i) i reply (Dict.remove calls i)
        (Builder.take_tool i b).0 (Same-remove calls b.tool_buffer i s))

  pub step-Follows :
      (e : Event) (reply : JudgeReply env) (calls : Calls) (b b1 : Builder) (here : List Event)
      → is_message_delta (view e).type ≡ false
      → Same calls b.tool_buffer
      → dispatch_tool_only e (returning_hook env threshold reply) b ≡ some (b1, here)
      → Follows
          (queued_calls b.buffered_tools)
          b1
          (approved_here env threshold e reply calls)
          (open_after e calls)
  unfolding dispatch_tool_only
  step-Follows (content_block_start i head) reply calls b b1 here q s r =
      rw (← (returned (dispatch_start i head b) r).0)
        (dispatch_start-Follows i head reply calls b s)
  step-Follows (content_block_delta i delta) reply calls b b1 here q s r =
      rw (← (returned (dispatch_delta i delta b) r).0) (dispatch_delta-Follows i delta calls b s)
  step-Follows (content_block_stop i) reply calls b b1 here q s r =
      rw (← (returned (dispatch_stop i (returning_hook env threshold reply) b) r).0)
        (dispatch_stop-Follows i reply calls b s)
  step-Follows (message_delta m) reply calls b b1 here q s r = cc
  step-Follows e reply calls b b1 here q s r =
      let same : b ≡ b1 = ground arith in
      rw (← same) (record { queued = sym (append-nil _); same = s })

  pub approved-quiet :
      (turns : List (Event × JudgeReply env)) (calls : Calls)
      → quiet (map view (upstream env threshold turns)) ≡ true
      → approved env threshold turns calls ≡ []
  unfolding approved quiet
  approved-quiet [] calls q = refl
  approved-quiet ((e, reply) ∷ turns) calls q =
      ground (arith, approved-quiet turns (open_after e calls))

  pub run-queued :
      (turns : List (Event × JudgeReply env)) (calls : Calls) (b b' : Builder) (out : List Event)
      → content_first (map view (upstream env threshold turns)) ≡ true
      → Same calls b.tool_buffer
      → run (hooks env threshold turns) b ≡ some (b', out)
      → queued_calls b'.buffered_tools
        ≡ queued_calls b.buffered_tools ++ approved env threshold turns calls
  unfolding approved content_first
  run-queued [] calls b b' out c s r =
      let e : b ≡ b' = unfold run in ground arith in rw (← e) (sym (append-nil _))
  run-queued ((message_delta m, reply) ∷ turns) calls b b' out c s r =
      let (b1, here, later, first, rest, _) =
        run-cons (message_delta m) _ (hooks env threshold turns) b b' out r in
      let (_, e1) = finalize-some m b b1 here (unfold dispatch_tool_only in first) in
      let done = finalized-flush m b b1 here e1 in
      let (e2, _) =
        run-quiet (hooks env threshold turns) b1 b' later done
          (rw (events_of-hooks env threshold) c) rest in
      let e3 : b1.buffered_tools ≡ b.buffered_tools =
        ap (λ (p : Builder × List Event). p.0.buffered_tools) e1
        ∙ (flush-keeps m (record b { finalized = true })).1 in
      rw (e2, e3, approved-quiet turns calls c) (sym (append-nil _))
  run-queued ((e, reply) ∷ turns) calls b b' out c s r =
      let (b1, here, later, first, rest, _) = run-cons e _ (hooks env threshold turns) b b' out r in
      let f = step-Follows e reply calls b b1 here refl s first in
      run-queued turns (open_after e calls) b1 b' later c f.same rest
      ∙ ap (λ q. q ++ approved env threshold turns (open_after e calls)) f.queued
      ∙ append_assoc (queued_calls b.buffered_tools) (approved_here env threshold e reply calls)
          (approved env threshold turns (open_after e calls))
