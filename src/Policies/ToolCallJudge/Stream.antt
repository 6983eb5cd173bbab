-- ===== src/Policies/ToolCallJudge/Stream.antt =====
-- A whole stream under the tool call judge: what reaches the client.
use luthien_proxy.Base.{◌≡◌, refl, ◌∙◌, true, some, List, [], ◌∷◌, map}
use luthien_proxy.Base.Dict
use luthien_proxy.Base.Dict.{Dict, get-put, get-remove, get-empty}
use luthien_proxy.Stream.Event.{Event, view}
use luthien_proxy.Stream.Validator.{validate}
use luthien_proxy.Stream.Validator.Accept.{content_first}
use luthien_proxy.Builder
use luthien_proxy.Builder.Types.{Builder}
use luthien_proxy.Stream.Validator.Verdict.{validate_sound, validate-nil-ne-nil}
use luthien_proxy.Builder.Order.{tools_last, tools_last-run}
use luthien_proxy.Builder.Tools.{has_delta, run-finalized, tool_calls, tool_calls-run}
use luthien_proxy.Builder.Protocol.Total.{single_delta}
use luthien_proxy.Builder.Protocol.Valid.{run-preserves_validity}
use luthien_proxy.Policies.ToolCallJudge.{JudgeEnv, JudgeReply}
use luthien_proxy.Policies.ToolCallJudge.Hooks.{
  Fills, approved, judge_stream, hooks, judge_stream-run, hooks-HooksDecide, upstream,
  events_of-hooks,
}
use luthien_proxy.Policies.ToolCallJudge.Queue.{run-queued}

content_first_of_valid :
    (es : List Event) → validate (map view es) ≡ [] → content_first (map view es) ≡ true
content_first_of_valid [] v = absurd (validate-nil-ne-nil v)
content_first_of_valid (e ∷ es) v = (validate_sound (view e) (map view es) v).ordered

module _ (env : JudgeEnv) (threshold : env.Probability) where
  -- If `str.format` fills the template of blocked messages, then for a valid upstream with one
  -- message_delta, whatever the judge replies or if it fails: no call raises; what the client gets is
  -- a valid stream in which only tool_use content follows the first tool_use block; and its tool calls
  -- are those that the judge allows, in order and with their inputs, and no others.
  pub judge_stream_correct :
      (turns : List (Event × JudgeReply env))
      → Fills env
      → validate (map view (upstream env threshold turns)) ≡ []
      → single_delta (upstream env threshold turns) ≡ true
      → has_delta (upstream env threshold turns) ≡ true
      → (b' : Builder) × (out : List Event) × (judge_stream env threshold turns Builder.fresh
          ≡ some (b', out))
        × (validate (map view out) ≡ [])
        × (tools_last out ≡ true)
        × (tool_calls out ≡ approved env threshold turns Dict.empty)
  judge_stream_correct turns fills v one some_delta =
      let by = hooks-HooksDecide env threshold turns in
      let (b', out, r, valid) =
        run-preserves_validity (hooks env threshold turns) by (rw (events_of-hooks env threshold) v)
          (rw (events_of-hooks env threshold) one) in
      let ordered = content_first_of_valid (upstream env threshold turns) v in
      let queue =
        run-queued env threshold turns Dict.empty Builder.fresh b' out ordered
          (λ i. rw (get-empty, get-empty)) r in
      let done =
        run-finalized (hooks env threshold turns) Builder.fresh b' out refl by
          (rw (events_of-hooks env threshold) ordered) r in
      let calls =
        tool_calls-run (hooks env threshold turns) Builder.fresh b' out refl by
          (rw (events_of-hooks env threshold) ordered) r in
      (
        b',
        out,
        judge_stream-run env threshold turns Builder.fresh fills ∙ r,
        valid,
        tools_last-run (hooks env threshold turns) Builder.fresh b' out by
            (rw (events_of-hooks env threshold) ordered) r,
        rw (calls, done, (events_of-hooks env threshold), some_delta) queue,
      )
