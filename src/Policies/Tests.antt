-- ===== src/Policies/Tests.antt =====
-- Concrete streams under the tool call judge.
use luthien_proxy.Base.{
  ℕ, pos, ◌≡◌, refl, str_append, none, some, List, [], ◌∷◌, true, leb, map, contains, add,
  difference,
}
use luthien_proxy.Base.Dict
use luthien_proxy.Stream.Event.{
  Event, message_start, content_block_start, content_block_delta, content_block_stop, message_delta,
  message_stop, text_block, tool_use_block, text_delta, input_json_delta, view, StopReason,
}
use luthien_proxy.Stream.Validator
use luthien_proxy.Stream.Validator.{validate}
use luthien_proxy.Builder
use luthien_proxy.Builder.Types.{Builder}
use luthien_proxy.Builder.Order.{tools_last}
use luthien_proxy.Builder.Tools.{tool_calls}
use luthien_proxy.Builder.Protocol.Total.{single_delta}
use luthien_proxy.Policies.ToolCallJudge.{JudgeEnv, JudgeReply, failed, judged}
use luthien_proxy.Policies.ToolCallJudge.Hooks.{approved, judge_stream}
use luthien_proxy.Policies.ToolCallJudge.Stream.{judge_stream_correct}

-- probabilities in percent
abbrev percent : JudgeEnv
percent = record {
  Probability = ℕ;
  at_least = λ p q. leb q p;
  one = 100;
  format_blocked = λ name arguments p explanation. some (str_append name " blocked");
}

abbrev reply : ℕ → JudgeReply percent
reply p = judged (record { probability = p; explanation = "" })

-- A text, a harmless tool and a harmful one
abbrev turns : List (Event × JudgeReply percent)
turns =
    (message_start "m", reply 0)
    ∷ (content_block_start (pos 0) (text_block ""), reply 0)
    ∷ (content_block_delta (pos 0) (text_delta "hi"), reply 0)
    ∷ (content_block_stop (pos 0), reply 0)
    ∷ (content_block_start (pos 1) (tool_use_block "t1" "ls"), reply 0)
    ∷ (content_block_delta (pos 1) (input_json_delta "{}"), reply 0)
    ∷ (content_block_stop (pos 1), reply 10)
    ∷ (content_block_start (pos 2) (tool_use_block "t2" "rm"), reply 0)
    ∷ (content_block_stop (pos 2), reply 90)
    ∷ (content_block_start (pos 3) (tool_use_block "t3" "cp"), reply 0)
    ∷ (content_block_stop (pos 3), failed "timeout")
    ∷ (
      message_delta (record {
        stop_reason = some StopReason.tool_use;
        stop_sequence = none;
        output_tokens = 7;
      }),
      reply 0,
    )
    ∷ (message_stop, reply 0)
    ∷ []

turns_valid : validate (map view (map (λ t. t.0) turns)) ≡ []
unfolding validate Validator.check_first Validator.check_last Validator.check_content_before_delta
    Validator.find_message_delta Validator.check_late Validator.check_lifecycle
    Validator.check_closed contains add difference
turns_valid = refl

turns_one_delta : single_delta (map (λ t. t.0) turns) ≡ true
unfolding single_delta
turns_one_delta = refl

turns-approved : approved percent 60 turns Dict.empty ≡ ("t1", "ls", "{}") ∷ []
unfolding approved Dict.get Dict.put Dict.remove Dict.empty
turns-approved = refl

judge_stream_correct_example :
    (b' : Builder) × (out : List Event) × (judge_stream percent 60 turns Builder.fresh
      ≡ some (b', out))
    × (validate (map view out) ≡ [])
    × (tools_last out ≡ true)
    × (tool_calls out ≡ approved percent 60 turns Dict.empty)
judge_stream_correct_example =
    judge_stream_correct percent 60 turns
      (λ name arguments p explanation. (str_append name " blocked", refl)) turns_valid
      turns_one_delta refl
