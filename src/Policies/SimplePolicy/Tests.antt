-- ===== src/Policies/SimplePolicy/Tests.antt =====
-- A policy that shouts.
use luthien_proxy.Base.{
  pos, ◌≡◌, refl, String, str_eq, str_append, some, none, [], ◌∷◌, if◌then◌else◌,
}
use luthien_proxy.Base.Dict
use luthien_proxy.Json.{JsonValue, JsonObject, JsonLib}
use luthien_proxy.Stream.Event.{
  content_block_start, content_block_delta, content_block_stop, text_block, tool_use_block,
  text_delta, input_json_delta,
}
use luthien_proxy.Builder.Types.{ContentBlock}
use luthien_proxy.Policies.SimplePolicy.{
  Simple, Buffers, no_buffers, simple_stream, simple_stream_event, simple_start, simple_delta,
  simple_stop, simple_tool_stop, simple_response,
}
use luthien_proxy.Policies.SimplePolicy.Blocks.{
  text_then_stop, collect, simple_stream-simple_response,
}

abbrev empty_json : JsonLib
empty_json = record {
  loads = λ s. if str_eq s "{}" then some (JsonValue.object JsonObject.end) else none;
  dumps = λ v. "{}";
  is_zero = λ n. str_eq n "0";
}

abbrev shout : Simple
shout = record {
  simple_on_request = λ t. str_append t "!";
  simple_on_response_content = λ t. str_append t "!";
  simple_on_anthropic_tool_call = λ t. record t { name = str_append t.name "!" };
}

-- A changed name of a tool does not reach the client of a stream.
shout_stream :
    simple_stream empty_json shout
      (content_block_start (pos 0) (tool_use_block "t" "ls") ∷ content_block_stop (pos 0) ∷ [])
      no_buffers
    ≡ some (
      no_buffers,
      content_block_start (pos 0) (tool_use_block "t" "ls")
          ∷ content_block_delta (pos 0) (input_json_delta "{}")
          ∷ content_block_stop (pos 0)
          ∷ [],
    )
unfolding simple_stream simple_stream_event simple_start simple_delta simple_stop simple_tool_stop
    Dict.get Dict.put Dict.remove Dict.empty
shout_stream = refl

shout_response :
    simple_response shout (ContentBlock.tool_use "t" "ls" JsonValue.null ∷ [])
    ≡ ContentBlock.tool_use "t" "ls!" JsonValue.null ∷ []
unfolding simple_response
shout_response = refl

simple_stream-simple_response_example :
    (s' : Buffers) × (t' : String) × (simple_stream empty_json shout
        (content_block_start (pos 0) (text_block "") ∷ text_then_stop (pos 0) ("a" ∷ "b" ∷ []))
        no_buffers
      ≡ some (
        s',
        content_block_start (pos 0) (text_block "")
            ∷ content_block_delta (pos 0) (text_delta t')
            ∷ content_block_stop (pos 0)
            ∷ [],
      ))
    × (simple_response shout (ContentBlock.text (collect "" ("a" ∷ "b" ∷ [])) ∷ [])
        ≡ ContentBlock.text t' ∷ [])
simple_stream-simple_response_example =
    simple_stream-simple_response empty_json shout (pos 0) "" ("a" ∷ "b" ∷ []) no_buffers
