-- ===== src/Policies/TextModifier.antt =====
-- src/luthien_proxy/policy_core/text_modifier_policy.py: `TextModifierPolicy`. `modify_text` and the result of
-- `extra_text` are parameters of the definitions, as its subclasses supply them; the latter is the
-- same at each call. Errors that are only logged are not modelled.
pub mod Stops
mod Tests
use luthien_proxy.Base.{
  ℤ, pos, negsuc, ◌==ℤ◌, String, str_append, Bool, true, false, not, ◌&&◌, Option, none, some, List,
  [], ◌∷◌, ◌++◌, if◌then◌else◌, is_some, any_of, map,
}
use luthien_proxy.Stream.Event.{
  Event, content_block_start, content_block_delta, content_block_stop, message_delta, text_block,
  tool_use_block, BlockHead, Delta, text_delta,
}
use luthien_proxy.Builder.Types.{ContentBlock}

-- `_StreamState`; a held stop is kept by its index
pub record StreamState : Type 0 where
  pub last_text_index : ℤ
  pub held_stop : Option ℤ
  pub extra_text_emitted : Bool

abbrev pub initial : StreamState
initial = record { last_text_index = negsuc 0; held_stop = none; extra_text_emitted = false }

-- The texts of a response's blocks under `modify_text`
unfoldable pub modify_blocks : (String → String) → List ContentBlock → List ContentBlock
modify_blocks modify [] = []
modify_blocks modify (ContentBlock.text t ∷ blocks) =
    ContentBlock.text (modify t) ∷ modify_blocks modify blocks
modify_blocks modify (block ∷ blocks) = block ∷ modify_blocks modify blocks

abbrev pub is_text : ContentBlock → Bool
is_text (ContentBlock.text t) = true
is_text _ = false

-- `last_text_block["text"] += suffix`
unfoldable pub append_to_last : String → List ContentBlock → List ContentBlock
append_to_last suffix [] = []
append_to_last suffix (ContentBlock.text t ∷ blocks) =
    let rest = append_to_last suffix blocks in
    if any_of is_text blocks
    then ContentBlock.text t ∷ rest
    else ContentBlock.text (str_append t suffix) ∷ blocks
append_to_last suffix (block ∷ blocks) = block ∷ append_to_last suffix blocks

-- `_modify_anthropic_response`
unfoldable pub modify_anthropic_response :
    (String → String) → Option String → List ContentBlock → List ContentBlock
modify_anthropic_response modify none content = modify_blocks modify content
modify_anthropic_response modify (some suffix) content =
    append_to_last suffix (modify_blocks modify content)

unfoldable pub on_block_start :
    Option String → ℤ → BlockHead → StreamState → StreamState × List Event
on_block_start (some suffix) index (tool_use_block id name) state = elim state.held_stop [
  | none ↦ (state, content_block_start index (tool_use_block id name) ∷ [])
  | some held ↦
      if state.extra_text_emitted
      then (state, content_block_start index (tool_use_block id name) ∷ [])
      else (
        record state { held_stop = none; extra_text_emitted = true },
        content_block_delta state.last_text_index (text_delta suffix)
            ∷ content_block_stop held
            ∷ content_block_start index (tool_use_block id name)
            ∷ [],
      )
]
on_block_start extra index (text_block t) state =
    (record state { last_text_index = index }, content_block_start index (text_block t) ∷ [])
on_block_start extra index head state = (state, content_block_start index head ∷ [])

-- `[]`, or the stop that is held
abbrev pub held_events : Option ℤ → List Event
held_events none = []
held_events (some held) = content_block_stop held ∷ []

unfoldable pub on_block_stop : Option String → ℤ → StreamState → StreamState × List Event
on_block_stop extra index state =
    if (index ==ℤ state.last_text_index) && is_some extra && not state.extra_text_emitted
    then (record state { held_stop = some index }, held_events state.held_stop)
    else (state, content_block_stop index ∷ [])

-- The pending suffix, if there is one
abbrev pub suffix_events : Option String → StreamState → List Event
suffix_events none state = []
suffix_events (some suffix) state =
    if state.extra_text_emitted
    then []
    else content_block_delta state.last_text_index (text_delta suffix) ∷ []

-- The suffix and the held stop go out, then `after`.
unfoldable pub release : Option String → List Event → StreamState → StreamState × List Event
release extra after state = elim state.held_stop [
  | none ↦ (state, after)
  | some held ↦ (
    record state {
      held_stop = none;
      extra_text_emitted = if is_some extra then true else state.extra_text_emitted;
    },
    suffix_events extra state ++ content_block_stop held ∷ after,
  )
]

unfoldable pub on_text_event :
    (String → String) → Option String → Event → StreamState → StreamState × List Event
on_text_event modify extra (content_block_start index head) state =
    on_block_start extra index head state
on_text_event modify extra (content_block_stop index) state = on_block_stop extra index state
on_text_event modify extra (message_delta d) state = release extra (message_delta d ∷ []) state
on_text_event modify extra (content_block_delta index (text_delta t)) state =
    (state, content_block_delta index (text_delta (modify t)) ∷ [])
on_text_event modify extra event state = (state, event ∷ [])

-- `on_anthropic_stream_complete`
unfoldable pub on_text_complete : Option String → StreamState → StreamState × List Event
on_text_complete extra state = release extra [] state

-- A whole stream and its completion
unfoldable pub text_stream :
    (String → String) → Option String → List Event → StreamState → StreamState × List Event
text_stream modify extra [] state = on_text_complete extra state
text_stream modify extra (e ∷ events) state =
    let (state1, here) = on_text_event modify extra e state in
    let (state2, rest) = text_stream modify extra events state1 in (state2, here ++ rest)
