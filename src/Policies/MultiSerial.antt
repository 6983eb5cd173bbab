-- ===== src/Policies/MultiSerial.antt =====
-- src/luthien_proxy/policies/multi_serial_policy.py and `validate_sub_policies_interface` of
-- src/luthien_proxy/policies/multi_policy_utils.py. The sub-policies are records of hooks over the state that
-- a request's context holds; an exception ends the call.
pub mod Nesting
mod Tests
use luthien_proxy.Base.{
  ◌≡◌, refl, ap, String, str_append, Bool, true, false, Option, none, some, List, [], ◌∷◌, ◌++◌,
  map, if◌then◌else◌,
}
use luthien_proxy.Stream.Event.{Event}
use luthien_proxy.Builder.Marker.{join_comma}

-- `type_error` names the sub-policy that lacks the interface; `raised` is an exception of a hook.
pub data Outcome (A : Type 0) : Type 0 where
  returned : A → Outcome A
  type_error : String → Outcome A
  raised : String → Outcome A

infixl 5 ◌>>=◌
abbrev pub ◌>>=◌ : {A B : Type 0} → Outcome A → (A → Outcome B) → Outcome B
returned a >>= f = f a
type_error name >>= f = type_error name
raised error >>= f = raised error

-- What the SDK's requests and responses are, and what a request's context holds
pub record Gateway : Type 1 where
  pub Request : Type 0
  pub Response : Type 0
  pub Context : Type 0

module _ (g : Gateway) where
  open g use {Request, Response, Context}

  abbrev pub Hook : Type 0 → Type 0 → Type 0
  Hook A B = A → Context → Outcome (B × Context)

  -- `AnthropicPolicyEmission`
  pub data Emission : Type 0 where
    stream_event : Event → Emission
    whole_response : Response → Emission

  -- `none` in the last two: the policy has no such hook.
  pub record Policy : Type 0 where
    pub short_policy_name : String
    pub active_policy_names : List String
    pub implements_interface : Bool
    pub on_anthropic_request : Hook Request Request
    pub on_anthropic_response : Hook Response Response
    pub on_anthropic_stream_event : Hook Event (List Event)
    pub on_anthropic_stream_complete : Option (Context → Outcome (List Emission × Context))
    pub on_anthropic_streaming_policy_complete : Option (Context → Outcome Context)

  -- `validate_sub_policies_interface`
  unfoldable pub validate_sub_policies_interface : List Policy → Outcome (Unit {0})
  validate_sub_policies_interface [] = returned tt
  validate_sub_policies_interface (p ∷ ps) =
      let rest = validate_sub_policies_interface ps in
      if p.implements_interface then rest else type_error p.short_policy_name

  unfoldable pub chain_requests : List Policy → Hook Request Request
  chain_requests [] request context = returned (request, context)
  chain_requests (p ∷ ps) request context = do
    (request', context') ← p.on_anthropic_request request context
    chain_requests ps request' context'

  unfoldable pub chain_responses : List Policy → Hook Response Response
  chain_responses [] response context = returned (response, context)
  chain_responses (p ∷ ps) response context = do
    (response', context') ← p.on_anthropic_response response context
    chain_responses ps response' context'

  -- `for evt in events: next_events.extend(await policy.on_anthropic_stream_event(evt, context))`
  unfoldable pub feed : Policy → Hook (List Event) (List Event)
  feed p [] context = returned ([], context)
  feed p (evt ∷ events) context = do
    (here, context1) ← p.on_anthropic_stream_event evt context
    (rest, context2) ← feed p events context1
    returned (here ++ rest, context2)

  -- the loop over the sub-policies, with its break
  unfoldable pub chain_events : List Policy → Hook (List Event) (List Event)
  chain_events [] events context = returned (events, context)
  chain_events (p ∷ ps) events context = do
    (next_events, context') ← feed p events context
    elim next_events [ [] ↦ returned ([], context') | e ∷ es ↦ chain_events ps (e ∷ es) context' ]

  unfoldable pub serial_request : List Policy → Hook Request Request
  serial_request ps request context = do
    _ ← validate_sub_policies_interface ps
    chain_requests ps request context

  unfoldable pub serial_response : List Policy → Hook Response Response
  serial_response ps response context = do
    _ ← validate_sub_policies_interface ps
    chain_responses ps response context

  unfoldable pub serial_stream_event : List Policy → Hook Event (List Event)
  serial_stream_event ps event context = do
    _ ← validate_sub_policies_interface ps
    chain_events ps (event ∷ []) context

  -- One downstream policy over emissions that are events or whole responses
  unfoldable pub feed_emissions : Policy → Hook (List Emission) (List Emission)
  feed_emissions p [] context = returned ([], context)
  feed_emissions p (stream_event evt ∷ emissions) context = do
    (here, context1) ← p.on_anthropic_stream_event evt context
    (rest, context2) ← feed_emissions p emissions context1
    returned (map stream_event here ++ rest, context2)
  feed_emissions p (whole_response r ∷ emissions) context = do
    (rest, context1) ← feed_emissions p emissions context
    returned (whole_response r ∷ rest, context1)

  -- `for downstream in remaining`, with its break
  unfoldable pub downstream : List Policy → Hook (List Emission) (List Emission)
  downstream [] emissions context = returned (emissions, context)
  downstream (p ∷ ps) emissions context = do
    (next_events, context') ← feed_emissions p emissions context
    elim next_events [ [] ↦ returned ([], context') | e ∷ es ↦ downstream ps (e ∷ es) context' ]

  unfoldable pub completed : Policy → Context → Outcome (List Emission × Context)
  completed p context = elim p.on_anthropic_stream_complete [
    | none ↦ returned ([], context)
    | some hook ↦ hook context
  ]

  -- `on_anthropic_stream_complete`
  unfoldable pub serial_stream_complete : List Policy → Context → Outcome (List Emission × Context)
  serial_stream_complete [] context = returned ([], context)
  serial_stream_complete (p ∷ ps) context = do
    (events, context1) ← completed p context
    (here, context2) ← elim events [
      | [] ↦ returned ([], context1)
      | e ∷ es ↦ downstream ps (e ∷ es) context1
    ]
    (rest, context3) ← serial_stream_complete ps context2
    returned (here ++ rest, context3)

  -- `on_anthropic_streaming_policy_complete`
  unfoldable pub serial_streaming_policy_complete : List Policy → Context → Outcome Context
  serial_streaming_policy_complete [] context = returned context
  serial_streaming_policy_complete (p ∷ ps) context = do
    context' ← elim p.on_anthropic_streaming_policy_complete [
      | none ↦ returned context
      | some hook ↦ hook context
    ]
    serial_streaming_policy_complete ps context'

  unfoldable pub all_names : List Policy → List String
  all_names [] = []
  all_names (p ∷ ps) = p.active_policy_names ++ all_names ps

  -- `MultiSerialPolicy`, itself a policy
  abbrev pub multi_serial : List Policy → Policy
  multi_serial ps = record {
    short_policy_name =
        str_append "MultiSerial("
          (str_append (join_comma (map (λ (p : Policy). p.short_policy_name) ps)) ")");
    active_policy_names = all_names ps;
    implements_interface = true;
    on_anthropic_request = serial_request ps;
    on_anthropic_response = serial_response ps;
    on_anthropic_stream_event = serial_stream_event ps;
    on_anthropic_stream_complete = some (serial_stream_complete ps);
    on_anthropic_streaming_policy_complete = some (serial_streaming_policy_complete ps);
  }
