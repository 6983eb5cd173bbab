-- ===== src/Policies/MultiSerial/Tests.antt =====
-- Chains of a policy that signs requests and doubles events, with the number of calls as context.
use luthien_proxy.Base.{ℕ, suc, ◌≡◌, refl, String, str_append, true, none, List, [], ◌∷◌, ◌++◌}
use luthien_proxy.Stream.Event.{message_stop}
use luthien_proxy.Policies.MultiSerial.{
  returned, Gateway, Policy, serial_request, serial_stream_event, multi_serial,
  validate_sub_policies_interface,
}
use luthien_proxy.Policies.MultiSerial.Nesting.{
  Compatible, serial_request_nested, serial_stream_event_nested,
}

abbrev texts : Gateway
texts = record { Request = String; Response = String; Context = ℕ }

abbrev signs : String → Policy texts
signs name = record {
  short_policy_name = name;
  active_policy_names = name ∷ [];
  implements_interface = true;
  on_anthropic_request = λ r c. returned (str_append r name, suc c);
  on_anthropic_response = λ r c. returned (str_append r name, suc c);
  on_anthropic_stream_event = λ e c. returned (e ∷ e ∷ [], suc c);
  on_anthropic_stream_complete = none;
  on_anthropic_streaming_policy_complete = none;
}

abbrev one : List (Policy texts)
one = signs "a" ∷ []

abbrev two : List (Policy texts)
two = signs "b" ∷ signs "c" ∷ []

one_Compatible : Compatible texts one
unfolding validate_sub_policies_interface
one_Compatible = refl

two-Compatible : Compatible texts two
unfolding validate_sub_policies_interface
two-Compatible = refl

serial_request_nested_example :
    serial_request texts (one ++ multi_serial texts two ∷ one) "" 0
    ≡ serial_request texts (one ++ (two ++ one)) "" 0
serial_request_nested_example =
    serial_request_nested texts one two one "" 0 one_Compatible two-Compatible one_Compatible

serial_stream_event_nested_example :
    serial_stream_event texts (multi_serial texts two ∷ one) message_stop 0
    ≡ serial_stream_event texts (two ++ one) message_stop 0
serial_stream_event_nested_example =
    serial_stream_event_nested texts two one message_stop 0 two-Compatible one_Compatible
