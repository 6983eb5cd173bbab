-- ===== src/Policies/StringReplacement/Tests.antt =====
-- A policy that turns "foo" into "barbar" and "bar" into "y", for ASCII letters.
use luthien_proxy.Base.{◌⊎◌, ◌≡◌, refl, true, false, none, List, [], ◌∷◌, pos}
use luthien_proxy.Json.{end}
use luthien_proxy.Text.{Text, codes, includes}
use luthien_proxy.Policies.StringReplacement.{
  CaseLib, StringReplacement, StringReplacementConfig, both, new_policy, replace_text,
}
use luthien_proxy.Policies.StringReplacement.Stream.{
  TextEvent, text_delta, block_stop, replacement_stream_event, replacement_stream, ModifiedEvent,
}
use luthien_proxy.Policies.StringReplacement.Sides.{
  Message, plain, blocks, tool_result, whole, replacement_request,
}
use luthien_proxy.Policies.StringReplacement.Everywhere.{map_messages}
use luthien_proxy.Policies.StringReplacement.Lengths.{text_length, replacement_stream-lengths}
use luthien_proxy.Policies.StringReplacement.Held.{LongerSource, new_policy-held_after}
use luthien_proxy.Policies.StringReplacement.Whole.{text_of}
use luthien_proxy.Policies.StringReplacement.Unchanged.{replacement_stream_unchanged}
use luthien_proxy.Policies.StringReplacement.Requests.{new_text, replacement_request-map_messages}

abbrev upper_by_one : Text → Text
upper_by_one [] = []
upper_by_one (c ∷ s) = 65 ∷ upper_by_one s

abbrev small_lib : CaseLib
small_lib = record {
  is_alpha = λ c. true;
  is_upper = λ c. false;
  is_lower = λ c. true;
  upper = upper_by_one;
  lower = λ t. t;
  capitalize = λ t. t;
  subn = λ f g t. (t, 0);
}

abbrev config_ex : StringReplacementConfig
config_ex = record {
  replacements = (codes "foo", codes "barbar") ∷ (codes "bar", codes "y") ∷ [];
  match_capitalization = false;
  apply_to = both;
}

abbrev chained : StringReplacement
chained = new_policy config_ex

-- The example of the docstring
chained_twice : replace_text small_lib chained (codes "foobar") ≡ (codes "yyy", 4)
unfolding replace_text new_policy
chained_twice = refl

abbrev message_ex : Message
message_ex = record { content = plain (codes "a foo"); rest = end }

abbrev tool_ex : Message
tool_ex = record { content = blocks (tool_result (whole (codes "bar")) end ∷ []); rest = end }

replacement_request-map_messages_example :
    (replacement_request small_lib chained (message_ex ∷ tool_ex ∷ [])).0
    ≡ map_messages (new_text small_lib chained) (message_ex ∷ tool_ex ∷ [])
unfolding new_policy
replacement_request-map_messages_example =
    replacement_request-map_messages small_lib chained (λ f g t h. refl) (message_ex ∷ tool_ex ∷ [])
      refl refl

new_policy-held_after_example : (codes "fo" ≡ []) ⊎ LongerSource config_ex.replacements (codes "fo")
unfolding new_policy replacement_stream_event
new_policy-held_after_example =
    new_policy-held_after small_lib config_ex
      (text_delta (pos 0) (codes "x") ∷ text_delta (pos 0) (codes "fo") ∷ [])

-- "foo" in two chunks
abbrev cut : List TextEvent
cut = text_delta (pos 0) (codes "f") ∷ text_delta (pos 0) (codes "oo!") ∷ block_stop (pos 0) ∷ []

abbrev reported : ModifiedEvent
reported = record {
  blocks_modified = 1;
  total_replacements = 3;
  original_length = 4;
  transformed_length = 3;
}

replacement_stream-lengths_example :
    (4 ≡ text_length cut) × (3 ≡ text_length (replacement_stream small_lib chained cut none).0)
unfolding replacement_stream new_policy
replacement_stream-lengths_example =
    replacement_stream-lengths small_lib chained cut reported refl refl

abbrev harmless : List TextEvent
harmless =
    text_delta (pos 0) (codes "fo") ∷ text_delta (pos 0) (codes "x") ∷ block_stop (pos 0) ∷ []

replacement_stream_unchanged_example :
    text_of (replacement_stream small_lib chained harmless none).0 ≡ codes "fox"
unfolding new_policy includes
replacement_stream_unchanged_example =
    replacement_stream_unchanged small_lib chained harmless refl refl refl
