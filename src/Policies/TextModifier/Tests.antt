-- ===== src/Policies/TextModifier/Tests.antt =====
-- A text and a tool under a policy that appends a suffix.
use luthien_proxy.Base.{◌+◌, ℤ, pos, ◌≡◌, refl, str_append, some, none, List, [], ◌∷◌, length}
use luthien_proxy.Stream.Event.{
  Event, content_block_start, content_block_delta, content_block_stop, message_stop, text_block,
  tool_use_block, text_delta,
}
use luthien_proxy.Policies.TextModifier.{
  initial, on_block_start, on_block_stop, release, on_text_event, on_text_complete, text_stream,
}
use luthien_proxy.Policies.TextModifier.Stops.{count_stops, sent, text_stream-count_stops}

abbrev upstream : List Event
upstream =
    content_block_start (pos 0) (text_block "")
    ∷ content_block_delta (pos 0) (text_delta "hi")
    ∷ content_block_stop (pos 0)
    ∷ content_block_start (pos 1) (tool_use_block "t1" "ls")
    ∷ content_block_stop (pos 1)
    ∷ message_stop
    ∷ []

upstream-text_stream :
    (text_stream (λ t. str_append t "!") (some "bye") upstream initial).1
    ≡ content_block_start (pos 0) (text_block "")
      ∷ content_block_delta (pos 0) (text_delta "hi!")
      ∷ content_block_delta (pos 0) (text_delta "bye")
      ∷ content_block_stop (pos 0)
      ∷ content_block_start (pos 1) (tool_use_block "t1" "ls")
      ∷ content_block_stop (pos 1)
      ∷ message_stop
      ∷ []
unfolding text_stream on_text_event on_text_complete on_block_start on_block_stop release
upstream-text_stream = refl

text_stream-count_stops_example :
    ((text_stream (λ t. t) (some "bye") upstream initial).0.held_stop ≡ none)
    × ((i : ℤ)
        → count_stops i (text_stream (λ t. t) (some "bye") upstream initial).1
          ≡ count_stops i upstream)
    × (length (text_stream (λ t. t) (some "bye") upstream initial).1
        ≡ length upstream + sent (text_stream (λ t. t) (some "bye") upstream initial).0)
text_stream-count_stops_example = text_stream-count_stops (λ t. t) (some "bye") upstream
