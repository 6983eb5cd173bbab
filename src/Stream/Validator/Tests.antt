-- ===== src/Stream/Validator/Tests.antt =====
-- A stream of one text block.
use luthien_proxy.Base.{
  pos, ◌≡◌, refl, some, List, [], ◌∷◌, ◌↔◌, map, contains, add, difference, none,
}
use luthien_proxy.Stream.Event.{
  message_start, content_block_start, content_block_delta, content_block_stop, message_delta,
  message_stop, text_block, text_delta, view, EventView, StopReason,
}
use luthien_proxy.Stream.Validator
use luthien_proxy.Stream.Validator.{validate}
use luthien_proxy.Stream.Validator.Verdict.{Follows, validate-eq-nil}

abbrev later : List EventView
later = map view (
    content_block_start (pos 0) (text_block "")
    ∷ content_block_delta (pos 0) (text_delta "hi")
    ∷ content_block_stop (pos 0)
    ∷ message_delta
        (record { stop_reason = some StopReason.end_turn; stop_sequence = none; output_tokens = 7 })
    ∷ message_stop
    ∷ [])

later_valid : validate (view (message_start "m") ∷ later) ≡ []
unfolding validate Validator.check_first Validator.check_last Validator.check_content_before_delta
    Validator.find_message_delta Validator.check_late Validator.check_lifecycle
    Validator.check_closed contains add difference
later_valid = refl

validate-eq-nil_example :
    (validate (view (message_start "m") ∷ later) ≡ []) ↔ Follows (view (message_start "m")) later
validate-eq-nil_example = validate-eq-nil (view (message_start "m")) later
