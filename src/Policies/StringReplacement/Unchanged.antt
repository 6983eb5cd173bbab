-- ===== src/Policies/StringReplacement/Unchanged.antt =====
-- The text of whole streams.
use luthien_proxy.Base.{
  ◌≤◌, ◌≡◌, refl, sym, ap, ◌∙◌, true, false, Option, none, some, List, [], ◌∷◌, ◌++◌, arith, length,
}
use luthien_proxy.Text.{Text}
use luthien_proxy.Text.Laws.{append_assoc, append_nil}
use luthien_proxy.Policies.StringReplacement.{CaseLib, StringReplacement}
use luthien_proxy.Policies.StringReplacement.Stream.{
  TextEvent, BufferState, get_buffer_state, replace_event, replacement_stream_complete,
  replacement_stream,
}
use luthien_proxy.Policies.StringReplacement.Lengths.{replacement_stream_event-held, replacing}
use luthien_proxy.Policies.StringReplacement.Whole.{
  text_of, has_source, text_of-append, Carries, replace_event-Carries, has_source-prefix,
  has_source-suffix, flush_buffer-text,
}

complete-text :
    (policy : StringReplacement) (state : Option BufferState)
    → policy.apply_to_response ≡ true
    → text_of (replacement_stream_complete policy state).0 ≡ (get_buffer_state state).buffer
unfolding replacement_stream_complete
complete-text policy none a = refl
complete-text policy (some s) a = rw a ((flush_buffer-text s).0)

stream-text :
    (lib : CaseLib) (policy : StringReplacement) (events : List TextEvent)
    (state : Option BufferState)
    → policy.apply_to_response ≡ true
    → policy.match_capitalization ≡ false
    → length (get_buffer_state state).buffer ≤ policy.buffer_size
    → has_source policy.replacements ((get_buffer_state state).buffer ++ text_of events) ≡ false
    → text_of (replacement_stream lib policy events state).0
      ≡ (get_buffer_state state).buffer ++ text_of events
unfolding replacement_stream Carries
stream-text lib policy [] state a m held h =
    complete-text policy state a ∙ sym (append_nil (get_buffer_state state).buffer)
stream-text lib policy (event ∷ events) state a m held h =
    let s = get_buffer_state state in
    let out = replace_event lib policy event state in
    let t = get_buffer_state out.0 in
    let split : s.buffer ++ text_of (event ∷ events)
        ≡ (s.buffer ++ text_of (event ∷ [])) ++ text_of events =
      ap (λ x. s.buffer ++ x) (text_of-append (event ∷ []) events)
      ∙ sym (append_assoc s.buffer (text_of (event ∷ [])) (text_of events)) in
    let none_here =
      has_source-prefix policy.replacements (s.buffer ++ text_of (event ∷ [])) (text_of events)
        (rw split at h) in
    let carried = replace_event-Carries lib policy event state m held none_here in
    let moved : s.buffer ++ text_of (event ∷ events)
        ≡ text_of out.1 ++ (t.buffer ++ text_of events) =
      split
      ∙ ap (λ x. x ++ text_of events) (sym carried)
      ∙ append_assoc (text_of out.1) t.buffer (text_of events) in
    let none_later =
      has_source-suffix policy.replacements (text_of out.1) (t.buffer ++ text_of events)
        (rw moved at h) in
    let held_later : length t.buffer ≤ policy.buffer_size =
      rw (replacing lib policy event state a) at
        (replacement_stream_event-held lib policy event state held) in
    let later = stream-text lib policy events out.0 a m held_later none_later in
    rw (replacing lib policy event state a) (
      text_of-append out.1 (replacement_stream lib policy events out.0).0
      ∙ ap (λ x. text_of out.1 ++ x) later
      ∙ sym moved)

-- If the policy applies to responses and does not ignore case, and no source occurs in the text of a
-- stream, not even across its chunks, then the text that goes out is the one that came in, and all of
-- it goes out.
pub replacement_stream_unchanged :
    (lib : CaseLib) (policy : StringReplacement) (events : List TextEvent)
    → policy.apply_to_response ≡ true
    → policy.match_capitalization ≡ false
    → has_source policy.replacements (text_of events) ≡ false
    → text_of (replacement_stream lib policy events none).0 ≡ text_of events
replacement_stream_unchanged lib policy events a m h =
    stream-text lib policy events none a m (omega arith) h
