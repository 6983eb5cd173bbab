-- ===== src/Policies/StringReplacement/Lengths.antt =====
-- The counters of a stream, and how much text is held back.
use luthien_proxy.Base.{
  ℕ, zero, suc, ◌+◌, ◌-◌, ◌≤◌, ◌≡◌, refl, ap, true, false, Option, none, some, List, [], ◌∷◌, ◌++◌,
  ℤ, arith, length, is_nil, ◌==◌, leb, Bool-cases, inl, inr,
}
use luthien_proxy.Text.{Text, after}
use luthien_proxy.Policies.StringReplacement.{CaseLib, StringReplacement, replace_text}
use luthien_proxy.Policies.StringReplacement.Stream.{
  TextEvent, text_delta, block_stop, message_delta, other_event, BufferState, get_buffer_state,
  flush_buffer, count_chunk, unbuffered, buffered, flush_before, replace_event,
  replacement_stream_event, ModifiedEvent, report, replacement_stream_complete, replacement_stream,
}

-- The characters in the text deltas of the events
abbrev pub text_length : List TextEvent → ℕ
text_length [] = 0
text_length (text_delta index text ∷ events) = length text + text_length events
text_length (_ ∷ events) = text_length events

pub text_length-append :
    (e f : List TextEvent) → text_length (e ++ f) ≡ text_length e + text_length f
text_length-append [] f = omega arith
text_length-append (text_delta i t ∷ e) f = omega (arith, text_length-append e f)
text_length-append (block_stop i ∷ e) f = text_length-append e f
text_length-append (message_delta d ∷ e) f = text_length-append e f
text_length-append (other_event d ∷ e) f = text_length-append e f

length-after : (n : ℕ) (s : Text) → length (after n s) ≡ length s - n
unfolding after
length-after zero s = omega arith
length-after (suc n) [] = omega arith
length-after (suc n) (c ∷ s) = omega (arith, length-after n s)

leb-false : (a b : ℕ) → leb a b ≡ false → b ≤ a
leb-false a b h = ground arith

-- From one state to the next, with the events between them
record Moves (size : ℕ) (event : TextEvent) (s t : BufferState) (events : List TextEvent)
    : Type 0 where
  counted : t.original_length ≡ s.original_length + text_length (event ∷ [])
  emitted : t.transformed_length ≡ s.transformed_length + text_length events
  held : length s.buffer ≤ size → length t.buffer ≤ size

length-nil : (s : Text) → is_nil s ≡ true → length s ≡ 0
length-nil [] h = refl
length-nil (c ∷ s) h = absurd (ground arith)

pub flush_buffer-emitted :
    (s : BufferState)
    → ((flush_buffer s).0.transformed_length
        ≡ s.transformed_length + text_length (flush_buffer s).1)
      × ((flush_buffer s).0.original_length ≡ s.original_length)
      × (length (flush_buffer s).0.buffer ≡ 0)
unfolding flush_buffer
flush_buffer-emitted s = elim (Bool-cases (is_nil s.buffer)) [
  | inl e ↦ rw (e, flush_buffer) (omega arith, refl, length-nil s.buffer e)
  | inr e ↦ rw (e, flush_buffer) (omega arith, refl, refl)
]

pub count_chunk-keeps :
    (index : ℤ) (len count : ℕ) (s : BufferState)
    → ((count_chunk index len count s).original_length ≡ s.original_length + len)
      × ((count_chunk index len count s).transformed_length ≡ s.transformed_length)
      × ((count_chunk index len count s).buffer ≡ s.buffer)
unfolding count_chunk
count_chunk-keeps index len count s = elim (Bool-cases (count == 0)) [
  | inl e ↦ rw e (refl, refl, refl)
  | inr e ↦ rw e (refl, refl, refl)
]

unbuffered-Moves :
    (size : ℕ) (index : ℤ) (text : Text) (r : Text × ℕ) (s : BufferState)
    → Moves size
        (text_delta index text)
        s
        (unbuffered index text r s).0
        (unbuffered index text r s).1
unfolding unbuffered
unbuffered-Moves size index text (t, n) s =
    let (a, b, c) = count_chunk-keeps index (length text) n s in
    record {
      counted = omega (arith, a);
      emitted = omega (arith, b);
      held = λ h. omega (arith, h, ap length c);
    }

buffered-Moves :
    (size : ℕ) (index : ℤ) (text : Text) (r : Text × ℕ) (s : BufferState)
    → Moves size
        (text_delta index text)
        s
        (buffered size index text r s).0
        (buffered size index text r s).1
unfolding buffered
buffered-Moves size index text (t, n) s =
    let (a, b, c) = count_chunk-keeps index (length text) n s in
    elim (Bool-cases (leb (length t) size)) [
      | inl e ↦
          rw (e, buffered)
            (record {
              counted = omega (arith, a);
              emitted = omega (arith, b);
              held = λ h. ground (arith, e);
            })
      | inr e ↦
          rw (e, buffered)
            (record {
              counted = omega (arith, a);
              emitted = omega (arith, b);
              held =
                  λ h. omega (arith, length-after (length t - size) t, leb-false (length t) size e);
            })
    ]

flush_before-Moves :
    (size : ℕ) (event : TextEvent) (s : BufferState)
    → text_length (event ∷ []) ≡ 0
    → Moves size event s (get_buffer_state (flush_before event s).0) (flush_before event s).1
unfolding flush_before
flush_before-Moves size event s z =
    let (a, b, c) = flush_buffer-emitted s in
    record {
      counted = omega (arith, b, z);
      emitted = omega (arith, a, z, text_length-append (flush_buffer s).1 (event ∷ []));
      held = λ h. omega (arith, c);
    }

same-Moves :
    (size : ℕ) (event : TextEvent) (s : BufferState)
    → text_length (event ∷ []) ≡ 0
    → Moves size event s s (event ∷ [])
same-Moves size event s z = record {
  counted = omega (arith, z);
  emitted = omega (arith, z);
  held = λ h. h;
}

replace_event-Moves :
    (lib : CaseLib) (policy : StringReplacement) (event : TextEvent) (state : Option BufferState)
    → Moves policy.buffer_size event
        (get_buffer_state state)
        (get_buffer_state (replace_event lib policy event state).0)
        (replace_event lib policy event state).1
unfolding replace_event
replace_event-Moves lib policy (other_event e) state = same-Moves _ _ _ refl
replace_event-Moves lib policy (message_delta d) state =
    elim (Bool-cases (policy.buffer_size == 0)) [
      | inl e ↦ rw (e, replace_event) (same-Moves _ (message_delta d) _ refl)
      | inr e ↦ rw (e, replace_event) (flush_before-Moves _ (message_delta d) _ refl)
    ]
replace_event-Moves lib policy (block_stop i) state = elim (Bool-cases (policy.buffer_size == 0)) [
  | inl e ↦ rw (e, replace_event) (same-Moves _ (block_stop i) _ refl)
  | inr e ↦ rw (e, replace_event) (flush_before-Moves _ (block_stop i) _ refl)
]
replace_event-Moves lib policy (text_delta i t) state =
    elim (Bool-cases (policy.buffer_size == 0)) [
      | inl e ↦
          rw (e, replace_event)
            (unbuffered-Moves policy.buffer_size i t (replace_text lib policy t)
              (get_buffer_state state))
      | inr e ↦
          rw (e, replace_event)
            (buffered-Moves policy.buffer_size i t
              (replace_text lib policy ((get_buffer_state state).buffer ++ t))
              (get_buffer_state state))
    ]

pub replacement_stream_event-held :
    (lib : CaseLib) (policy : StringReplacement) (event : TextEvent) (state : Option BufferState)
    → length (get_buffer_state state).buffer ≤ policy.buffer_size
    → length (get_buffer_state (replacement_stream_event lib policy event state).0).buffer
      ≤ policy.buffer_size
unfolding replacement_stream_event
replacement_stream_event-held lib policy event state h =
    elim (Bool-cases policy.apply_to_response) [
      | inl e ↦ rw e ((replace_event-Moves lib policy event state).held h)
      | inr e ↦ rw e h
    ]

report-some :
    (s : BufferState) (m : ModifiedEvent)
    → report s ≡ some m
    → (m.original_length ≡ s.original_length) × (m.transformed_length ≡ s.transformed_length)
report-some s m h = elim (Bool-cases (s.total_replacements == 0)) [
  | inl e ↦ absurd (ground (arith, e, h))
  | inr e ↦ ground (arith, e, h)
]

-- The lengths of a report against a state and what comes in and goes out from there on
abbrev Balanced : Option BufferState → List TextEvent → List TextEvent → ModifiedEvent → Type 0
Balanced state events out m =
    (m.original_length ≡ (get_buffer_state state).original_length + text_length events)
    × (m.transformed_length ≡ (get_buffer_state state).transformed_length + text_length out)

complete-Balanced :
    (policy : StringReplacement) (state : Option BufferState) (m : ModifiedEvent)
    → policy.apply_to_response ≡ true
    → (replacement_stream_complete policy state).1 ≡ some m
    → Balanced state [] (replacement_stream_complete policy state).0 m
unfolding replacement_stream_complete
complete-Balanced policy none m a h = absurd (ground (arith, h))
complete-Balanced policy (some s) m a h =
    let (e, o, _) = flush_buffer-emitted s in
    let (p, q) = report-some (flush_buffer s).0 m (rw a at h) in
    rw a (omega (arith, p, o), omega (arith, q, e))

pub replacing :
    (lib : CaseLib) (policy : StringReplacement) (event : TextEvent) (state : Option BufferState)
    → policy.apply_to_response ≡ true
    → replacement_stream_event lib policy event state ≡ replace_event lib policy event state
unfolding replacement_stream_event
replacing lib policy event state a = rw (a, replacement_stream_event) refl

stream-Balanced :
    (lib : CaseLib) (policy : StringReplacement) (events : List TextEvent)
    (state : Option BufferState) (m : ModifiedEvent)
    → policy.apply_to_response ≡ true
    → (replacement_stream lib policy events state).1 ≡ some m
    → Balanced state events (replacement_stream lib policy events state).0 m
unfolding replacement_stream
stream-Balanced lib policy [] state m a h = complete-Balanced policy state m a h
stream-Balanced lib policy (event ∷ events) state m a h =
    let step = replace_event lib policy event state in
    let moves = replace_event-Moves lib policy event state in
    let (p, q) =
      stream-Balanced lib policy events step.0 m a (rw (replacing lib policy event state a) at h) in
    let both = text_length-append step.1 (replacement_stream lib policy events step.0).0 in
    rw (replacing lib policy event state a) (
      omega (arith, p, moves.counted, text_length-append (event ∷ []) events),
      omega (arith, q, moves.emitted, both),
    )

-- The lengths that a stream reports in the end are those of the text that came in and of the text that
-- went out, what the buffer held back included.
pub replacement_stream-lengths :
    (lib : CaseLib) (policy : StringReplacement) (events : List TextEvent) (m : ModifiedEvent)
    → policy.apply_to_response ≡ true
    → (replacement_stream lib policy events none).1 ≡ some m
    → (m.original_length ≡ text_length events)
      × (m.transformed_length ≡ text_length (replacement_stream lib policy events none).0)
replacement_stream-lengths lib policy events m a h =
    let (p, q) = stream-Balanced lib policy events none m a h in
    (omega (arith, p), omega (arith, q))
