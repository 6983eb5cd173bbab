-- ===== src/Policies/StringReplacement/Held.antt =====
-- How much text the buffer holds back.
use luthien_proxy.Base.{
  ◌+◌, ◌-◌, ◌≤◌, ◌≡◌, refl, true, false, Option, none, List, [], ◌∷◌, arith, length, leb,
  Bool-cases, ◌⊎◌, inl, inr,
}
use luthien_proxy.Text.{Text}
use luthien_proxy.Policies.StringReplacement.{
  CaseLib, StringReplacement, StringReplacementConfig, longest_source, new_policy,
}
use luthien_proxy.Policies.StringReplacement.Stream.{
  TextEvent, BufferState, get_buffer_state, replacement_stream_event,
}
use luthien_proxy.Policies.StringReplacement.Lengths.{replacement_stream_event-held}

-- The state after some events of a stream
abbrev pub held_after :
    CaseLib → StringReplacement → List TextEvent → Option BufferState → Option BufferState
held_after lib policy [] state = state
held_after lib policy (event ∷ events) state =
    held_after lib policy events (replacement_stream_event lib policy event state).0

-- One of the sources is longer than the text.
abbrev pub LongerSource : List (Text × Text) → Text → Type 0
LongerSource [] b = false ≡ true
LongerSource ((from_str, _) ∷ pairs) b = (length b + 1 ≤ length from_str) ⊎ LongerSource pairs b

longest_source-LongerSource :
    (pairs : List (Text × Text)) (b : Text)
    → length b + 1 ≤ longest_source pairs
    → LongerSource pairs b
unfolding longest_source
longest_source-LongerSource [] b h = absurd (omega (arith, h))
longest_source-LongerSource ((from_str, t) ∷ pairs) b h =
    elim (Bool-cases (leb (longest_source pairs) (length from_str))) [
      | inl e ↦ inl (rw e at h)
      | inr e ↦ inr (longest_source-LongerSource pairs b (rw e at h))
    ]

held_after-held :
    (lib : CaseLib) (policy : StringReplacement) (events : List TextEvent)
    (state : Option BufferState)
    → length (get_buffer_state state).buffer ≤ policy.buffer_size
    → length (get_buffer_state (held_after lib policy events state)).buffer ≤ policy.buffer_size
held_after-held lib policy [] state h = h
held_after-held lib policy (event ∷ events) state h =
    held_after-held lib policy events (replacement_stream_event lib policy event state).0
      (replacement_stream_event-held lib policy event state h)

short-cases :
    (pairs : List (Text × Text)) (b : Text)
    → length b ≤ longest_source pairs - 1
    → (b ≡ []) ⊎ LongerSource pairs b
short-cases pairs [] h = inl refl
short-cases pairs (c ∷ b) h = inr (longest_source-LongerSource pairs (c ∷ b) (omega (arith, h)))

-- After any events of a stream, what the policy of a configuration holds back is empty, or shorter than
-- one of its sources.
pub new_policy-held_after :
    (lib : CaseLib) (config : StringReplacementConfig) (events : List TextEvent)
    → ((get_buffer_state (held_after lib (new_policy config) events none)).buffer ≡ [])
      ⊎ LongerSource config.replacements
          (get_buffer_state (held_after lib (new_policy config) events none)).buffer
unfolding new_policy
new_policy-held_after lib config events =
    short-cases config.replacements
      (get_buffer_state (held_after lib (new_policy config) events none)).buffer
      (held_after-held lib (new_policy config) events none (omega arith))
