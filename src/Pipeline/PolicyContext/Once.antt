-- ===== src/Pipeline/PolicyContext/Once.antt =====
-- The note is given once, in the first user message.
use luthien_proxy.Base.{
  ℕ, zero, suc, ◌+◌, ◌≤◌, ◌<◌, ◌≡◌, inl, inr, refl, true, false, Option, none, some, List, [], ◌∷◌,
  ◌++◌, arith, length, Bool-cases, Option-cases,
}
use luthien_proxy.Text.{Text, includes}
use luthien_proxy.Text.Laws.{includes-append_left, append_assoc}
use luthien_proxy.Pipeline.PolicyContext.{
  Content, plain, blocks, Message, Request, context_open, build_awareness_message, mentions,
  already_injected, find_first_user_message_index, injected_content, inject_at,
  inject_policy_awareness,
}

awareness_mentions :
    (names : List Text) (t : Text)
    → includes context_open (build_awareness_message names ++ t) ≡ true
unfolding build_awareness_message
awareness_mentions names t = rw append_assoc (includes-append_left context_open _)

awareness_alone : (names : List Text) → includes context_open (build_awareness_message names) ≡ true
unfolding build_awareness_message
awareness_alone names = includes-append_left context_open _

injected_mentions :
    (names : List Text) (c : Option Content)
    → mentions (some (injected_content (build_awareness_message names) c)) ≡ true
unfolding injected_content
injected_mentions names none = awareness_mentions names _
injected_mentions names (some (plain t)) = awareness_mentions names _
injected_mentions names (some (blocks bs)) = rw (awareness_alone names) refl

inject_at_mentions :
    (names : List Text) (i : ℕ) (ms : List Message)
    → i < length ms
    → already_injected (inject_at (build_awareness_message names) i ms) ≡ true
unfolding inject_at already_injected
inject_at_mentions names i [] h = ground arith
inject_at_mentions names zero (m ∷ ms) h = rw (injected_mentions names m.content) refl
inject_at_mentions names (suc i) (m ∷ ms) h =
    let rest = inject_at_mentions names i ms (omega arith) in ground (arith, rest)

find-lt :
    (i u : ℕ) (ms : List Message)
    → find_first_user_message_index i ms ≡ some u
    → (i ≤ u) × (u < i + length ms)
unfolding find_first_user_message_index
find-lt i u [] h = ground arith
find-lt i u (m ∷ ms) h = ground (arith, find-lt (suc i) u ms)

-- A request that has the note, or has no user message, is not changed.
inject-injected :
    (request : Request) (policy_names : List Text)
    → already_injected request.messages ≡ true
    → inject_policy_awareness request policy_names ≡ request
unfolding inject_policy_awareness
inject-injected request [] h = refl
inject-injected request (n ∷ policy_names) h = rw (h, inject_policy_awareness) refl

inject-no_user :
    (request : Request) (policy_names : List Text)
    → find_first_user_message_index 0 request.messages ≡ none
    → inject_policy_awareness request policy_names ≡ request
unfolding inject_policy_awareness
inject-no_user request [] h = refl
inject-no_user request (n ∷ policy_names) h =
    elim (Bool-cases (already_injected request.messages)) [
      | inl e ↦ inject-injected request (n ∷ policy_names) e
      | inr e ↦ rw (e, h, inject_policy_awareness) refl
    ]

pub inject-first :
    (request : Request) (n : Text) (policy_names : List Text) (u : ℕ)
    → already_injected request.messages ≡ false
    → find_first_user_message_index 0 request.messages ≡ some u
    → inject_policy_awareness request (n ∷ policy_names) ≡ record request {
      messages = inject_at (build_awareness_message (n ∷ policy_names)) u request.messages;
    }
unfolding inject_policy_awareness
inject-first request n policy_names u e f = rw (e, f, inject_policy_awareness) refl

-- If there are active policies, a request that has been through the injection is not changed by a
-- second one, whatever policies are active then: the note is there at most once.
pub inject_policy_awareness_idem :
    (request : Request) (n : Text) (policy_names later_names : List Text)
    → inject_policy_awareness (inject_policy_awareness request (n ∷ policy_names)) later_names
      ≡ inject_policy_awareness request (n ∷ policy_names)
inject_policy_awareness_idem request n policy_names later_names =
    elim (Bool-cases (already_injected request.messages)) [
      | inl e ↦
          rw (inject-injected request (n ∷ policy_names) e) (inject-injected request later_names e)
      | inr e ↦ elim (Option-cases (find_first_user_message_index 0 request.messages)) [
        | inl f ↦
            rw (inject-no_user request (n ∷ policy_names) f) (inject-no_user request later_names f)
        | inr (u, f) ↦
            let bound : u < length request.messages =
              omega (arith, (find-lt 0 u request.messages f).1) in
            let h = inject_at_mentions (n ∷ policy_names) u request.messages bound in
            rw (inject-first request n policy_names u e f) (inject-injected _ later_names h)
      ]
    ]
