-- ===== src/Pipeline/PolicyContext/First.antt =====
-- Which message gets the note.
use luthien_proxy.Base.{
  ℕ, suc, ◌+◌, ◌≡◌, refl, ap, ◌∙◌, true, false, some, List, [], ◌∷◌, ◌++◌, any_of, arith, length,
  false, Option, none, not, Bool-cases, inl, inr,
}
use luthien_proxy.Text.{Text, codes, includes, starts_with, join}
use luthien_proxy.Text.Laws.{
  append_nil, includes-append_left, includes-append_prefix, includes-append_suffix,
  starts_with-append,
}
use luthien_proxy.Json.{field, string, end}
use luthien_proxy.Pipeline.PolicyContext.{
  Message, Request, Content, plain, blocks, context_open, build_awareness_message, already_injected,
  is_user, find_first_user_message_index, injected_content, inject_at, inject_policy_awareness,
}
use luthien_proxy.Pipeline.PolicyContext.Once.{inject-first}

find-append :
    (i : ℕ) (pre : List Message) (m : Message) (post : List Message)
    → any_of is_user pre ≡ false
    → is_user m ≡ true
    → find_first_user_message_index i (pre ++ (m ∷ post)) ≡ some (i + length pre)
unfolding find_first_user_message_index
find-append i [] m post h k = rw (k, find_first_user_message_index) (ap some (omega arith))
find-append i (p ∷ pre) m post h k = ground (arith, find-append (suc i) pre m post)

inject_at-append :
    (awareness : Text) (pre : List Message) (m : Message) (post : List Message)
    → inject_at awareness (length pre) (pre ++ (m ∷ post))
      ≡ pre ++ ((record m { content = some (injected_content awareness m.content) }) ∷ post)
unfolding inject_at
inject_at-append awareness [] m post = refl
inject_at-append awareness (p ∷ pre) m post =
    ap (λ ms. p ∷ ms) (inject_at-append awareness pre m post)

-- The content `new` is the content `old` after the note: as a text block before the other blocks, or as
-- text before the text, with an empty line between them.
abbrev pub IsPrefixed : Text → Option Content → Content → Type 0
IsPrefixed note (some (blocks bs)) new =
    new ≡ blocks ((record { text = some note; rest = field "type" (string "text") end }) ∷ bs)
IsPrefixed note (some (plain t)) new = new ≡ plain (note ++ (codes "\n\n" ++ t))
IsPrefixed note none new = new ≡ plain (note ++ codes "\n\n")

injected_content-IsPrefixed :
    (note : Text) (old : Option Content) → IsPrefixed note old (injected_content note old)
unfolding injected_content
injected_content-IsPrefixed note (some (blocks bs)) = refl
injected_content-IsPrefixed note (some (plain t)) = refl
injected_content-IsPrefixed note none = refl

-- The note begins with its tag and has each of the names.
abbrev pub Announces : Text → List Text → Type 0
Announces note names =
    (starts_with note (codes "<policy-context>") ≡ true)
    × (any_of (λ name. not (includes name note)) names ≡ false)

includes-before : (p s t : Text) → includes p s ≡ true → includes p (s ++ t) ≡ true
includes-before p s t h = elim (Bool-cases (includes p (s ++ t))) [
  | inl e ↦ e
  | inr e ↦ absurd (ground (arith, h, includes-append_prefix p s t e))
]

includes-behind : (p s t : Text) → includes p t ≡ true → includes p (s ++ t) ≡ true
includes-behind p s t h = elim (Bool-cases (includes p (s ++ t))) [
  | inl e ↦ e
  | inr e ↦ absurd (ground (arith, h, includes-append_suffix p s t e))
]

any_of-grows :
    (s t : Text) (names : List Text)
    → any_of (λ name. not (includes name t)) names ≡ false
    → any_of (λ name. not (includes name (s ++ t))) names ≡ false
any_of-grows s t [] h = refl
any_of-grows s t (n ∷ names) h = elim (Bool-cases (includes n t)) [
  | inl e ↦ rw (includes-behind n s t e) (any_of-grows s t names (rw e at h))
  | inr e ↦ absurd (ground (arith, rw e at h))
]

any_of-before :
    (s t : Text) (names : List Text)
    → any_of (λ name. not (includes name s)) names ≡ false
    → any_of (λ name. not (includes name (s ++ t))) names ≡ false
any_of-before s t [] h = refl
any_of-before s t (n ∷ names) h = elim (Bool-cases (includes n s)) [
  | inl e ↦ rw (includes-before n s t e) (any_of-before s t names (rw e at h))
  | inr e ↦ absurd (ground (arith, rw e at h))
]

includes_self : (p : Text) → includes p p ≡ true
includes_self p = rw (append_nil p) at (includes-append_left p [])

join-names :
    (sep : Text) (names : List Text)
    → any_of (λ name. not (includes name (join sep names))) names ≡ false
unfolding join
join-names sep [] = refl
join-names sep (n ∷ []) = rw (includes_self n) refl
join-names sep (n ∷ m ∷ names) = rw (includes-append_left n (sep ++ join sep (m ∷ names))) (
    any_of-grows n (sep ++ join sep (m ∷ names)) (m ∷ names)
      (any_of-grows sep (join sep (m ∷ names)) (m ∷ names) (join-names sep (m ∷ names))))

build_awareness_message-Announces :
    (names : List Text) → Announces (build_awareness_message names) names
unfolding build_awareness_message
build_awareness_message-Announces names = (
  starts_with-append (codes "<policy-context>") _,
  any_of-grows context_open _ names (
      any_of-grows
        (codes
          "Your responses may be modified by the following active policies before reaching the user: ")
        _ names (any_of-before (join (codes ", ") names) _ names (join-names (codes ", ") names))),
)

-- If there are active policies and no message has the note, the first message of a user gets a note that
-- begins with "<policy-context>" and has the name of each policy, as a text block before its blocks, or
-- as text before its text and an empty line between them. Its role, every other message and their order
-- stay as they are.
pub inject_policy_awareness_first :
    (request : Request) (n : Text) (names : List Text) (pre : List Message) (m : Message)
    (post : List Message)
    → request.messages ≡ pre ++ (m ∷ post)
    → already_injected request.messages ≡ false
    → any_of is_user pre ≡ false
    → is_user m ≡ true
    → (note : Text) × (new : Content) × Announces note (n ∷ names)
      × IsPrefixed note m.content new
      × ((inject_policy_awareness request (n ∷ names)).messages
          ≡ pre ++ ((record { role = m.role; content = some new }) ∷ post))
inject_policy_awareness_first request n names pre m post e h a b =
    let at : find_first_user_message_index 0 request.messages ≡ some (length pre) =
      rw e (find-append 0 pre m post a b ∙ ap some (omega arith)) in
    let note = build_awareness_message (n ∷ names) in
    (
      note,
      injected_content note m.content,
      build_awareness_message-Announces (n ∷ names),
      injected_content-IsPrefixed note m.content,
      rw (inject-first request n names (length pre) h at) (rw e (inject_at-append note pre m post)),
    )
