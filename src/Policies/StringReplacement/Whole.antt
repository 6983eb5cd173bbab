-- ===== src/Policies/StringReplacement/Whole.antt =====
-- A stream in whose text no source occurs keeps its text, however it is cut into chunks.
use luthien_proxy.Base.{
  ℕ, zero, suc, ◌-◌, ◌≤◌, ◌≡◌, refl, sym, ap, ◌∙◌, Bool, true, false, not, ◌&&◌, ◌||◌, Option, List,
  [], ◌∷◌, ◌++◌, ℤ, arith, length, is_nil, ◌==◌, leb, Bool-cases, inl, inr,
}
use luthien_proxy.Text.{Text, first, after, includes}
use luthien_proxy.Text.Laws.{
  append_assoc, append_nil, includes-append_prefix, includes-append_suffix, count_from-no_match,
}
use luthien_proxy.Policies.StringReplacement.{
  CaseLib, StringReplacement, replace_text, replace_exactly, replace_one, replace_loop,
  apply_replacements_with_count,
}
use luthien_proxy.Policies.StringReplacement.Stream.{
  TextEvent, text_delta, block_stop, message_delta, other_event, BufferState, get_buffer_state,
  flush_buffer, unbuffered, buffered, flush_before, replace_event,
}
use luthien_proxy.Policies.StringReplacement.Lengths.{count_chunk-keeps}

-- The text in the text deltas of the events
abbrev pub text_of : List TextEvent → Text
text_of [] = []
text_of (text_delta index text ∷ events) = text ++ text_of events
text_of (_ ∷ events) = text_of events

-- A source that is not empty occurs in the text.
abbrev pub has_source : List (Text × Text) → Text → Bool
has_source [] text = false
has_source ((from_str, to_str) ∷ pairs) text =
    (not (is_nil from_str) && includes from_str text) || has_source pairs text

pub text_of-append : (e f : List TextEvent) → text_of (e ++ f) ≡ text_of e ++ text_of f
text_of-append [] f = refl
text_of-append (text_delta i t ∷ e) f =
    ap (λ x. t ++ x) (text_of-append e f) ∙ sym (append_assoc t (text_of e) (text_of f))
text_of-append (block_stop i ∷ e) f = text_of-append e f
text_of-append (message_delta d ∷ e) f = text_of-append e f
text_of-append (other_event d ∷ e) f = text_of-append e f

pub first-after : (n : ℕ) (s : Text) → first n s ++ after n s ≡ s
unfolding first after
first-after zero s = refl
first-after (suc n) [] = refl
first-after (suc n) (c ∷ s) = ap (λ x. c ∷ x) (first-after n s)

pub has_source-prefix :
    (pairs : List (Text × Text)) (s t : Text)
    → has_source pairs (s ++ t) ≡ false
    → has_source pairs s ≡ false
has_source-prefix [] s t h = refl
has_source-prefix ((f, _) ∷ pairs) s t h =
    ground (arith, h, includes-append_prefix f s t, has_source-prefix pairs s t)

pub has_source-suffix :
    (pairs : List (Text × Text)) (s t : Text)
    → has_source pairs (s ++ t) ≡ false
    → has_source pairs t ≡ false
has_source-suffix [] s t h = refl
has_source-suffix ((f, _) ∷ pairs) s t h =
    ground (arith, h, includes-append_suffix f s t, has_source-suffix pairs s t)

replace_exactly-no_match :
    (f to text : Text)
    → (not (is_nil f) && includes f text) ≡ false
    → replace_exactly (f, to) text ≡ (text, 0)
unfolding replace_exactly
replace_exactly-no_match [] to text h = refl
replace_exactly-no_match (c ∷ f) to text h =
    rw (count_from-no_match (c ∷ f) text h, replace_exactly) refl

replace_loop-no_match :
    (lib : CaseLib) (pairs : List (Text × Text)) (text : Text)
    → has_source pairs text ≡ false
    → replace_loop lib false pairs (text, 0) ≡ (text, 0)
unfolding replace_loop replace_one
replace_loop-no_match lib [] text h = refl
replace_loop-no_match lib ((f, to) ∷ pairs) text h =
    rw (replace_exactly-no_match f to text (ground (arith, h)))
      (replace_loop-no_match lib pairs text (ground (arith, h)))

replace_text-no_match :
    (lib : CaseLib) (policy : StringReplacement) (text : Text)
    → policy.match_capitalization ≡ false
    → has_source policy.replacements text ≡ false
    → replace_text lib policy text ≡ (text, 0)
unfolding replace_text apply_replacements_with_count
replace_text-no_match lib policy text m h =
    elim (Bool-cases (is_nil text || is_nil policy.replacements)) [
      | inl e ↦ rw (e, replace_text) refl
      | inr e ↦ rw (e, m, replace_text) (replace_loop-no_match lib policy.replacements text h)
    ]

nil-eq : (s : Text) → is_nil s ≡ true → s ≡ []
nil-eq [] h = refl
nil-eq (c ∷ s) h = absurd (ground arith)

length-eq-nil : (s : Text) → length s ≡ 0 → s ≡ []
length-eq-nil [] h = refl
length-eq-nil (c ∷ s) h = absurd (omega (arith, h))

pub flush_buffer-text :
    (s : BufferState) → (text_of (flush_buffer s).1 ≡ s.buffer) × ((flush_buffer s).0.buffer ≡ [])
unfolding flush_buffer
flush_buffer-text s = elim (Bool-cases (is_nil s.buffer)) [
  | inl e ↦ rw (e, flush_buffer) (sym (nil-eq s.buffer e), nil-eq s.buffer e)
  | inr e ↦ rw (e, flush_buffer) (append_nil s.buffer, refl)
]

-- What goes out, and then what is held back, is what was held back, and then what comes in.
unfoldable pub Carries : TextEvent → BufferState → BufferState → List TextEvent → Type 0
Carries event s t events = text_of events ++ t.buffer ≡ s.buffer ++ text_of (event ∷ [])

flush_before-Carries :
    (event : TextEvent) (s : BufferState)
    → text_of (event ∷ []) ≡ []
    → Carries event s (get_buffer_state (flush_before event s).0) (flush_before event s).1
unfolding flush_before Carries
flush_before-Carries event s z =
    let (a, b) = flush_buffer-text s in
    rw
      (
        b,
        append_nil (text_of ((flush_buffer s).1 ++ (event ∷ []))),
        text_of-append (flush_buffer s).1 (event ∷ []),
        a,
      )
      refl

same-Carries :
    (event : TextEvent) (s : BufferState)
    → text_of (event ∷ []) ≡ []
    → Carries event s s (event ∷ [])
unfolding Carries
same-Carries event s z = rw (z, append_nil s.buffer) refl

unbuffered-Carries :
    (index : ℤ) (text : Text) (s : BufferState)
    → s.buffer ≡ []
    → Carries
        (text_delta index text)
        s
        (unbuffered index text (text, 0) s).0
        (unbuffered index text (text, 0) s).1
unfolding unbuffered Carries
unbuffered-Carries index text s z =
    let (_, _, c) = count_chunk-keeps index (length text) 0 s in
    rw (c, z, append_nil text, append_nil text) refl

buffered-Carries :
    (size : ℕ) (index : ℤ) (text : Text) (s : BufferState)
    → Carries
        (text_delta index text)
        s
        (buffered size index text (s.buffer ++ text, 0) s).0
        (buffered size index text (s.buffer ++ text, 0) s).1
unfolding buffered Carries
buffered-Carries size index text s =
    let whole = s.buffer ++ text in
    elim (Bool-cases (leb (length (s.buffer ++ text)) size)) [
      | inl e ↦ rw (e, buffered) (ap (λ x. s.buffer ++ x) (sym (append_nil text)))
      | inr e ↦
          rw (e, buffered)
            (rw
              (
                append_nil (first (length (s.buffer ++ text) - size) (s.buffer ++ text)),
                append_nil text,
              )
              (first-after (length (s.buffer ++ text) - size) (s.buffer ++ text)))
    ]

pub block_stop-Carries :
    (lib : CaseLib) (policy : StringReplacement) (i : ℤ) (state : Option BufferState)
    → Carries
        (block_stop i)
        (get_buffer_state state)
        (get_buffer_state (replace_event lib policy (block_stop i) state).0)
        (replace_event lib policy (block_stop i) state).1
unfolding replace_event
block_stop-Carries lib policy i state = elim (Bool-cases (policy.buffer_size == 0)) [
  | inl e ↦ rw (e, replace_event) (same-Carries (block_stop i) (get_buffer_state state) refl)
  | inr e ↦
      rw (e, replace_event) (flush_before-Carries (block_stop i) (get_buffer_state state) refl)
]

pub replace_event-Carries :
    (lib : CaseLib) (policy : StringReplacement) (event : TextEvent) (state : Option BufferState)
    → policy.match_capitalization ≡ false
    → length (get_buffer_state state).buffer ≤ policy.buffer_size
    → has_source policy.replacements ((get_buffer_state state).buffer ++ text_of (event ∷ []))
      ≡ false
    → Carries event
        (get_buffer_state state)
        (get_buffer_state (replace_event lib policy event state).0)
        (replace_event lib policy event state).1
unfolding replace_event
replace_event-Carries lib policy (other_event e) state m held h =
    same-Carries (other_event e) (get_buffer_state state) refl
replace_event-Carries lib policy (message_delta d) state m held h =
    elim (Bool-cases (policy.buffer_size == 0)) [
      | inl e ↦ rw (e, replace_event) (same-Carries (message_delta d) (get_buffer_state state) refl)
      | inr e ↦
          rw (e, replace_event)
            (flush_before-Carries (message_delta d) (get_buffer_state state) refl)
    ]
replace_event-Carries lib policy (block_stop i) state m held h =
    block_stop-Carries lib policy i state
replace_event-Carries lib policy (text_delta i t) state m held h =
    let s = get_buffer_state state in
    let h1 : has_source policy.replacements (s.buffer ++ t) ≡ false = rw (sym (append_nil t)) h in
    elim (Bool-cases (policy.buffer_size == 0)) [
      | inl e ↦
          let bare = length-eq-nil s.buffer (ground (arith, e, held)) in
          let same =
            replace_text-no_match lib policy t m
              (has_source-suffix policy.replacements s.buffer t h1) in
          rw (e, same, replace_event) (unbuffered-Carries i t s bare)
      | inr e ↦
          rw (e, replace_text-no_match lib policy (s.buffer ++ t) m h1, replace_event)
            (buffered-Carries policy.buffer_size i t s)
    ]
