-- ===== src/Stream/Validator/Passes.antt =====
-- Each pass of the validator reports nothing exactly when the acceptor has nothing against the
-- events.
use luthien_proxy.Base.{
  ℕ, suc, ◌≤◌, ◌<◌, ℤ, is_negative, ◌≤ℤ◌, ◌≡◌, ◌≢◌, refl, Bool, true, false, not, Option, none,
  some, List, [], ◌∷◌, ◌++◌, if◌then◌else◌, contains, arith, lt→ltb, Bool-cases, Option-cases, inl,
  inr, ltb,
}
use luthien_proxy.Stream.Event.{EventType, EventView}
use luthien_proxy.Stream.Validator.{
  StreamViolation, Blocks, is_content_block_event, is_message_delta, report, violation,
  content_before_message_delta, check_indexed, check_event, check_lifecycle, find_message_delta,
  check_late,
}
use luthien_proxy.Stream.Validator.Accept.{
  accept_indexed, accept_event, accept, quiet, content_first,
}

pub snoc-ne-nil {ℓ} : {A : Type ℓ} (vs : List A) (v : A) → (vs ++ v ∷ []) ≢ []
snoc-ne-nil [] v = λ e. cc
snoc-ne-nil (w ∷ vs) v = λ e. cc

pub report-eq-nil :
    (found : Bool) (v : StreamViolation) (vs : List StreamViolation)
    → report found v vs ≡ []
    → (found ≡ false) × (vs ≡ [])
report-eq-nil true v vs h = absurd (snoc-ne-nil vs v h)
report-eq-nil false v vs h = (refl, h)

reports-eq-nil :
    (f g : Bool) (v w : StreamViolation) (vs : List StreamViolation)
    → report g w (report f v vs) ≡ []
    → (f ≡ false) × (g ≡ false) × (vs ≡ [])
reports-eq-nil f g v w vs h =
    let last = report-eq-nil g w (report f v vs) h in
    let first = report-eq-nil f v vs last.1 in (first.0, last.0, first.1)

check_indexed_sound :
    (i : ℕ) (t : Option EventType) (idx : ℤ) (b : Blocks) (vs : List StreamViolation)
    → (check_indexed i t idx (b, vs)).1 ≡ []
    → (vs ≡ []) × (accept_indexed t idx b ≡ some (check_indexed i t idx (b, vs)).0)
unfolding check_indexed accept_indexed
check_indexed_sound i (some EventType.content_block_start) idx b vs h =
    let facts = reports-eq-nil (is_negative idx) (idx ≤ℤ b.highest_start_index) _ _ vs h in
    (facts.2, rw (facts.0, facts.1))
check_indexed_sound i (some EventType.content_block_delta) idx b vs h =
    let facts =
      reports-eq-nil (not (contains idx b.started_blocks)) (contains idx b.stopped_blocks) _ _ vs
        h in
    (facts.2, ground (arith, facts))
check_indexed_sound i (some EventType.content_block_stop) idx b vs h =
    let facts =
      reports-eq-nil (not (contains idx b.started_blocks)) (contains idx b.stopped_blocks) _ _ vs
        h in
    (facts.2, ground (arith, facts))
check_indexed_sound i _ idx b vs h = (h, refl)

check_indexed_complete :
    (i : ℕ) (t : Option EventType) (idx : ℤ) (b b' : Blocks)
    → accept_indexed t idx b ≡ some b'
    → check_indexed i t idx (b, []) ≡ (b', [])
unfolding check_indexed accept_indexed
check_indexed_complete i (some EventType.content_block_start) idx b b' h = ground arith
check_indexed_complete i (some EventType.content_block_delta) idx b b' h = ground arith
check_indexed_complete i (some EventType.content_block_stop) idx b b' h = ground arith
check_indexed_complete i _ idx b b' h = ground arith

check_event_sound :
    (i : ℕ) (e : EventView) (b : Blocks) (vs : List StreamViolation)
    → (check_event i e (b, vs)).1 ≡ []
    → (vs ≡ []) × (accept_event e b ≡ some (check_event i e (b, vs)).0)
unfolding check_event accept_event
check_event_sound i e b vs h = elim (Bool-cases (is_content_block_event e.type)) [
  | inl content ↦ elim (Option-cases e.index) [
    | inl missing ↦ absurd (snoc-ne-nil vs _ (rw (content, missing) at h))
    | inr (idx, found) ↦
        rw (content, found) (check_indexed_sound i e.type idx b vs (rw (content, found) at h))
  ]
  | inr skipped ↦ (rw skipped at h, rw skipped)
]

check_event_complete :
    (i : ℕ) (e : EventView) (b b' : Blocks)
    → accept_event e b ≡ some b'
    → check_event i e (b, []) ≡ (b', [])
unfolding check_event accept_event
check_event_complete i e b b' h = elim (Bool-cases (is_content_block_event e.type)) [
  | inl content ↦ elim (Option-cases e.index) [
    | inl missing ↦ ground arith
    | inr (idx, found) ↦
        rw (content, found) (check_indexed_complete i e.type idx b b' (rw (content, found) at h))
  ]
  | inr skipped ↦ ground arith
]

pub check_lifecycle_sound :
    (i : ℕ) (es : List EventView) (b : Blocks) (vs : List StreamViolation)
    → (check_lifecycle i es (b, vs)).1 ≡ []
    → (vs ≡ []) × (accept es b ≡ some (check_lifecycle i es (b, vs)).0)
unfolding check_lifecycle accept
check_lifecycle_sound i [] b vs h = (h, refl)
check_lifecycle_sound i (e ∷ es) b vs h =
    let (b', vs') = check_event i e (b, vs) in
    let (quiet_rest, rest) = check_lifecycle_sound (suc i) es b' vs' h in
    let (quiet_here, here) = check_event_sound i e b vs quiet_rest in (quiet_here, rw here rest)

pub check_lifecycle_complete :
    (i : ℕ) (es : List EventView) (b b' : Blocks)
    → accept es b ≡ some b'
    → check_lifecycle i es (b, []) ≡ (b', [])
unfolding check_lifecycle accept
check_lifecycle_complete i [] b b' h = ground arith
check_lifecycle_complete i (e ∷ es) b b' h = elim (Option-cases (accept_event e b)) [
  | inl failed ↦ ground arith
  | inr (b1, here) ↦
      rw (check_event_complete i e b b1 here)
        (check_lifecycle_complete (suc i) es b1 b' (rw here at h))
]

-- A pass only adds to the report.
pub check_late-eq-nil :
    (at i : ℕ) (es : List EventView) (vs : List StreamViolation)
    → check_late at i es vs ≡ []
    → vs ≡ []
unfolding check_late
check_late-eq-nil at i [] vs h = h
check_late-eq-nil at i (e ∷ es) vs h =
    let rest = check_late-eq-nil at (suc i) es _ h in
    elim (Bool-cases (is_content_block_event e.type)) [
      | inl content ↦ (report-eq-nil (ltb at i) _ vs (rw content at rest)).1
      | inr skipped ↦ rw skipped at rest
    ]

-- Behind the message_delta rule 3 wants no content block event.
check_late_sound :
    (at i : ℕ) (es : List EventView) (vs : List StreamViolation)
    → at < i
    → check_late at i es vs ≡ []
    → (vs ≡ []) × (quiet es ≡ true)
unfolding check_late quiet
check_late_sound at i [] vs lt h = (h, refl)
check_late_sound at i (e ∷ es) vs lt h =
    let (none_here, rest) = check_late_sound at (suc i) es _ (omega arith) h in
    elim (Bool-cases (is_content_block_event e.type)) [
      | inl content ↦ absurd (snoc-ne-nil vs _ (rw (content, lt→ltb at i lt) at none_here))
      | inr skipped ↦ (rw skipped at none_here, rw skipped rest)
    ]

check_late_complete :
    (at i : ℕ) (es : List EventView) → quiet es ≡ true → check_late at i es [] ≡ []
unfolding check_late quiet
check_late_complete at i [] h = refl
check_late_complete at i (e ∷ es) h = ground (arith, check_late_complete at (suc i) es)

find_message_delta-le :
    (i at : ℕ) (es : List EventView) → find_message_delta i es ≡ some at → i ≤ at
unfolding find_message_delta
find_message_delta-le i at [] h = cc
find_message_delta-le i at (e ∷ es) h = ground (arith, find_message_delta-le (suc i) at es)

abbrev late : ℕ → ℕ → EventView → StreamViolation
late at i e = violation (content_before_message_delta i at) i e.type

delta_not_content :
    (t : Option EventType) → is_message_delta t ≡ true → is_content_block_event t ≡ false
delta_not_content none h = refl
delta_not_content (some t) h = ground arith

not_late : (at i : ℕ) → i < at → ltb at i ≡ false
not_late at i h = ground arith

-- Nothing is reported at a place before the message_delta.
report_early :
    (c : Bool) (at i : ℕ) (v : StreamViolation)
    → i < at
    → (if c then report (ltb at i) v [] else []) ≡ []
report_early true at i v h = rw (not_late at i h)
report_early false at i v h = refl

-- Rule 3 as a whole
pub check_late-content_first :
    (i at : ℕ) (es : List EventView)
    → find_message_delta i es ≡ some at
    → check_late at i es [] ≡ []
    → content_first es ≡ true
unfolding find_message_delta check_late content_first
check_late-content_first i at [] f h = refl
check_late-content_first i at (e ∷ es) f h = elim (Bool-cases (is_message_delta e.type)) [
  | inl here ↦
      let e1 : i ≡ at = ground arith in
      let skipped = delta_not_content e.type here in
      rw here (check_late_sound at (suc i) es [] (omega arith) (rw skipped at h)).1
  | inr later ↦
      let found : find_message_delta (suc i) es ≡ some at = rw later at f in
      let early =
        report_early (is_content_block_event e.type) at i (late at i e)
          (find_message_delta-le (suc i) at es found) in
      rw later (check_late-content_first (suc i) at es found (rw early at h))
]

pub content_first-check_late :
    (i at : ℕ) (es : List EventView)
    → find_message_delta i es ≡ some at
    → content_first es ≡ true
    → check_late at i es [] ≡ []
unfolding find_message_delta check_late content_first
content_first-check_late i at [] f h = refl
content_first-check_late i at (e ∷ es) f h = elim (Bool-cases (is_message_delta e.type)) [
  | inl here ↦ rw (delta_not_content e.type here) (check_late_complete at (suc i) es (rw here at h))
  | inr later ↦
      let found : find_message_delta (suc i) es ≡ some at = rw later at f in
      let early =
        report_early (is_content_block_event e.type) at i (late at i e)
          (find_message_delta-le (suc i) at es found) in
      rw early (content_first-check_late (suc i) at es found (rw later at h))
]

pub content_first_of_none :
    (i : ℕ) (es : List EventView) → find_message_delta i es ≡ none → content_first es ≡ true
unfolding find_message_delta content_first
content_first_of_none i [] h = refl
content_first_of_none i (e ∷ es) h = ground (arith, content_first_of_none (suc i) es)
