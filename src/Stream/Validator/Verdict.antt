-- ===== src/Stream/Validator/Verdict.antt =====
-- What an empty report of `validate_anthropic_event_ordering` means.
use luthien_proxy.Base.{
  ◌↔◌, ℕ, ℤ, ◌≡◌, ◌≢◌, refl, true, not, some, List, [], ◌∷◌, length, difference, arith,
  Option-cases, inl, inr,
}
use luthien_proxy.Stream.Event.{EventView}
use luthien_proxy.Stream.Validator.{
  StreamViolation, Blocks, no_blocks, is_message_start, is_message_stop, last_of, validate,
  check_first, check_last, find_message_delta, check_late, check_content_before_delta,
  check_lifecycle, check_closed,
}
use luthien_proxy.Stream.Validator.Accept.{accept, content_first}
use luthien_proxy.Stream.Validator.Passes.{
  report-eq-nil, snoc-ne-nil, check_lifecycle_sound, check_lifecycle_complete, check_late-eq-nil,
  check_late-content_first, content_first-check_late, content_first_of_none,
}

-- The rules, with the state of the blocks at the end
pub record Follows (e : EventView) (es : List EventView) : Type 0 where
  pub starts : is_message_start e.type ≡ true
  pub stops : is_message_stop (last_of e es).type ≡ true
  pub ordered : content_first (e ∷ es) ≡ true
  pub blocks : Blocks
  pub accepted : accept (e ∷ es) no_blocks ≡ some blocks
  pub closed : difference blocks.started_blocks blocks.stopped_blocks ≡ []

check_closed_sound :
    (n : ℕ) (b : Blocks) (vs : List StreamViolation)
    → check_closed n (b, vs) ≡ []
    → (vs ≡ []) × (difference b.started_blocks b.stopped_blocks ≡ [])
unfolding check_closed
check_closed_sound n b vs h = go (difference b.started_blocks b.stopped_blocks) refl
  where
    go :
        (d : List ℤ)
        → difference b.started_blocks b.stopped_blocks ≡ d
        → (vs ≡ []) × (difference b.started_blocks b.stopped_blocks ≡ [])
    go [] e = (rw (e, check_closed) at h, e)
    go (i ∷ rest) e = absurd (snoc-ne-nil vs _ (rw (e, check_closed) at h))

check_content_sound :
    (es : List EventView) (vs : List StreamViolation)
    → check_content_before_delta es vs ≡ []
    → (vs ≡ []) × (content_first es ≡ true)
unfolding check_content_before_delta
check_content_sound es vs h = elim (Option-cases (find_message_delta 0 es)) [
  | inl missing ↦
      (rw (missing, check_content_before_delta) at h, content_first_of_none 0 es missing)
  | inr (at, found) ↦
      let late : check_late at 0 es vs ≡ [] = rw (found, check_content_before_delta) at h in
      let empty = check_late-eq-nil at 0 es vs late in
      (empty, check_late-content_first 0 at es found (rw empty at late))
]

check_content_complete :
    (es : List EventView) → content_first es ≡ true → check_content_before_delta es [] ≡ []
unfolding check_content_before_delta
check_content_complete es h = elim (Option-cases (find_message_delta 0 es)) [
  | inl missing ↦ rw (missing, check_content_before_delta)
  | inr (at, found) ↦
      rw (found, check_content_before_delta) (content_first-check_late 0 at es found h)
]

check_ends_sound :
    (n : ℕ) (e last : EventView)
    → check_last n last (check_first e []) ≡ []
    → (is_message_start e.type ≡ true) × (is_message_stop last.type ≡ true)
unfolding check_first check_last
check_ends_sound n e last h =
    let (b, rest) = report-eq-nil (not (is_message_stop last.type)) _ _ h in
    let (a, _) = report-eq-nil (not (is_message_start e.type)) _ [] rest in
    (ground (arith, a), ground (arith, b))

pub validate_sound : (e : EventView) (es : List EventView) → validate (e ∷ es) ≡ [] → Follows e es
unfolding validate
validate_sound e es h =
    let events = e ∷ es in
    let ends = check_last (length events) (last_of e es) (check_first e []) in
    let before = check_content_before_delta events ends in
    let run = check_lifecycle 0 events (no_blocks, before) in
    let (no_violation, closed) = check_closed_sound (length events) run.0 run.1 h in
    let (quiet_before, accepted) = check_lifecycle_sound 0 events no_blocks before no_violation in
    let (quiet_ends, ordered) = check_content_sound events ends quiet_before in
    let (starts, stops) = check_ends_sound (length events) e (last_of e es) quiet_ends in
    record {
      starts = starts;
      stops = stops;
      ordered = ordered;
      blocks = run.0;
      accepted = accepted;
      closed = closed;
    }

pub validate_complete :
    (e : EventView) (es : List EventView) → Follows e es → validate (e ∷ es) ≡ []
unfolding validate check_first check_last check_closed
validate_complete e es f =
    rw (f.starts, f.stops)
      (rw (check_content_complete (e ∷ es) f.ordered) (
        rw (check_lifecycle_complete 0 (e ∷ es) no_blocks f.blocks f.accepted)
          (rw (f.closed, check_closed))))

-- The report on a stream is empty exactly when: it begins with a message_start and ends with a
-- message_stop; no content block event stands behind a message_delta; every start has an index that
-- is not negative and above those before; every delta and stop is of a block that has been started
-- and not stopped; and every started block is stopped.
pub validate-eq-nil :
    (e : EventView) (es : List EventView) → (validate (e ∷ es) ≡ []) ↔ Follows e es
validate-eq-nil e es = (validate_sound e es, validate_complete e es)

pub validate-nil-ne-nil : validate [] ≢ []
unfolding validate
validate-nil-ne-nil = λ e. cc
