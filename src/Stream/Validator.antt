-- ===== src/Stream/Validator.antt =====
-- src/luthien_proxy/pipeline/stream_protocol_validator.py: the passes of
-- `validate_anthropic_event_ordering`, each a function of its own. A violation keeps its rule with
-- the values that its message prints, its position and its event type.
pub mod Accept
mod Passes
pub mod Verdict
mod Tests
use mathlib.Core.List.{get_last?}
use luthien_proxy.Base.{
  str_eq, str_append, ℕ, suc, ◌-◌, ℤ, pos, negsuc, is_negative, ◌≤ℤ◌, String, Bool, true, false,
  not, Option, none, some, List, [], ◌∷◌, ◌++◌, ltb, if◌then◌else◌, length, contains, add,
  difference,
}
use luthien_proxy.Stream.Event.{EventType, EventView}

pub data Rule : Type 0 where
  non_empty : Rule
  message_start_first message_stop_last : Option EventType → Rule
  content_before_message_delta : ℕ → ℕ → Rule
  block_index_present : Rule
  block_index_non_negative : ℤ → Rule
  block_start_monotonic : ℤ → ℤ → Rule
  delta_after_start delta_before_stop stop_after_start block_stopped_once : ℤ → Rule
  blocks_closed : List ℤ → Rule

-- "(unknown)", "(none)", "(end of stream)", or the event's own type
pub data TypeLabel : Type 0 where
  unknown no_events end_of_stream : TypeLabel
  shown : EventType → TypeLabel

pub record StreamViolation : Type 0 where
  pub rule : Rule
  pub event_index : ℤ
  pub event_type : TypeLabel

-- `event_type or "(unknown)"`
unfoldable pub label : Option EventType → TypeLabel
label none = unknown
label (some (EventType.other t)) = if str_eq t "" then unknown else shown (EventType.other t)
label (some t) = shown t

-- `t in _CONTENT_BLOCK_EVENTS`
abbrev pub is_content_block_event : Option EventType → Bool
is_content_block_event (some EventType.content_block_start) = true
is_content_block_event (some EventType.content_block_delta) = true
is_content_block_event (some EventType.content_block_stop) = true
is_content_block_event _ = false

abbrev pub is_message_start : Option EventType → Bool
is_message_start (some EventType.message_start) = true
is_message_start _ = false

abbrev pub is_message_stop : Option EventType → Bool
is_message_stop (some EventType.message_stop) = true
is_message_stop _ = false

abbrev pub is_message_delta : Option EventType → Bool
is_message_delta (some EventType.message_delta) = true
is_message_delta _ = false

-- `if found: result.violations.append(v)`
abbrev pub report : Bool → StreamViolation → List StreamViolation → List StreamViolation
report found v vs = if found then vs ++ v ∷ [] else vs

-- Rule 1
unfoldable pub check_first : EventView → List StreamViolation → List StreamViolation
unfolding label
check_first e =
    report (not (is_message_start e.type))
      (record { rule = message_start_first e.type; event_index = pos 0; event_type = label e.type })

-- Rule 2: `last` is `event_types[-1]` and `n` is `len(events)`
unfoldable pub check_last : ℕ → EventView → List StreamViolation → List StreamViolation
unfolding label
check_last n last = report (not (is_message_stop last.type)) (record {
  rule = message_stop_last last.type;
  event_index = pos (n - 1);
  event_type = label last.type;
})

abbrev pub violation : Rule → ℕ → Option EventType → StreamViolation
violation rule i t = record { rule = rule; event_index = pos i; event_type = label t }

-- The index of the first message_delta; `i` is the counter of `enumerate`.
unfoldable pub find_message_delta : ℕ → List EventView → Option ℕ
find_message_delta i [] = none
find_message_delta i (e ∷ es) =
    let rest = find_message_delta (suc i) es in if is_message_delta e.type then some i else rest

-- Rule 3, where a message_delta stands at `at`
unfoldable pub check_late : ℕ → ℕ → List EventView → List StreamViolation → List StreamViolation
unfolding label
check_late at i [] vs = vs
check_late at i (e ∷ es) vs = check_late at (suc i) es (
    if is_content_block_event e.type
    then report (ltb at i) (violation (content_before_message_delta i at) i e.type) vs
    else vs)

unfoldable pub check_content_before_delta :
    List EventView → List StreamViolation → List StreamViolation
check_content_before_delta events vs = elim (find_message_delta 0 events) [
  | none ↦ vs
  | some at ↦ check_late at 0 events vs
]

-- The local variables of rule 4.
pub record Blocks : Type 0 where
  pub started_blocks : List ℤ
  pub stopped_blocks : List ℤ
  pub highest_start_index : ℤ

abbrev pub no_blocks : Blocks
no_blocks = record { started_blocks = []; stopped_blocks = []; highest_start_index = negsuc 0 }

abbrev pub Checked : Type 0
Checked = Blocks × List StreamViolation

-- Rule 5 and the bookkeeping of a start
unfoldable pub check_start : ℕ → Option EventType → ℤ → Checked → Checked
unfolding label
check_start i t idx (b, vs) =
    let vs1 = report (is_negative idx) (violation (block_index_non_negative idx) i t) vs in
    let vs2 =
      report (idx ≤ℤ b.highest_start_index)
        (violation (block_start_monotonic idx b.highest_start_index) i t) vs1 in
    (
      record {
        started_blocks = add idx b.started_blocks;
        stopped_blocks = b.stopped_blocks;
        highest_start_index = if is_negative idx then b.highest_start_index else idx;
      },
      vs2,
    )

-- Rule 6
unfoldable pub check_delta : ℕ → Option EventType → ℤ → Checked → Checked
unfolding label
check_delta i t idx (b, vs) =
    let vs1 =
      report (not (contains idx b.started_blocks)) (violation (delta_after_start idx) i t) vs in
    (b, report (contains idx b.stopped_blocks) (violation (delta_before_stop idx) i t) vs1)

unfoldable pub check_stop : ℕ → Option EventType → ℤ → Checked → Checked
unfolding label
check_stop i t idx (b, vs) =
    let vs1 =
      report (not (contains idx b.started_blocks)) (violation (stop_after_start idx) i t) vs in
    let vs2 = report (contains idx b.stopped_blocks) (violation (block_stopped_once idx) i t) vs1 in
    (record b { stopped_blocks = add idx b.stopped_blocks }, vs2)

-- The branches of rule 4's loop body on the type of a content block event with an index
unfoldable pub check_indexed : ℕ → Option EventType → ℤ → Checked → Checked
unfolding check_start check_delta check_stop
check_indexed i (some EventType.content_block_start) idx c =
    check_start i (some EventType.content_block_start) idx c
check_indexed i (some EventType.content_block_delta) idx c =
    check_delta i (some EventType.content_block_delta) idx c
check_indexed i (some EventType.content_block_stop) idx c =
    check_stop i (some EventType.content_block_stop) idx c
check_indexed i _ idx c = c

-- The body of rule 4's loop
unfoldable pub check_event : ℕ → EventView → Checked → Checked
unfolding check_indexed
check_event i e (b, vs) =
    if is_content_block_event e.type
    then elim e.index [
      | none ↦ (b, vs ++ violation block_index_present i e.type ∷ [])
      | some idx ↦ check_indexed i e.type idx (b, vs)
    ]
    else (b, vs)

unfoldable pub check_lifecycle : ℕ → List EventView → Checked → Checked
unfolding check_event
check_lifecycle i [] c = c
check_lifecycle i (e ∷ es) c = check_lifecycle (suc i) es (check_event i e c)

unfoldable pub insert_sorted : ℤ → List ℤ → List ℤ
insert_sorted i [] = i ∷ []
insert_sorted i (j ∷ js) = let rest = insert_sorted i js in if i ≤ℤ j then i ∷ j ∷ js else j ∷ rest

-- `sorted` of indices
unfoldable pub sorted : List ℤ → List ℤ
unfolding insert_sorted
sorted [] = []
sorted (i ∷ is) = insert_sorted i (sorted is)

-- `if unclosed:`
unfoldable pub check_closed : ℕ → Checked → List StreamViolation
unfolding sorted
check_closed n (b, vs) = elim (difference b.started_blocks b.stopped_blocks) [
  | [] ↦ vs
  | i ∷ rest ↦
      vs
      ++ record {
        rule = blocks_closed (sorted (i ∷ rest));
        event_index = pos (n - 1);
        event_type = end_of_stream;
      }
        ∷ []
]

-- `events[-1]` of a list that begins with `e`
abbrev pub last_of : EventView → List EventView → EventView
last_of e [] = e
last_of e (e' ∷ es) = last_of e' es

unfoldable pub validate : List EventView → List StreamViolation
validate [] = record { rule = non_empty; event_index = negsuc 0; event_type = no_events } ∷ []
validate (e ∷ es) =
    let events = e ∷ es in
    let n = length events in
    let ends = check_last n (last_of e es) (check_first e []) in
    check_closed n (check_lifecycle 0 events (no_blocks, check_content_before_delta events ends))
