-- ===== src/Policies/StringReplacement/Stream.antt =====
-- The streaming hooks of the policy. An event keeps what the hooks read of it; the state of the request
-- is absent until a hook asks for it.
use luthien_proxy.Base.{
  ℕ, ◌+◌, ◌-◌, ℤ, pos, Option, none, some, List, [], ◌∷◌, ◌++◌, if◌then◌else◌, is_nil, length, leb,
  add, ◌==◌, String,
}
use luthien_proxy.Text.{Text, first, after}
use luthien_proxy.Policies.StringReplacement.{CaseLib, StringReplacement, replace_text}

pub data TextEvent : Type 0 where
  text_delta : ℤ → Text → TextEvent
  block_stop : ℤ → TextEvent
  message_delta other_event : String → TextEvent

-- `_StreamBufferState`
pub record BufferState : Type 0 where
  pub buffer : Text
  pub last_event_index : ℤ
  pub total_replacements : ℕ
  pub original_length : ℕ
  pub transformed_length : ℕ
  pub modified_block_indices : List ℤ

abbrev pub new_state : BufferState
new_state = record {
  buffer = [];
  last_event_index = pos 0;
  total_replacements = 0;
  original_length = 0;
  transformed_length = 0;
  modified_block_indices = [];
}

-- `_get_buffer_state`
abbrev pub get_buffer_state : Option BufferState → BufferState
get_buffer_state none = new_state
get_buffer_state (some state) = state

-- `_flush_buffer`
unfoldable pub flush_buffer : BufferState → BufferState × List TextEvent
flush_buffer state = if is_nil state.buffer then (state, []) else (
  record state { buffer = []; transformed_length = state.transformed_length + length state.buffer },
  text_delta state.last_event_index state.buffer ∷ [],
)

-- The counters of a chunk with `count` substitutions
unfoldable pub count_chunk : ℤ → ℕ → ℕ → BufferState → BufferState
unfolding add
count_chunk index len count state =
    let state1 : BufferState = record state { original_length = state.original_length + len } in
    if count == 0 then state1 else record state1 {
      total_replacements = state.total_replacements + count;
      modified_block_indices = add index state.modified_block_indices;
    }

-- A text delta without a buffer
unfoldable pub unbuffered : ℤ → Text → Text × ℕ → BufferState → BufferState × List TextEvent
unfolding count_chunk
unbuffered index original (transformed, count) state =
    let state1 = count_chunk index (length original) count state in
    (
      record state1 { transformed_length = state1.transformed_length + length transformed },
      text_delta index transformed ∷ [],
    )

-- A text delta behind what the buffer holds
unfoldable pub buffered : ℕ → ℤ → Text → Text × ℕ → BufferState → BufferState × List TextEvent
unfolding count_chunk first after
buffered size index chunk (replaced, count) state =
    let state1 : BufferState = record (count_chunk index (length chunk) count state) {
      last_event_index = index;
    } in
    if leb (length replaced) size
    then (record state1 { buffer = replaced }, [])
    else let emit_text = first (length replaced - size) replaced in
      (
        record state1 {
          buffer = after (length replaced - size) replaced;
          transformed_length = state1.transformed_length + length emit_text;
        },
        text_delta index emit_text ∷ [],
      )

-- The events behind those of a flush
unfoldable pub flush_before : TextEvent → BufferState → Option BufferState × List TextEvent
unfolding flush_buffer
flush_before event state =
    let (state1, flushed) = flush_buffer state in (some state1, flushed ++ (event ∷ []))

abbrev pub keep : BufferState × List TextEvent → Option BufferState × List TextEvent
keep (state, events) = (some state, events)

-- `on_anthropic_stream_event` if the policy applies to responses
unfoldable pub replace_event :
    CaseLib
    → StringReplacement
    → TextEvent
    → Option BufferState
    → Option BufferState × List TextEvent
unfolding flush_before unbuffered buffered replace_text
replace_event lib policy (message_delta d) state =
    if policy.buffer_size == 0
    then (state, message_delta d ∷ [])
    else flush_before (message_delta d) (get_buffer_state state)
replace_event lib policy (block_stop index) state =
    if policy.buffer_size == 0
    then (state, block_stop index ∷ [])
    else flush_before (block_stop index) (get_buffer_state state)
replace_event lib policy (other_event e) state = (state, other_event e ∷ [])
replace_event lib policy (text_delta index text) state =
    let known = get_buffer_state state in
    if policy.buffer_size == 0
    then keep (unbuffered index text (replace_text lib policy text) known)
    else keep (
        buffered policy.buffer_size index text (replace_text lib policy (known.buffer ++ text))
          known)

-- `on_anthropic_stream_event`
unfoldable pub replacement_stream_event :
    CaseLib
    → StringReplacement
    → TextEvent
    → Option BufferState
    → Option BufferState × List TextEvent
unfolding replace_event
replacement_stream_event lib policy event state =
    if policy.apply_to_response then replace_event lib policy event state else (state, event ∷ [])

-- The recorded event: blocks modified, replacements, original and transformed length
pub record ModifiedEvent : Type 0 where
  pub blocks_modified : ℕ
  pub total_replacements : ℕ
  pub original_length : ℕ
  pub transformed_length : ℕ

abbrev pub report : BufferState → Option ModifiedEvent
report state =
    if state.total_replacements == 0
    then none
    else some (record {
      blocks_modified = length state.modified_block_indices;
      total_replacements = state.total_replacements;
      original_length = state.original_length;
      transformed_length = state.transformed_length;
    })

-- `on_anthropic_stream_complete`
unfoldable pub replacement_stream_complete :
    StringReplacement → Option BufferState → List TextEvent × Option ModifiedEvent
unfolding flush_buffer
replacement_stream_complete policy none = ([], none)
replacement_stream_complete policy (some state) =
    let (state1, flushed) = flush_buffer state in
    if policy.apply_to_response then (flushed, report state1) else ([], none)

-- A whole stream with its completion
unfoldable pub replacement_stream :
    CaseLib
    → StringReplacement
    → List TextEvent
    → Option BufferState
    → List TextEvent × Option ModifiedEvent
unfolding replacement_stream_event replacement_stream_complete
replacement_stream lib policy [] state = replacement_stream_complete policy state
replacement_stream lib policy (event ∷ events) state =
    let (state1, here) = replacement_stream_event lib policy event state in
    let (later, modified) = replacement_stream lib policy events state1 in (here ++ later, modified)
