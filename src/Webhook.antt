-- ===== src/Webhook.antt =====
-- src/luthien_proxy/webhook/sender.py: `WebhookSender`. Times are in milliseconds. `urlparse` is a parameter: an
-- argument that holds what it makes of the URL. Logging is not modelled.
pub mod Retry
pub mod Outcome
pub mod Url
pub mod Pool
mod Tests
use luthien_proxy.Base.{
  ℕ, suc, ◌+◌, ◌*◌, ℤ, pos, negsuc, ◌≤ℤ◌, is_negative, String, Bool, true, false, not, ◌&&◌, ◌||◌,
  Option, none, some, List, [], ◌∷◌, ◌++◌, ltb, leb, if◌then◌else◌, length,
}
use luthien_proxy.Webhook.Url.{ParsedUrl, usable}

abbrev pub max_pending_tasks_ceiling : ℕ
max_pending_tasks_ceiling = 100000

abbrev pub max_retries_ceiling : ℕ
max_retries_ceiling = 20

abbrev pub send_timeout_ceiling : ℕ
send_timeout_ceiling = 300000

-- The arguments of `__init__` but for the URL
pub record SenderConfig : Type 0 where
  pub max_retries : ℤ
  pub retry_delay : ℤ
  pub max_pending_tasks : ℤ
  pub shutdown_drain : ℤ
  pub send_timeout : ℤ

pub data SenderError : Type 0 where
  few_tasks many_tasks negative_retries many_retries : SenderError
  negative_delay negative_drain short_timeout long_timeout : SenderError

-- The state of a sender; a task is known by its transaction
pub record Sender : Type 0 where
  pub enabled : Bool
  pub max_retries : ℕ
  pub retry_delay : ℕ
  pub max_pending_tasks : ℕ
  pub pending_tasks : List String
  pub dropped_due_to_backpressure : ℕ
  pub gave_up_after_retries : ℕ
  pub permanent_failures : ℕ
  pub payload_build_failures : ℕ
  pub stopped : Bool

pub data MadeSender : Type 0 where
  made : Sender → MadeSender
  value_error : SenderError → MadeSender

abbrev pub to_ℕ : ℤ → ℕ
to_ℕ (pos n) = n
to_ℕ _ = 0

-- a < b
infix 50 ◌<ℤ◌
abbrev pub ◌<ℤ◌ : ℤ → ℤ → Bool
a <ℤ b = not (b ≤ℤ a)

-- The first argument that is refused, in the order of the code's tests
unfoldable pub check_config : SenderConfig → Option SenderError
check_config c =
    if c.max_pending_tasks <ℤ pos 1
    then some few_tasks
    else if pos max_pending_tasks_ceiling <ℤ c.max_pending_tasks
    then some many_tasks
    else if is_negative c.max_retries
    then some negative_retries
    else if pos max_retries_ceiling <ℤ c.max_retries
    then some many_retries
    else if is_negative c.retry_delay
    then some negative_delay
    else if is_negative c.shutdown_drain
    then some negative_drain
    else if c.send_timeout <ℤ pos 100
    then some short_timeout
    else if pos send_timeout_ceiling <ℤ c.send_timeout
    then some long_timeout
    else none

-- `__init__`; `none` for the URL stands for none or an empty one
unfoldable pub init : Option ParsedUrl → SenderConfig → MadeSender
init url c = elim (check_config c) [
  | some e ↦ value_error e
  | none ↦ made (record {
    enabled = usable url;
    max_retries = to_ℕ c.max_retries;
    retry_delay = to_ℕ c.retry_delay;
    max_pending_tasks = to_ℕ c.max_pending_tasks;
    pending_tasks = [];
    dropped_due_to_backpressure = 0;
    gave_up_after_retries = 0;
    permanent_failures = 0;
    payload_build_failures = 0;
    stopped = false;
  })
]

-- `UsageCounts` and `ConversationCompletedPayload`, without the time stamp
pub record UsageCounts : Type 0 where
  pub input_tokens : ℕ
  pub output_tokens : ℕ
  pub total_tokens : ℕ
  pub cache_creation_input_tokens : ℕ
  pub cache_read_input_tokens : ℕ

pub record Payload : Type 0 where
  pub schema_version : ℕ
  pub session_id : Option String
  pub transaction_id : String
  pub model : String
  pub usage : UsageCounts
  pub duration_ms : ℕ
  pub is_streaming : Bool
  pub success : Bool
  pub http_status : ℕ

-- The arguments of `fire_and_forget`
pub record Completion : Type 0 where
  pub session_id : Option String
  pub transaction_id : String
  pub model : String
  pub input_tokens : ℕ
  pub output_tokens : ℕ
  pub duration_ms : ℕ
  pub is_streaming : Bool
  pub success : Bool
  pub http_status : ℕ
  pub cache_creation_input_tokens : ℕ
  pub cache_read_input_tokens : ℕ

unfoldable pub build_payload : Completion → Payload
build_payload c = record {
  schema_version = 1;
  session_id = c.session_id;
  transaction_id = c.transaction_id;
  model = c.model;
  usage = record {
    input_tokens = c.input_tokens;
    output_tokens = c.output_tokens;
    total_tokens = c.input_tokens + c.output_tokens;
    cache_creation_input_tokens = c.cache_creation_input_tokens;
    cache_read_input_tokens = c.cache_read_input_tokens;
  };
  duration_ms = c.duration_ms;
  is_streaming = c.is_streaming;
  success = c.success;
  http_status = c.http_status;
}

-- The sender afterwards, and the payload that a new task delivers
unfoldable pub fire_and_forget : Completion → Sender → Sender × Option Payload
unfolding build_payload
fire_and_forget c s =
    if not s.enabled || s.stopped
    then (s, none)
    else if leb s.max_pending_tasks (length s.pending_tasks)
    then (record s { dropped_due_to_backpressure = suc s.dropped_due_to_backpressure }, none)
    else (record s { pending_tasks = c.transaction_id ∷ s.pending_tasks }, some (build_payload c))

unfoldable pub record_payload_build_failure : Sender → Sender
record_payload_build_failure s = record s { payload_build_failures = suc s.payload_build_failures }
