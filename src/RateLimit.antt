-- ===== src/RateLimit.antt =====
-- src/luthien_proxy/rate_limit.py: `TokenBucketRateLimiter`. Python's floats are exact numbers here: time
-- counts ticks, 10^9 to a second, and `token` units of credit make one token, so that `rpm` units
-- accrue in each tick. What `time` returns, and the digest of a key, are inputs.
pub mod OrderedDict
pub mod Tokens
pub mod Credit
pub mod Valid
pub mod Bound
mod Tests
use luthien_proxy.Base.{
  ℕ, suc, ◌+◌, ◌-◌, ◌*◌, ◌/◌, min, ℤ, pos, is_negative, ◌≤ℤ◌, String, Bool, true, false, Option,
  none, some, List, [], ◌∷◌, ltb, leb, ◌==◌, if◌then◌else◌, length,
}
use luthien_proxy.RateLimit.OrderedDict.{Bucket, Buckets, find, move_to_end, append_new, pop_first}

abbrev pub second : ℕ
second = 1000000000

-- one token
abbrev pub token : ℕ
token = 60 * second

-- `allowed`, `remaining`, `limit`, `retry_after`, `reset_unix`
pub record RateLimitDecision : Type 0 where
  pub allowed : Bool
  pub remaining : ℕ
  pub limit : ℕ
  pub retry_after : ℕ
  pub reset_unix : ℕ

-- `burst` is in units of credit; `last_eviction_log` is none for minus infinity.
pub record Limiter : Type 0 where
  pub rpm : ℕ
  pub burst : ℕ
  pub max_keys : ℕ
  pub eviction_count : ℕ
  pub last_eviction_log : Option ℕ
  pub buckets : Buckets

pub data InitError : Type 0 where
  negative_rpm negative_burst no_keys : InitError

pub data Made : Type 0 where
  made : Limiter → Made
  value_error : InitError → Made

abbrev pub to_ℕ : ℤ → ℕ
to_ℕ (pos n) = n
to_ℕ _ = 0

-- `__init__`
unfoldable pub init : ℤ → ℤ → ℤ → Made
init rpm burst max_keys =
    if is_negative rpm
    then value_error negative_rpm
    else if is_negative burst
    then value_error negative_burst
    else if max_keys ≤ℤ pos 0
    then value_error no_keys
    else made (record {
      rpm = to_ℕ rpm;
      burst = token * (if to_ℕ burst == 0 then to_ℕ rpm else to_ℕ burst);
      max_keys = to_ℕ max_keys;
      eviction_count = 0;
      last_eviction_log = none;
      buckets = [];
    })

-- What the clocks show in one call of `check`: when a bucket is created, when an eviction is noted,
-- in the critical section, and the wall clock in seconds
pub record Clock : Type 0 where
  pub created : ℕ
  pub noted : ℕ
  pub checked : ℕ
  pub wall : ℕ

-- `now - self._last_eviction_log >= self._EVICTION_LOG_INTERVAL`
abbrev log_due : ℕ → Option ℕ → Bool
log_due now none = true
log_due now (some last) = leb (60 * second) (now - last)

-- `_note_eviction`; the warning itself is not modelled
unfoldable pub note_eviction : ℕ → Limiter → Limiter
note_eviction now l = record l {
  eviction_count = suc l.eviction_count;
  last_eviction_log = if log_due now l.last_eviction_log then some now else l.last_eviction_log;
}

-- the branch of `_get_or_create_bucket` for a new key
unfoldable pub create_bucket : String → Clock → Limiter → Limiter
create_bucket key c l =
    let grown = append_new key (record { tokens = l.burst; last_refill = c.created }) l.buckets in
    if ltb l.max_keys (length grown)
    then note_eviction c.noted (record l { buckets = pop_first grown })
    else record l { buckets = grown }

-- `_get_or_create_bucket`: the limiter afterwards, in which the key's bucket stands last, and that
-- bucket
unfoldable pub get_or_create_bucket : String → Clock → Limiter → Limiter × Bucket
get_or_create_bucket key c l = elim (find key l.buckets) [
  | some b ↦ (record l { buckets = move_to_end key b l.buckets }, b)
  | none ↦ (create_bucket key c l, record { tokens = l.burst; last_refill = c.created })
]

-- `math.ceil(tokens_needed / (rpm / 60))`, in seconds
abbrev pub retry_seconds : ℕ → ℕ → ℕ
retry_seconds rpm needed = (needed + (rpm * second - 1)) / (rpm * second)

-- `min(self.burst, tokens + elapsed * (self.rpm / 60.0))`
abbrev pub refilled : ℕ → ℕ → ℕ → Bucket → ℕ
refilled rpm burst now b = min burst (b.tokens + (now - b.last_refill) * rpm)

-- the critical section of `check`
unfoldable pub consume : ℕ → ℕ → ℕ → ℕ → Bucket → Bucket × RateLimitDecision
consume rpm burst now wall b =
    let tokens = refilled rpm burst now b in
    if ltb tokens token
    then (
      record { tokens = tokens; last_refill = now },
      record {
        allowed = false;
        remaining = 0;
        limit = rpm;
        retry_after = retry_seconds rpm (token - tokens);
        reset_unix = wall + retry_seconds rpm (token - tokens);
      },
    )
    else (
      record { tokens = tokens - token; last_refill = now },
      record {
        allowed = true;
        remaining = (tokens - token) / token;
        limit = rpm;
        retry_after = 0;
        reset_unix = wall;
      },
    )

-- `check` of a key whose digest is `key`
unfoldable pub check : String → Clock → Limiter → Limiter × RateLimitDecision
check key c l =
    if l.rpm == 0
    then (
      l,
      record { allowed = true; remaining = 0; limit = 0; retry_after = 0; reset_unix = c.wall },
    )
    else (let (l1, b) = get_or_create_bucket key c l in
        let (b1, decision) = consume l1.rpm l1.burst c.checked c.wall b in
        (record l1 { buckets = move_to_end key b1 l1.buckets }, decision))
