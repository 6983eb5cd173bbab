-- ===== src/RateLimit/Tests.antt =====
-- A limiter of 60 requests a minute and 2 at once, with room for two keys.
use luthien_proxy.Base.{
  ℕ, ◌+◌, ◌-◌, ◌*◌, ◌≤◌, ◌≡◌, refl, pos, String, true, false, none, List, [], ◌∷◌, arith,
}
use luthien_proxy.RateLimit.{
  second, token, Limiter, Clock, init, made, refilled, consume, check, create_bucket, note_eviction,
  get_or_create_bucket,
}
use luthien_proxy.RateLimit.OrderedDict.{Bucket, find, without, move_to_end, append_new, pop_first}
use luthien_proxy.RateLimit.Tokens.{
  spent, consume_conserves, retry_after_enough, retry_after_needed,
}
use luthien_proxy.RateLimit.Valid.{IsValid, init-IsValid, check-IsValid}
use luthien_proxy.RateLimit.Bound.{granted, checks, end_time, granted-le}

abbrev limiter : Limiter
limiter = record {
  rpm = 60;
  burst = 2 * token;
  max_keys = 2;
  eviction_count = 0;
  last_eviction_log = none;
  buckets = [];
}

limiter_made : init (pos 60) (pos 2) (pos 2) ≡ made limiter
unfolding init
limiter_made = refl

init-IsValid_example : IsValid limiter
init-IsValid_example = init-IsValid (pos 60) (pos 2) (pos 2) limiter limiter_made

limiter-IsValid : IsValid limiter
limiter-IsValid = init-IsValid (pos 60) (pos 2) (pos 2) limiter limiter_made

-- a call at one moment
abbrev at_time : ℕ → Clock
at_time now = record { created = now; noted = now; checked = now; wall = 0 }

check-IsValid_example : IsValid (check "a" (at_time second) limiter).0
check-IsValid_example = check-IsValid "a" (at_time second) limiter limiter-IsValid

-- an empty bucket
abbrev empty : Bucket
empty = record { tokens = 0; last_refill = second }

consume_conserves_example :
    token * spent (consume 60 (2 * token) (3 * second) 0 empty).1.allowed
      + (consume 60 (2 * token) (3 * second) 0 empty).0.tokens
    ≡ refilled 60 (2 * token) (3 * second) empty
consume_conserves_example = consume_conserves 60 (2 * token) (3 * second) 0 empty

empty_denied : (consume 60 (2 * token) second 0 empty).1.allowed ≡ false
unfolding consume
empty_denied = refl

empty_wait : (consume 60 (2 * token) second 0 empty).1.retry_after ≡ 1
unfolding consume
empty_wait = refl

retry_after_enough_example :
    (consume 60 (2 * token) (2 * second) 0 (consume 60 (2 * token) second 0 empty).0).1.allowed
    ≡ true
retry_after_enough_example =
    retry_after_enough 60 (2 * token) second 0 empty (omega arith) (omega arith) empty_denied
      (2 * second) 0 (omega (arith, empty_wait))

retry_after_needed_example :
    (consume 60 (2 * token) second 0 (consume 60 (2 * token) second 0 empty).0).1.allowed ≡ false
retry_after_needed_example =
    retry_after_needed 60 (2 * token) second 0 empty (omega arith) (omega arith) empty_denied second
      0 (omega arith) (omega (arith, empty_wait))

-- three keys for two places, `a` four times
abbrev calls : List (String × Clock)
calls =
    ("a", at_time 1)
    ∷ ("a", at_time 2)
    ∷ ("b", at_time 3)
    ∷ ("a", at_time 4)
    ∷ ("c", at_time second)
    ∷ ("a", at_time (second + 10))
    ∷ []

calls-granted : granted "a" calls limiter ≡ 3
unfolding granted check get_or_create_bucket create_bucket note_eviction consume find without
    move_to_end append_new pop_first
calls-granted = refl

granted-le_example :
    token * granted "a" calls limiter
    ≤ limiter.burst
      + (end_time 0 calls - 0) * limiter.rpm
      + limiter.burst * ((checks calls limiter).eviction_count - limiter.eviction_count)
granted-le_example =
    granted-le "a" calls 0 limiter limiter-IsValid (omega arith)
      (omega arith, (omega arith, (omega arith, (omega arith, (omega arith, (omega arith, tt))))))
