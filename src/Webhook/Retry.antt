-- ===== src/Webhook/Retry.antt =====
-- `_attempt_send` and `_send_with_retries`. What each attempt meets and each random number are inputs.
use luthien_proxy.Base.{
  ℕ, zero, suc, ◌+◌, ◌*◌, min, Bool, true, false, ◌&&◌, ◌||◌, List, [], ◌∷◌, ltb, leb, ◌==◌,
  if◌then◌else◌,
}

-- An attempt gets an answer with a status, fails in the network, or raises another exception.
pub data Reply : Type 0 where
  status : ℕ → Reply
  network_error unexpected : Reply

pub record Attempt : Type 0 where
  pub success : Bool
  pub retryable : Bool

abbrev pub retryable_status : ℕ → Bool
retryable_status n = (leb 500 n && ltb n 600) || n == 408 || n == 425 || n == 429

-- `_attempt_send`, and the handler of other exceptions in the loop
unfoldable pub attempt_send : Reply → Attempt
attempt_send (status n) =
    if leb 200 n && ltb n 300
    then record { success = true; retryable = false }
    else record { success = false; retryable = retryable_status n }
attempt_send network_error = record { success = false; retryable = true }
attempt_send unexpected = record { success = false; retryable = false }

abbrev pub max_retry_delay : ℕ
max_retry_delay = 60000

pub data Ending : Type 0 where
  delivered permanent_failure gave_up : Ending

-- How a delivery ends, after how many attempts, and its sleeps, each in two-thousandths of a
-- millisecond
pub record Delivery : Type 0 where
  pub ending : Ending
  pub attempts : ℕ
  pub sleeps : List ℕ

abbrev pub ended : Ending → Delivery
ended e = record { ending = e; attempts = 1; sleeps = [] }

abbrev pub after_sleep : ℕ → Delivery → Delivery
after_sleep sleep d = record d { attempts = suc d.attempts; sleeps = sleep ∷ d.sleeps }

abbrev pub once_more : Delivery → Delivery
once_more d = record d { attempts = suc d.attempts }

-- `base * (0.5 + 0.5 * random())`, where the random number is `r` thousandths
abbrev pub jittered : ℕ → ℕ → ℕ
jittered delay r = min delay max_retry_delay * (1000 + r)

-- The loop over `range(1 + max_retries)`, from `attempt` on with `left` rounds to go
unfoldable pub retry_loop : (ℕ → Reply) → (ℕ → ℕ) → ℕ → ℕ → ℕ → ℕ → Delivery
retry_loop replies random max_retries zero attempt delay = record {
  ending = gave_up;
  attempts = 0;
  sleeps = [];
}
retry_loop replies random max_retries (suc left) attempt delay =
    let a = attempt_send (replies attempt) in
    let rest =
      retry_loop replies random max_retries left (suc attempt)
        (if ltb attempt max_retries then min (delay * 2) max_retry_delay else delay) in
    if a.success
    then ended delivered
    else if a.retryable
    then (if ltb attempt max_retries
        then after_sleep (jittered delay (random attempt)) rest
        else once_more rest)
    else ended permanent_failure

-- `_send_with_retries` of an enabled sender
unfoldable pub send_with_retries : (ℕ → Reply) → (ℕ → ℕ) → ℕ → ℕ → Delivery
unfolding retry_loop
send_with_retries replies random max_retries retry_delay =
    retry_loop replies random max_retries (suc max_retries) 0 retry_delay
