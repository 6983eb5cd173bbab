-- ===== src/RateLimit/Tokens.antt =====
-- One bucket: what a check takes, and what a denial promises.
use luthien_proxy.Base.{ℕ, ◌+◌, ◌-◌, ◌*◌, ◌/◌, ◌≤◌, ◌<◌, ◌≡◌, Bool, true, false, min, arith}
use native.Mathlib.Nat.{mul-le-mul_right}
use luthien_proxy.RateLimit.{token, second, refilled, consume, retry_seconds}
use luthien_proxy.RateLimit.OrderedDict.{Bucket}

-- 1 for an allowed request
abbrev pub spent : Bool → ℕ
spent true = 1
spent false = 0

module _ (rpm burst now wall : ℕ) (b : Bucket) where
  -- A check costs exactly one token if it is allowed and nothing if not, and never leaves more than
  -- the burst.
  pub consume_conserves :
      token * spent (consume rpm burst now wall b).1.allowed
        + (consume rpm burst now wall b).0.tokens
      ≡ refilled rpm burst now b
  unfolding consume
  consume_conserves = ground arith

  pub last_refill-consume : (consume rpm burst now wall b).0.last_refill ≡ now
  unfolding consume
  last_refill-consume = ground arith

  pub tokens-consume-le : (consume rpm burst now wall b).0.tokens ≤ burst
  unfolding consume
  tokens-consume-le = ground arith

ceil_enough : (n q : ℕ) → 0 < q → n ≤ (n + (q - 1)) / q * q
ceil_enough n q h = grind arith

ceil_least : (n q : ℕ) → 0 < q → 0 < n → ((n + (q - 1)) / q - 1) * q < n
ceil_least n q h p = grind arith

regroup : (r q rpm : ℕ) → r * (rpm * q) ≡ r * q * rpm
regroup r q rpm = grind arith

scaled : (e r q : ℕ) (rpm : ℕ) → r * q ≤ e → r * (rpm * q) ≤ e * rpm
scaled e r q rpm h = rw regroup (mul-le-mul_right rpm h)

scaled_below : (e r q rpm : ℕ) → e ≤ r * q → e * rpm ≤ r * (rpm * q)
scaled_below e r q rpm h = rw regroup (mul-le-mul_right rpm h)

allowed_of_le :
    (rpm burst now wall : ℕ) (b : Bucket)
    → token ≤ refilled rpm burst now b
    → (consume rpm burst now wall b).1.allowed ≡ true
unfolding consume
allowed_of_le rpm burst now wall b h = ground arith

denied_of_lt :
    (rpm burst now wall : ℕ) (b : Bucket)
    → refilled rpm burst now b < token
    → (consume rpm burst now wall b).1.allowed ≡ false
unfolding consume
denied_of_lt rpm burst now wall b h = ground arith

-- the product of the rate with a second is positive
rate_pos : (rpm : ℕ) → 0 < rpm → 0 < rpm * second
rate_pos rpm h = omega arith

module _ (rpm burst now wall : ℕ) (b : Bucket) (running : 0 < rpm) (room : token ≤ burst)
    (denied : (consume rpm burst now wall b).1.allowed ≡ false) where
  abbrev after : Bucket
  after = (consume rpm burst now wall b).0

  abbrev wait : ℕ
  wait = (consume rpm burst now wall b).1.retry_after

  after_tokens : after.tokens < token
  unfolding consume
  after_tokens = ground arith

  after_last : after.last_refill ≡ now
  after_last = last_refill-consume rpm burst now wall b

  wait_lem : wait ≡ retry_seconds rpm (token - after.tokens)
  unfolding consume
  wait_lem = ground arith

  accrued :
      (later : ℕ) → refilled rpm burst later after ≡ min burst (after.tokens + (later - now) * rpm)
  accrued later = rw after_last

  -- With a rate that is not 0 and room for a token: after a denial a request that comes `retry_after` seconds later is allowed.
  pub retry_after_enough :
      (later wall' : ℕ)
      → now + wait * second ≤ later
      → (consume rpm burst later wall' after).1.allowed ≡ true
  retry_after_enough later wall' h =
      let enough = ceil_enough (token - after.tokens) (rpm * second) (rate_pos rpm running) in
      let more = rw wait_lem at (scaled (later - now) wait second rpm (omega arith)) in
      allowed_of_le rpm burst later wall' after
        (rw accrued (omega (arith, enough, more, after_tokens)))

  -- With a rate that is not 0 and room for a token: after a denial a request that comes at least a
  -- second before `retry_after` is over is denied.
  pub retry_after_needed :
      (later wall' : ℕ)
      → now ≤ later
      → later + second ≤ now + wait * second
      → (consume rpm burst later wall' after).1.allowed ≡ false
  retry_after_needed later wall' h k =
      let least =
        ceil_least (token - after.tokens) (rpm * second) (rate_pos rpm running)
          (omega (arith, after_tokens)) in
      let less = rw wait_lem at (scaled_below (later - now) (wait - 1) second rpm (omega arith)) in
      denied_of_lt rpm burst later wall' after
        (rw accrued (omega (arith, least, less, after_tokens)))
