-- ===== src/RateLimit/Bound.antt =====
-- What one key may have granted over a sequence of checks of any keys.
use native.Mathlib.Nat.{le_trans, le_refl}
use luthien_proxy.Base.{
  ℕ, ◌+◌, ◌-◌, ◌*◌, ◌≤◌, ◌<◌, ◌≡◌, String, str_eq, false, List, [], ◌∷◌, ◌==◌, if◌then◌else◌, arith,
}
use luthien_proxy.RateLimit.{token, Limiter, Clock, check}
use luthien_proxy.RateLimit.Tokens.{spent}
use luthien_proxy.RateLimit.Valid.{IsValid, check-IsValid}
use luthien_proxy.RateLimit.Credit.{credit, credit-le, check-credit, check-config, check-evictions}

-- How many requests for `k` a sequence of checks grants
unfoldable pub granted : String → List (String × Clock) → Limiter → ℕ
granted k [] l = 0
granted k ((j, c) ∷ calls) l =
    let (l1, decision) = check j c l in
    (if str_eq j k then spent decision.allowed else 0) + granted k calls l1

unfoldable pub checks : List (String × Clock) → Limiter → Limiter
checks [] l = l
checks ((j, c) ∷ calls) l = checks calls (check j c l).0

-- the clock at the last check
unfoldable pub end_time : ℕ → List (String × Clock) → ℕ
end_time t [] = t
end_time t ((j, c) ∷ calls) = end_time c.checked calls

-- The clock does not go back.
abbrev pub Monotone : ℕ → List (String × Clock) → Type 0
Monotone t [] = Unit {0}
Monotone t ((j, c) ∷ calls) = (t ≤ c.checked) × Monotone c.checked calls

pub end_time-le : (t : ℕ) (calls : List (String × Clock)) → Monotone t calls → t ≤ end_time t calls
unfolding end_time
end_time-le t [] m = le_refl t
end_time-le t ((j, c) ∷ calls) m = le_trans m.0 (end_time-le c.checked calls m.1)

checks-evictions :
    (calls : List (String × Clock)) (l : Limiter)
    → l.eviction_count ≤ (checks calls l).eviction_count
unfolding checks
checks-evictions [] l = le_refl _
checks-evictions ((j, c) ∷ calls) l =
    le_trans (check-evictions j c l) (checks-evictions calls (check j c l).0)

split : (t t1 t2 r : ℕ) → t ≤ t1 → t1 ≤ t2 → (t2 - t) * r ≡ (t1 - t) * r + (t2 - t1) * r
split t t1 t2 r h k = grind arith

split' : (b e e1 e2 : ℕ) → e ≤ e1 → e1 ≤ e2 → b * (e2 - e) ≡ b * (e1 - e) + b * (e2 - e1)
split' b e e1 e2 h k = grind arith

add_up :
    (t t1 t2 rpm burst e e1 e2 x g before middle after : ℕ)
    → t1 ≤ t2
    → t ≤ t1
    → e1 ≤ e2
    → e ≤ e1
    → token * x + middle ≤ before + (t1 - t) * rpm + burst * (e1 - e)
    → token * g + after ≤ middle + (t2 - t1) * rpm + burst * (e2 - e1)
    → token * (x + g) + after ≤ before + (t2 - t) * rpm + burst * (e2 - e)
add_up t t1 t2 rpm burst e e1 e2 x g before middle after h k h' k' first rest =
    omega (arith, split t t1 t2 rpm k h, split' burst e e1 e2 k' h')

-- the bound with what is left of the credit in the end
checks-credit :
    (k : String) (calls : List (String × Clock)) (t : ℕ) (l : Limiter)
    → IsValid l
    → (l.rpm == 0) ≡ false
    → Monotone t calls
    → token * granted k calls l + credit (checks calls l) k (end_time t calls)
      ≤ credit l k t
        + (end_time t calls - t) * l.rpm
        + l.burst * ((checks calls l).eviction_count - l.eviction_count)
unfolding granted checks end_time
checks-credit k [] t l v on m = omega arith
checks-credit k ((j, c) ∷ calls) t l v on m =
    let l1 = (check j c l).0 in
    let config = check-config j c l v in
    let first = check-credit k j c l t v on m.0 in
    let rest = checks-credit k calls c.checked l1 (check-IsValid j c l v) (rw config.0 on) m.1 in
    add_up _ _ _ _ _ _ _ _ _ _ _ _ _ (end_time-le c.checked calls m.1) m.0
      (checks-evictions calls l1) (check-evictions j c l) first
      (rw config.0 at (rw config.1 at rest))

-- However the checks of other keys stand between those of `k`, the tokens granted to `k` are at most
-- the burst, what accrues at the rate from the start to the last check, and one burst for each bucket
-- that was evicted meanwhile. The clock does not go back, and the limiter is valid and not disabled.
pub granted-le :
    (k : String) (calls : List (String × Clock)) (t : ℕ) (l : Limiter)
    → IsValid l
    → 0 < l.rpm
    → Monotone t calls
    → token * granted k calls l
      ≤ l.burst
        + (end_time t calls - t) * l.rpm
        + l.burst * ((checks calls l).eviction_count - l.eviction_count)
granted-le k calls t l v running m =
    omega (arith, checks-credit k calls t l v (ground arith) m, credit-le l k t)
