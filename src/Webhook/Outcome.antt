-- ===== src/Webhook/Outcome.antt =====
-- How a delivery ends, after how many attempts, and how long it sleeps.
use luthien_proxy.Base.{
  ℕ, zero, suc, ◌+◌, ◌-◌, ◌*◌, ◌≤◌, ◌<◌, min, ◌≡◌, refl, ◌⊎◌, inl, inr, true, false, List, [], ◌∷◌,
  ltb, ltb→lt, if◌then◌else◌, arith, length, Bool-cases,
}
use luthien_proxy.Webhook.Retry.{
  Reply, attempt_send, Ending, delivered, permanent_failure, gave_up, Delivery, after_sleep,
  once_more, jittered, max_retry_delay, retry_loop, send_with_retries,
}

abbrev pub All : (ℕ → Type 0) → List ℕ → Type 0
All P [] = Unit {0}
All P (x ∷ xs) = P x × All P xs

-- The attempt is worth another.
abbrev pub Retried : Reply → Type 0
Retried r = ((attempt_send r).success ≡ false) × ((attempt_send r).retryable ≡ true)

-- The attempt decides the ending.
abbrev pub Decides : Reply → Ending → Type 0
Decides r e =
    (((attempt_send r).success ≡ true) × (e ≡ delivered))
    ⊎ (((attempt_send r).success ≡ false)
        × ((attempt_send r).retryable ≡ false)
        × (e ≡ permanent_failure))

-- The first of `left` replies from `from` on that is not retried decides; without one the delivery
-- is given up.
abbrev pub Ends : (ℕ → Reply) → ℕ → ℕ → Delivery → Type 0
Ends replies from left d =
    ((k : ℕ) × (k < left)
      × ((j : ℕ) → j < k → Retried (replies (from + j)))
      × (d.attempts ≡ suc k)
      × Decides (replies (from + k)) d.ending)
    ⊎ (((j : ℕ) → j < left → Retried (replies (from + j)))
        × (d.attempts ≡ left)
        × (d.ending ≡ gave_up))

shift :
    (replies : ℕ → Reply) (from left : ℕ)
    → Retried (replies from)
    → ((j : ℕ) → j < left → Retried (replies (suc from + j)))
    → (j : ℕ) → j < suc left
    → Retried (replies (from + j))
shift replies from left here rest zero h = let e : from + 0 ≡ from = omega arith in rw e here
shift replies from left here rest (suc j) h =
    let e : from + suc j ≡ suc from + j = omega arith in rw e (rest j (omega arith))

Ends-suc :
    (replies : ℕ → Reply) (from left : ℕ) (d d' : Delivery)
    → Retried (replies from)
    → d'.attempts ≡ suc d.attempts
    → d'.ending ≡ d.ending
    → Ends replies (suc from) left d
    → Ends replies from (suc left) d'
Ends-suc replies from left d d' here a b (inl (k, h, before, n, decides)) =
    let e : from + suc k ≡ suc from + k = omega arith in
    inl (suc k, omega arith, shift replies from k here before, omega arith, rw (e, b) decides)
Ends-suc replies from left d d' here a b (inr (all, n, given)) =
    inr (shift replies from left here all, omega arith, rw b given)

retry_loop-Ends :
    (replies : ℕ → Reply) (random : ℕ → ℕ) (m left attempt delay : ℕ)
    → Ends replies attempt left (retry_loop replies random m left attempt delay)
unfolding retry_loop
retry_loop-Ends replies random m zero attempt delay = inr (λ j h. absurd (omega arith), refl, refl)
retry_loop-Ends replies random m (suc left) attempt delay =
    let a = attempt_send (replies attempt) in
    let e : attempt + 0 ≡ attempt = omega arith in
    let next = if ltb attempt m then min (delay * 2) max_retry_delay else delay in
    elim (Bool-cases a.success) [
      | inl good ↦
          rw good
            (inl (0, omega arith, λ j h. absurd (omega arith), refl, inl (rw (e, good), refl)))
      | inr bad ↦ elim (Bool-cases a.retryable) [
        | inr final ↦
            rw (bad, final)
              (inl (
                0,
                omega arith,
                λ j h. absurd (omega arith),
                refl,
                inr (rw (e, bad), rw (e, final), refl),
              ))
        | inl again ↦
            let rest = retry_loop-Ends replies random m left (suc attempt) next in
            elim (Bool-cases (ltb attempt m)) [
              | inl sleeps ↦
                  let d =
                    retry_loop replies random m left (suc attempt)
                      (min (delay * 2) max_retry_delay) in
                  rw (bad, again, sleeps)
                    (Ends-suc replies attempt left d
                      (after_sleep (jittered delay (random attempt)) d) (bad, again) refl refl
                      (rw sleeps at rest))
              | inr last ↦
                  let d = retry_loop replies random m left (suc attempt) delay in
                  rw (bad, again, last)
                    (Ends-suc replies attempt left d (once_more d) (bad, again) refl refl
                      (rw last at rest))
            ]
      ]
    ]

-- With random numbers of at most 1, a sleep is never longer than the cap, and there is one less than
-- there are attempts.
abbrev Slept : ℕ → ℕ → Delivery → Type 0
Slept left cap d =
    (d.attempts ≤ left)
    × (min 1 left ≤ d.attempts)
    × (length d.sleeps ≤ d.attempts - 1)
    × All (λ s. s ≤ cap) d.sleeps

abbrev pub longest_sleep : ℕ
longest_sleep = 2000 * max_retry_delay

jittered_le : (delay r : ℕ) → r ≤ 1000 → jittered delay r ≤ longest_sleep
jittered_le delay r h = grind arith

retry_loop-Slept :
    (replies : ℕ → Reply) (random : ℕ → ℕ) (m left attempt delay : ℕ)
    → ((n : ℕ) → random n ≤ 1000)
    → attempt + left ≡ suc m
    → Slept left longest_sleep (retry_loop replies random m left attempt delay)
unfolding retry_loop
retry_loop-Slept replies random m zero attempt delay u e =
    (omega arith, omega arith, omega arith, tt)
retry_loop-Slept replies random m (suc left) attempt delay u e =
    let a = attempt_send (replies attempt) in
    elim (Bool-cases a.success) [
      | inl good ↦ rw good (omega arith, omega arith, omega arith, tt)
      | inr bad ↦ elim (Bool-cases a.retryable) [
        | inr final ↦ rw (bad, final) (omega arith, omega arith, omega arith, tt)
        | inl again ↦ elim (Bool-cases (ltb attempt m)) [
          | inl sleeps ↦
              let next = min (delay * 2) max_retry_delay in
              let (n, low, k, all) =
                retry_loop-Slept replies random m left (suc attempt) next u (omega arith) in
              let more = ltb→lt attempt m sleeps in
              rw (bad, again, sleeps)
                (
                  omega arith,
                  omega arith,
                  omega arith,
                  (jittered_le delay (random attempt) (u attempt), all),
                )
          | inr last ↦
              let (n, low, k, all) =
                retry_loop-Slept replies random m left (suc attempt) delay u (omega arith) in
              rw (bad, again, last) (omega arith, omega arith, omega arith, all)
        ]
      ]
    ]

-- A delivery of an enabled sender ends, however the attempts go: it is the first reply that is not
-- worth another attempt, among the first and `max_retries` more, that decides if it is delivered or
-- a permanent failure, and without one it is given up after all of them; no sleep is longer than the
-- cap, if no random number is above 1.
pub send_with_retries-Ends :
    (replies : ℕ → Reply) (random : ℕ → ℕ) (max_retries retry_delay : ℕ)
    → ((n : ℕ) → random n ≤ 1000)
    → Ends replies 0 (suc max_retries) (send_with_retries replies random max_retries retry_delay)
      × All
          (λ s. s ≤ longest_sleep)
          (send_with_retries replies random max_retries retry_delay).sleeps
      × (length (send_with_retries replies random max_retries retry_delay).sleeps ≤ max_retries)
unfolding send_with_retries
send_with_retries-Ends replies random m delay u =
    let (n, _, k, all) = retry_loop-Slept replies random m (suc m) 0 delay u (omega arith) in
    (retry_loop-Ends replies random m (suc m) 0 delay, all, omega arith)
