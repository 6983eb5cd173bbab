-- ===== src/RateLimit/Credit.antt =====
-- What one key could spend, and what a check does to it.
use native.Mathlib.Nat.{sub_self, le_trans, mul-le-mul_right}
use luthien_proxy.Base.{
  ◌⊎◌, ℕ, ◌+◌, ◌-◌, ◌*◌, ◌≤◌, ◌<◌, ◌≡◌, refl, sym, String, str_eq, str_eq_iff, false, none, some,
  ltb, ◌==◌, if◌then◌else◌, arith, Bool-cases, Option-cases, inl, inr, length,
}
use luthien_proxy.RateLimit.{
  token, Limiter, Clock, create_bucket, get_or_create_bucket, note_eviction, consume, check,
  refilled,
}
use luthien_proxy.RateLimit.OrderedDict.{
  Bucket, find, move_to_end, append_new, find-move_to_end, find-append_new, find-move_to_end_self,
}
use luthien_proxy.RateLimit.Tokens.{spent, consume_conserves, last_refill-consume}
use luthien_proxy.RateLimit.Valid.{IsValid, get_or_create_bucket-Got, full_bucket}

-- What a key could spend at `t`
unfoldable pub credit : Limiter → String → ℕ → ℕ
credit l k t = elim (find k l.buckets) [ some b ↦ refilled l.rpm l.burst t b | none ↦ l.burst ]

more_time : (t t' last rpm : ℕ) → t ≤ t' → (t' - last) * rpm ≤ (t - last) * rpm + (t' - t) * rpm
more_time t t' last rpm h =
    let bound : (t' - last) * rpm ≤ ((t - last) + (t' - t)) * rpm =
      mul-le-mul_right rpm (omega (arith, h)) in
    omega (arith, bound)

refilled_later :
    (rpm burst t t' : ℕ) (b : Bucket)
    → t ≤ t'
    → refilled rpm burst t' b ≤ refilled rpm burst t b + (t' - t) * rpm
refilled_later rpm burst t t' b h = omega (arith, more_time t t' b.last_refill rpm h)

-- What the bucket that a check finds or creates could spend, against the credit before
refilled-Got :
    (key : String) (c : Clock) (l : Limiter) (t : ℕ)
    → t ≤ c.checked
    → refilled l.rpm l.burst c.checked (get_or_create_bucket key c l).1
      ≤ credit l key t + (c.checked - t) * l.rpm
unfolding credit get_or_create_bucket
refilled-Got key c l t h = elim (Option-cases (find key l.buckets)) [
  | inl new ↦ rw (new, credit, get_or_create_bucket) (omega arith)
  | inr (b, old) ↦
      rw (old, credit, get_or_create_bucket) (refilled_later l.rpm l.burst t c.checked b h)
]

-- What a bucket for `k` in `l1` is worth against `l`, from which at most evictions took buckets
record Kept (k : String) (l l1 : Limiter) : Type 0 where
  same_rpm : l1.rpm ≡ l.rpm
  same_burst : l1.burst ≡ l.burst
  evictions : l.eviction_count ≤ l1.eviction_count
  bucket : (find k l1.buckets ≡ find k l.buckets) ⊎ (l.eviction_count < l1.eviction_count)

create_bucket-Kept :
    (k key : String) (c : Clock) (l : Limiter)
    → IsValid l
    → find key l.buckets ≡ none
    → str_eq key k ≡ false
    → Kept k l (create_bucket key c l)
unfolding create_bucket note_eviction
create_bucket-Kept k key c l v new other =
    elim (Bool-cases (ltb l.max_keys (length (append_new key (full_bucket c l) l.buckets)))) [
      | inl full ↦ rw full (record {
        same_rpm = refl;
        same_burst = refl;
        evictions = omega arith;
        bucket = inr (omega arith);
      })
      | inr fits ↦ rw fits (record {
        same_rpm = refl;
        same_burst = refl;
        evictions = omega arith;
        bucket = inl (rw (find-append_new key k (full_bucket c l) l.buckets new, other) refl);
      })
    ]

get_or_create_bucket-Kept :
    (k key : String) (c : Clock) (l : Limiter)
    → IsValid l
    → str_eq key k ≡ false
    → Kept k l (get_or_create_bucket key c l).0
unfolding get_or_create_bucket
get_or_create_bucket-Kept k key c l v other = elim (Option-cases (find key l.buckets)) [
  | inl new ↦ rw (new, get_or_create_bucket) (create_bucket-Kept k key c l v new other)
  | inr (b, old) ↦
      rw (old, get_or_create_bucket)
        (record {
          same_rpm = refl;
          same_burst = refl;
          evictions = omega arith;
          bucket = inl (rw (find-move_to_end key k b l.buckets, other) refl);
        })
]

get_or_create_bucket-evictions :
    (key : String) (c : Clock) (l : Limiter)
    → l.eviction_count ≤ (get_or_create_bucket key c l).0.eviction_count
unfolding get_or_create_bucket create_bucket note_eviction
get_or_create_bucket-evictions key c l = ground arith

pub credit-le : (l : Limiter) (k : String) (t : ℕ) → credit l k t ≤ l.burst
unfolding credit
credit-le l k t = ground arith

-- the limiter in which a check has charged the bucket
abbrev charged : String → Clock → Limiter → Bucket → Limiter
charged key c l b = record l {
  buckets = move_to_end key (consume l.rpm l.burst c.checked c.wall b).0 l.buckets;
}

nothing_accrues : (now rpm : ℕ) → (now - now) * rpm ≡ 0
nothing_accrues now rpm = rw (sub_self now) (omega arith)

charged-credit_self :
    (key : String) (c : Clock) (l : Limiter) (b : Bucket)
    → token * spent (consume l.rpm l.burst c.checked c.wall b).1.allowed
        + credit (charged key c l b) key c.checked
      ≤ refilled l.rpm l.burst c.checked b
unfolding credit
charged-credit_self key c l b =
    let left = (consume l.rpm l.burst c.checked c.wall b).0 in
    rw
      (
        credit,
        find-move_to_end_self key left l.buckets,
        last_refill-consume l.rpm l.burst c.checked c.wall b,
      )
      (omega (
        arith,
        nothing_accrues c.checked l.rpm,
        consume_conserves l.rpm l.burst c.checked c.wall b,
      ))

charged-credit_other :
    (k key : String) (c : Clock) (l : Limiter) (b : Bucket) (t : ℕ)
    → str_eq key k ≡ false
    → credit (charged key c l b) k t ≡ credit l k t
unfolding credit
charged-credit_other k key c l b t other =
    rw
      (credit, find-move_to_end key k (consume l.rpm l.burst c.checked c.wall b).0 l.buckets, other)
      refl

-- A check of `key` pays for what it grants out of the credit of `key`.
check-credit_self :
    (key : String) (c : Clock) (l : Limiter) (t : ℕ)
    → IsValid l
    → (l.rpm == 0) ≡ false
    → t ≤ c.checked
    → token * spent (check key c l).1.allowed + credit (check key c l).0 key c.checked
      ≤ credit l key t + (c.checked - t) * l.rpm
unfolding check
check-credit_self key c l t v on h =
    let (l1, b) = get_or_create_bucket key c l in
    let got = get_or_create_bucket-Got key c l v in
    rw on (
      le_trans (charged-credit_self key c l1 b)
        (rw (got.same_rpm, got.same_burst) (refilled-Got key c l t h)))

credit_later :
    (l : Limiter) (k : String) (t t' : ℕ) → t ≤ t' → credit l k t' ≤ credit l k t + (t' - t) * l.rpm
unfolding credit
credit_later l k t t' h = elim (Option-cases (find k l.buckets)) [
  | inl new ↦ rw (new, credit) (omega arith)
  | inr (b, old) ↦ rw (old, credit) (refilled_later l.rpm l.burst t t' b h)
]

below_multiple : (n d : ℕ) → 0 < d → n ≤ n * d
below_multiple n d h = grind arith

same_credit :
    (k : String) (l l1 : Limiter) (t : ℕ)
    → find k l1.buckets ≡ find k l.buckets
    → l1.rpm ≡ l.rpm
    → l1.burst ≡ l.burst
    → credit l1 k t ≡ credit l k t
unfolding credit
same_credit k l l1 t same r s = elim (Option-cases (find k l.buckets)) [
  | inl new ↦ rw (credit, same, new) s
  | inr (b, old) ↦ rw (credit, same, old, r, s) refl
]

Kept-credit :
    (k : String) (l l1 : Limiter) (t t' : ℕ)
    → Kept k l l1
    → t ≤ t'
    → credit l1 k t'
      ≤ credit l k t + (t' - t) * l.rpm + l.burst * (l1.eviction_count - l.eviction_count)
unfolding credit
Kept-credit k l l1 t t' kept h = elim kept.bucket [
  | inl same ↦
      let now : credit l1 k t' ≡ credit l k t' =
        same_credit k l l1 t' same kept.same_rpm kept.same_burst in
      omega (arith, now, credit_later l k t t' h)
  | inr evicted ↦
      let full = credit-le l1 k t' in
      omega (
        arith,
        full,
        kept.same_burst,
        below_multiple l.burst (l1.eviction_count - l.eviction_count) (omega (arith, evicted)),
      )
]

-- A check of another key leaves the credit of `k`, unless it evicts a bucket.
check-credit_other :
    (k key : String) (c : Clock) (l : Limiter) (t : ℕ)
    → IsValid l
    → (l.rpm == 0) ≡ false
    → str_eq key k ≡ false
    → t ≤ c.checked
    → credit (check key c l).0 k c.checked
      ≤ credit l k t
        + (c.checked - t) * l.rpm
        + l.burst * ((check key c l).0.eviction_count - l.eviction_count)
unfolding check
check-credit_other k key c l t v on other h =
    let (l1, b) = get_or_create_bucket key c l in
    let kept = get_or_create_bucket-Kept k key c l v other in
    rw (on, charged-credit_other k key c l1 b c.checked other)
      (Kept-credit k l l1 t c.checked kept h)

pub check-evictions :
    (key : String) (c : Clock) (l : Limiter) → l.eviction_count ≤ (check key c l).0.eviction_count
unfolding check
check-evictions key c l = ground (arith, get_or_create_bucket-evictions key c l)

pub check-config :
    (key : String) (c : Clock) (l : Limiter)
    → IsValid l
    → ((check key c l).0.rpm ≡ l.rpm) × ((check key c l).0.burst ≡ l.burst)
unfolding check
check-config key c l v =
    let got = get_or_create_bucket-Got key c l v in
    elim (Bool-cases (l.rpm == 0)) [
      | inl off ↦ rw off (refl, refl)
      | inr on ↦ rw on (got.same_rpm, got.same_burst)
    ]

-- What a check does to the credit of `k`, whichever key it is of
pub check-credit :
    (k key : String) (c : Clock) (l : Limiter) (t : ℕ)
    → IsValid l
    → (l.rpm == 0) ≡ false
    → t ≤ c.checked
    → token * (if str_eq key k then spent (check key c l).1.allowed else 0)
        + credit (check key c l).0 k c.checked
      ≤ credit l k t
        + (c.checked - t) * l.rpm
        + l.burst * ((check key c l).0.eviction_count - l.eviction_count)
check-credit k key c l t v on h = elim (Bool-cases (str_eq key k)) [
  | inl same ↦
      let key≡k : key ≡ k = (str_eq_iff key k).0 same in
      rw (sym key≡k, (str_eq_iff key key).1 refl)
        (omega (arith, check-credit_self key c l t v on h))
  | inr other ↦ rw other (omega (arith, check-credit_other k key c l t v on other h))
]
