-- ===== src/RateLimit/Valid.antt =====
-- The limiter's invariant: at most `max_keys` buckets, no key twice, no bucket above the burst.
use native.Mathlib.Nat.{le_refl}
use luthien_proxy.Base.{
  pos, negsuc, is_negative, ◌≤ℤ◌, ltb→lt, not_lt, ◌==◌, ℕ, ◌≤◌, ◌<◌, ℤ, ◌≡◌, refl, String, false,
  none, some, [], length, ltb, arith, Bool-cases, Option-cases, inl, inr,
}
use luthien_proxy.RateLimit.{
  to_ℕ, Limiter, Made, made, value_error, Clock, init, create_bucket, get_or_create_bucket,
  note_eviction, consume, check,
}
use luthien_proxy.RateLimit.OrderedDict.{
  Bucket, Buckets, find, move_to_end, append_new, pop_first, Distinct, find-move_to_end,
  find-append_new, Distinct-move_to_end, Distinct-append_new, Distinct-pop_first,
  length-move_to_end, length-append_new, find-pop_first, length-pop_first, pop_first-append_new,
  find-pop_first-none, find-append_new_self, find-move_to_end_self,
}
use luthien_proxy.RateLimit.Tokens.{tokens-consume-le}

-- No bucket holds more than `burst`.
abbrev pub Capped : ℕ → Buckets → Type 0
Capped burst l = (k : String) (b : Bucket) → find k l ≡ some b → b.tokens ≤ burst

pub record IsValid (l : Limiter) : Type 0 where
  pub positive : 0 < l.max_keys
  pub bounded : length l.buckets ≤ l.max_keys
  pub distinct : Distinct l.buckets
  pub capped : Capped l.burst l.buckets

-- What `get_or_create_bucket` returns stands in the dictionary.
pub record Got (key : String) (l l1 : Limiter) (b : Bucket) : Type 0 where
  pub valid : IsValid l1
  pub found : find key l1.buckets ≡ some b
  pub same_rpm : l1.rpm ≡ l.rpm
  pub same_burst : l1.burst ≡ l.burst

Capped-move_to_end :
    (burst : ℕ) (key : String) (b : Bucket) (l : Buckets)
    → Capped burst l
    → b.tokens ≤ burst
    → Capped burst (move_to_end key b l)
Capped-move_to_end burst key b l c h k x found = ground (arith, find-move_to_end key k b l, c k x)

Capped-append_new :
    (burst : ℕ) (key : String) (b : Bucket) (l : Buckets)
    → find key l ≡ none
    → Capped burst l
    → b.tokens ≤ burst
    → Capped burst (append_new key b l)
Capped-append_new burst key b l new c h k x found =
    ground (arith, find-append_new key k b l new, c k x)

-- What becomes of the dictionary when a new key comes to one of `n` entries
record Grown (key : String) (b : Bucket) (burst max_keys : ℕ) (l : Buckets) : Type 0 where
  bounded : length l ≤ max_keys
  distinct : Distinct l
  capped : Capped burst l
  found : find key l ≡ some b

evicted-Grown :
    (key : String) (b : Bucket) (burst max_keys : ℕ) (l : Buckets)
    → 0 < max_keys
    → length l ≤ max_keys
    → Distinct l
    → Capped burst l
    → b.tokens ≤ burst
    → find key l ≡ none
    → max_keys < length (append_new key b l)
    → Grown key b burst max_keys (pop_first (append_new key b l))
evicted-Grown key b burst max_keys l p bounded d c h new full =
    let size = length-append_new key b l in
    record {
      bounded = rw length-pop_first (omega (arith, size));
      distinct = Distinct-pop_first (append_new key b l) (Distinct-append_new key b l d new);
      capped = λ k x found.
          Capped-append_new burst key b l new c h k x
            (find-pop_first k x (append_new key b l) (Distinct-append_new key b l d new) found);
      found =
          rw (pop_first-append_new key b l (omega (arith, size)))
            (find-append_new_self key b (pop_first l) (find-pop_first-none key l new));
    }

appended-Grown :
    (key : String) (b : Bucket) (burst max_keys : ℕ) (l : Buckets)
    → Distinct l
    → Capped burst l
    → b.tokens ≤ burst
    → find key l ≡ none
    → length (append_new key b l) ≤ max_keys
    → Grown key b burst max_keys (append_new key b l)
appended-Grown key b burst max_keys l d c h new fits = record {
  bounded = fits;
  distinct = Distinct-append_new key b l d new;
  capped = Capped-append_new burst key b l new c h;
  found = find-append_new_self key b l new;
}

-- the bucket of a new key
abbrev pub full_bucket : Clock → Limiter → Bucket
full_bucket c l = record { tokens = l.burst; last_refill = c.created }

create_bucket-Got :
    (key : String) (c : Clock) (l : Limiter)
    → IsValid l
    → find key l.buckets ≡ none
    → Got key l (create_bucket key c l) (full_bucket c l)
unfolding create_bucket note_eviction
create_bucket-Got key c l v new =
    elim (Bool-cases (ltb l.max_keys (length (append_new key (full_bucket c l) l.buckets)))) [
      | inl full ↦
          let g =
            evicted-Grown key (full_bucket c l) l.burst l.max_keys l.buckets v.positive v.bounded
              v.distinct v.capped (le_refl l.burst) new (ltb→lt _ _ full) in
          rw full (record {
            valid = record {
              positive = v.positive;
              bounded = g.bounded;
              distinct = g.distinct;
              capped = g.capped;
            };
            found = g.found;
            same_rpm = refl;
            same_burst = refl;
          })
      | inr fits ↦
          let g =
            appended-Grown key (full_bucket c l) l.burst l.max_keys l.buckets v.distinct v.capped
              (le_refl l.burst) new (not_lt _ _ fits) in
          rw fits (record {
            valid = record {
              positive = v.positive;
              bounded = g.bounded;
              distinct = g.distinct;
              capped = g.capped;
            };
            found = g.found;
            same_rpm = refl;
            same_burst = refl;
          })
    ]

pub get_or_create_bucket-Got :
    (key : String) (c : Clock) (l : Limiter)
    → IsValid l
    → Got key l (get_or_create_bucket key c l).0 (get_or_create_bucket key c l).1
unfolding get_or_create_bucket
get_or_create_bucket-Got key c l v = elim (Option-cases (find key l.buckets)) [
  | inl new ↦ rw (new, get_or_create_bucket) (create_bucket-Got key c l v new)
  | inr (b, old) ↦
      rw (old, get_or_create_bucket)
        (record {
          valid = record {
            positive = v.positive;
            bounded = rw (length-move_to_end key b b l.buckets v.distinct old) v.bounded;
            distinct = Distinct-move_to_end key b l.buckets v.distinct;
            capped = Capped-move_to_end l.burst key b l.buckets v.capped (v.capped key b old);
          };
          found = find-move_to_end_self key b l.buckets;
          same_rpm = refl;
          same_burst = refl;
        })
]

positive_of_not_le : (n : ℤ) → (n ≤ℤ pos 0) ≡ false → 0 < to_ℕ n
positive_of_not_le (pos n) h = ground arith
positive_of_not_le (negsuc n) h = absurd (ground arith)

Capped-nil : (burst : ℕ) → Capped burst []
unfolding find
Capped-nil burst k b found = absurd (ground (arith, found))

abbrev MadeValid : Made → Type 0
MadeValid (made l) = IsValid l
MadeValid (value_error e) = Unit {0}

init-MadeValid : (rpm burst max_keys : ℤ) → MadeValid (init rpm burst max_keys)
unfolding init
init-MadeValid rpm burst max_keys = elim (Bool-cases (is_negative rpm)) [
  | inl r ↦ rw (r, init) tt
  | inr r ↦ elim (Bool-cases (is_negative burst)) [
    | inl q ↦ rw (r, q, init) tt
    | inr q ↦ elim (Bool-cases (max_keys ≤ℤ pos 0)) [
      | inl n ↦ rw (r, q, n, init) tt
      | inr n ↦
          rw (r, q, n, init)
            (record {
              positive = positive_of_not_le max_keys n;
              bounded = omega arith;
              distinct = tt;
              capped = Capped-nil _;
            })
    ]
  ]
]

-- A limiter that the constructor makes is valid.
pub init-IsValid :
    (rpm burst max_keys : ℤ) (l : Limiter) → init rpm burst max_keys ≡ made l → IsValid l
init-IsValid rpm burst max_keys l h = rw h at (init-MadeValid rpm burst max_keys)

-- Every check, allowed or denied, keeps the limiter's invariant.
pub check-IsValid : (key : String) (c : Clock) (l : Limiter) → IsValid l → IsValid (check key c l).0
unfolding check
check-IsValid key c l v = elim (Bool-cases (l.rpm == 0)) [
  | inl off ↦ rw off v
  | inr on ↦
      let (l1, b) = get_or_create_bucket key c l in
      let got = get_or_create_bucket-Got key c l v in
      let b1 = (consume l1.rpm l1.burst c.checked c.wall b).0 in
      rw on (record {
        positive = got.valid.positive;
        bounded =
            rw (length-move_to_end key b1 b l1.buckets got.valid.distinct got.found)
              got.valid.bounded;
        distinct = Distinct-move_to_end key b1 l1.buckets got.valid.distinct;
        capped =
            Capped-move_to_end l1.burst key b1 l1.buckets got.valid.capped
              (tokens-consume-le l1.rpm l1.burst c.checked c.wall b);
      })
]
