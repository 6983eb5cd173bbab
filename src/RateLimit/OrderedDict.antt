-- ===== src/RateLimit/OrderedDict.antt =====
-- The `OrderedDict` of buckets, least recently used first.
use luthien_proxy.Base.{
  ℕ, suc, ◌+◌, ◌-◌, ◌<◌, ◌≡◌, refl, ap, String, str_eq, str_eq_iff, Option, none, some, List, [],
  ◌∷◌, ◌++◌, length, length-append, Bool-cases, inl, inr, if◌then◌else◌, arith,
}

-- `[tokens, last_refill_time]`, in units of credit and in ticks; the lock beside it is not modelled
pub record Bucket : Type 0 where
  pub tokens : ℕ
  pub last_refill : ℕ

abbrev pub Buckets : Type 0
Buckets = List (String × Bucket)

unfoldable pub find : String → Buckets → Option Bucket
find k [] = none
find k ((j, b) ∷ l) = if str_eq j k then some b else find k l

unfoldable pub without : String → Buckets → Buckets
without k [] = []
without k ((j, b) ∷ l) = let rest = without k l in if str_eq j k then rest else (j, b) ∷ rest

-- `d.move_to_end(key)` where the key's value is, or becomes, `b`
unfoldable pub move_to_end : String → Bucket → Buckets → Buckets
unfolding without
move_to_end k b l = without k l ++ (k, b) ∷ []

-- `d[key] = b` for a new key
unfoldable pub append_new : String → Bucket → Buckets → Buckets
append_new k b l = l ++ (k, b) ∷ []

-- `d.popitem(last=False)`
unfoldable pub pop_first : Buckets → Buckets
pop_first [] = []
pop_first (e ∷ l) = l

find-without :
    (k j : String) (l : Buckets) → find j (without k l) ≡ (if str_eq k j then none else find j l)
unfolding find without
find-without k j [] = ground arith
find-without k j ((i, b) ∷ l) =
    ground (arith, find-without k j l, str_eq_iff i k, str_eq_iff i j, str_eq_iff k j)

find-snoc :
    (j k : String) (b : Bucket) (l : Buckets)
    → find j (l ++ (k, b) ∷ [])
      ≡ (elim (find j l) [ some x ↦ some x | none ↦ if str_eq k j then some b else none ])
unfolding find
find-snoc j k b [] = refl
find-snoc j k b ((i, x) ∷ l) = ground (arith, find-snoc j k b l)

pub find-move_to_end :
    (k j : String) (b : Bucket) (l : Buckets)
    → find j (move_to_end k b l) ≡ (if str_eq k j then some b else find j l)
unfolding move_to_end
find-move_to_end k j b l = ground (arith, find-snoc j k b (without k l), find-without k j l)

pub find-append_new :
    (k j : String) (b : Bucket) (l : Buckets)
    → find k l ≡ none
    → find j (append_new k b l) ≡ (if str_eq k j then some b else find j l)
unfolding append_new
find-append_new k j b l h = ground (arith, find-snoc j k b l, str_eq_iff k j)

-- No key stands twice.
abbrev pub Distinct : Buckets → Type 0
Distinct [] = Unit {0}
Distinct ((k, b) ∷ l) = (find k l ≡ none) × Distinct l

Distinct-without : (k : String) (l : Buckets) → Distinct l → Distinct (without k l)
unfolding without
Distinct-without k [] d = tt
Distinct-without k ((j, b) ∷ l) d = elim (Bool-cases (str_eq j k)) [
  | inl same ↦ rw same (Distinct-without k l d.1)
  | inr other ↦ rw other (ground (arith, find-without k j l, d.0), Distinct-without k l d.1)
]

Distinct-snoc :
    (k : String) (b : Bucket) (l : Buckets)
    → Distinct l
    → find k l ≡ none
    → Distinct (l ++ (k, b) ∷ [])
unfolding find
Distinct-snoc k b [] d h = (refl, tt)
Distinct-snoc k b ((j, x) ∷ l) d h = (
  ground (arith, find-snoc j k b l, d.0, str_eq_iff j k, str_eq_iff k j),
  Distinct-snoc k b l d.1 (ground arith),
)

find-without_self : (k : String) (l : Buckets) → find k (without k l) ≡ none
find-without_self k l = ground (arith, find-without k k l, str_eq_iff k k)

pub Distinct-move_to_end :
    (k : String) (b : Bucket) (l : Buckets) → Distinct l → Distinct (move_to_end k b l)
unfolding move_to_end
Distinct-move_to_end k b l d =
    Distinct-snoc k b (without k l) (Distinct-without k l d) (find-without_self k l)

pub Distinct-append_new :
    (k : String) (b : Bucket) (l : Buckets)
    → Distinct l
    → find k l ≡ none
    → Distinct (append_new k b l)
unfolding append_new
Distinct-append_new k b l d h = Distinct-snoc k b l d h

pub Distinct-pop_first : (l : Buckets) → Distinct l → Distinct (pop_first l)
unfolding pop_first
Distinct-pop_first [] d = tt
Distinct-pop_first ((k, b) ∷ l) d = d.1

length-without-absent :
    (k : String) (l : Buckets) → find k l ≡ none → length (without k l) ≡ length l
unfolding find without
length-without-absent k [] h = refl
length-without-absent k ((j, b) ∷ l) h = ground (arith, length-without-absent k l)

-- A key that is there moves, so that the dictionary keeps its size.
pub length-move_to_end :
    (k : String) (b x : Bucket) (l : Buckets)
    → Distinct l
    → find k l ≡ some x
    → length (move_to_end k b l) ≡ length l
unfolding move_to_end find without
length-move_to_end k b x [] d h = absurd (ground arith)
length-move_to_end k b x ((j, y) ∷ l) d h = elim (Bool-cases (str_eq j k)) [
  | inl same ↦
      let absent : find k l ≡ none = ground (arith, str_eq_iff j k, d.0) in
      rw same
        (omega (arith, length-append (without k l) ((k, b) ∷ []), length-without-absent k l absent))
  | inr other ↦ rw other (ap suc (length-move_to_end k b x l d.1 (rw other at h)))
]

pub length-append_new :
    (k : String) (b : Bucket) (l : Buckets) → length (append_new k b l) ≡ length l + 1
unfolding append_new
length-append_new k b l = omega (arith, length-append l ((k, b) ∷ []))

-- What is left after an eviction was there before.
pub find-pop_first :
    (k : String) (b : Bucket) (l : Buckets)
    → Distinct l
    → find k (pop_first l) ≡ some b
    → find k l ≡ some b
unfolding find pop_first
find-pop_first k b [] d h = h
find-pop_first k b ((j, x) ∷ l) d h = ground (arith, str_eq_iff j k, d.0)

pub length-pop_first : (l : Buckets) → length (pop_first l) ≡ length l - 1
unfolding pop_first
length-pop_first [] = refl
length-pop_first (e ∷ l) = omega arith

-- The entry that leaves is an old one, if there is one.
pub pop_first-append_new :
    (k : String) (b : Bucket) (l : Buckets)
    → 0 < length l
    → pop_first (append_new k b l) ≡ append_new k b (pop_first l)
unfolding pop_first append_new
pop_first-append_new k b [] h = absurd (omega arith)
pop_first-append_new k b (e ∷ l) h = refl

pub find-pop_first-none : (k : String) (l : Buckets) → find k l ≡ none → find k (pop_first l) ≡ none
unfolding find pop_first
find-pop_first-none k [] h = h
find-pop_first-none k ((j, x) ∷ l) h = ground arith

pub find-move_to_end_self :
    (k : String) (b : Bucket) (l : Buckets) → find k (move_to_end k b l) ≡ some b
find-move_to_end_self k b l = ground (arith, find-move_to_end k k b l, str_eq_iff k k)

pub find-append_new_self :
    (k : String) (b : Bucket) (l : Buckets) → find k l ≡ none → find k (append_new k b l) ≡ some b
find-append_new_self k b l h = ground (arith, find-append_new k k b l h, str_eq_iff k k)
