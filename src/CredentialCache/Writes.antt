-- ===== src/CredentialCache/Writes.antt =====
-- What a read sees after a history of calls: the last write of the key, while it lasts.
use luthien_proxy.Base.{
  ℕ, ◌+◌, ◌*◌, ◌≤◌, ◌≡◌, refl, ◌∙◌, String, str_eq, str_eq_iff, Bool, Option, none, some, List, [],
  ◌∷◌, leb, if◌then◌else◌, arith, Option-cases, Bool-cases, inl, inr, any_of,
}
use luthien_proxy.CredentialCache.{
  Entry, Cache, lookup, store, drop_key, get, setex, delete, unlink, second,
}

pub lookup-store :
    (k j : String) (x : Entry) (c : Cache)
    → lookup j (store k x c) ≡ (if str_eq k j then some x else lookup j c)
unfolding lookup store
lookup-store k j x [] = refl
lookup-store k j x ((i, e) ∷ c) =
    ground (arith, lookup-store k j x c, str_eq_iff i k, str_eq_iff i j, str_eq_iff k j)

pub lookup-drop_key :
    (k j : String) (c : Cache) → lookup j (drop_key k c) ≡ (if str_eq k j then none else lookup j c)
unfolding lookup drop_key
lookup-drop_key k j [] = ground arith
lookup-drop_key k j ((i, e) ∷ c) =
    ground (arith, lookup-drop_key k j c, str_eq_iff i k, str_eq_iff i j, str_eq_iff k j)

-- The calls of a history
pub data Call : Type 0 where
  get_key : String → Call
  set_key : String → ℕ → String → Call
  delete_key : String → Call
  unlink_keys : List String → Call

unfoldable pub step : ℕ → Call → Cache → Cache
step now (get_key k) c = (get now k c).0
step now (set_key k ttl v) c = setex now k ttl v c
step now (delete_key k) c = (delete k c).0
step now (unlink_keys ks) c = (unlink ks c).0

unfoldable pub steps : List (ℕ × Call) → Cache → Cache
steps [] c = c
steps ((now, call) ∷ calls) c = steps calls (step now call c)

abbrev pub member : String → List String → Bool
member k ks = any_of (λ j. str_eq j k) ks

-- The last write of `k`, without a cache: what it set and until when, or nothing
unfoldable pub last_write : String → List (ℕ × Call) → Option Entry → Option Entry
last_write k [] w = w
last_write k ((now, get_key j) ∷ calls) w = last_write k calls w
last_write k ((now, set_key j ttl v) ∷ calls) w =
    last_write k calls
      (if str_eq j k then some (record { value = v; expires_at = now + ttl * second }) else w)
last_write k ((now, delete_key j) ∷ calls) w = last_write k calls (if str_eq j k then none else w)
last_write k ((now, unlink_keys js) ∷ calls) w =
    last_write k calls (if member k js then none else w)

-- the value of an entry before it expires
abbrev pub fresh_value : ℕ → Option Entry → Option String
fresh_value now none = none
fresh_value now (some e) = if leb e.expires_at now then none else some e.value

-- The moments do not go back, and none is after `now`.
abbrev pub Until : ℕ → List (ℕ × Call) → Type 0
Until now [] = Unit {0}
Until now ((t, _) ∷ calls) = (t ≤ now) × Until now calls

get-value : (now : ℕ) (k : String) (c : Cache) → (get now k c).1 ≡ fresh_value now (lookup k c)
unfolding get
get-value now k c = elim (Option-cases (lookup k c)) [
  | inl missing ↦ rw (missing, get)
  | inr (e, found) ↦ elim (Bool-cases (leb e.expires_at now)) [
    | inl old ↦ rw (found, old, get)
    | inr young ↦ rw (found, young, get)
  ]
]

-- A read drops only what has expired by then.
get-keeps :
    (t now : ℕ) (j k : String) (c : Cache)
    → t ≤ now
    → fresh_value now (lookup k (get t j c).0) ≡ fresh_value now (lookup k c)
unfolding get
get-keeps t now j k c h = elim (Option-cases (lookup j c)) [
  | inl missing ↦ rw (missing, get) refl
  | inr (e, found) ↦ elim (Bool-cases (leb e.expires_at t)) [
    | inl old ↦ rw (found, old, get) (ground (arith, lookup-drop_key j k c, str_eq_iff j k, found))
    | inr young ↦ rw (found, young, get) refl
  ]
]

lookup-unlink :
    (js : List String) (k : String) (c : Cache)
    → lookup k (unlink js c).0 ≡ (if member k js then none else lookup k c)
unfolding unlink
lookup-unlink [] k c = refl
lookup-unlink (j ∷ js) k c =
    ground (arith, lookup-unlink js k (drop_key j c), lookup-drop_key j k c)

steps-last_write :
    (now : ℕ) (k : String) (calls : List (ℕ × Call)) (c : Cache) (w : Option Entry)
    → Until now calls
    → fresh_value now (lookup k c) ≡ fresh_value now w
    → fresh_value now (lookup k (steps calls c)) ≡ fresh_value now (last_write k calls w)
unfolding steps step last_write setex delete
steps-last_write now k [] c w u h = h
steps-last_write now k ((t, get_key j) ∷ calls) c w u h =
    steps-last_write now k calls (get t j c).0 w u.1 (get-keeps t now j k c u.0 ∙ h)
steps-last_write now k ((t, set_key j ttl v) ∷ calls) c w u h =
    let x : Entry = record { value = v; expires_at = t + ttl * second } in
    steps-last_write now k calls (store j x c) (if str_eq j k then some x else w) u.1 (
      rw (lookup-store j k x c)
        (elim (Bool-cases (str_eq j k)) [ inl same ↦ rw same refl | inr other ↦ rw other h ]))
steps-last_write now k ((t, delete_key j) ∷ calls) c w u h =
    steps-last_write now k calls (drop_key j c) (if str_eq j k then none else w) u.1 (
      rw (lookup-drop_key j k c)
        (elim (Bool-cases (str_eq j k)) [ inl same ↦ rw same refl | inr other ↦ rw other h ]))
steps-last_write now k ((t, unlink_keys js) ∷ calls) c w u h =
    steps-last_write now k calls (unlink js c).0 (if member k js then none else w) u.1 (
      rw (lookup-unlink js k c)
        (elim (Bool-cases (member k js)) [ inl gone ↦ rw gone refl | inr kept ↦ rw kept h ]))

-- After any history of reads, writes and deletions, none of which comes later than the read, a read
-- returns what the last write of the key set, if that has not expired and the key has not been deleted
-- since, and nothing otherwise.
pub get-steps :
    (now : ℕ) (k : String) (calls : List (ℕ × Call))
    → Until now calls
    → (get now k (steps calls [])).1 ≡ fresh_value now (last_write k calls none)
get-steps now k calls u =
    get-value now k (steps calls [])
    ∙ steps-last_write now k calls [] none u (unfold lookup in refl)
