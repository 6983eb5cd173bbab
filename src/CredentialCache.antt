-- ===== src/CredentialCache.antt =====
-- src/luthien_proxy/utils/credential_cache.py: `InProcessCredentialCache`. A moment is a natural number of
-- ticks, `second` of them to a second; each operation is given the moment that `time.monotonic` shows
-- it. A TTL is not negative, and `fnmatch` is a parameter.
pub mod Writes
mod Tests
use luthien_proxy.Base.{
  ℕ, suc, ◌+◌, ◌-◌, ◌*◌, ◌/◌, ℤ, pos, negsuc, String, str_eq, Bool, true, false, Option, none, some,
  List, [], ◌∷◌, ◌++◌, leb, ◌==◌, if◌then◌else◌, is_some,
}

abbrev pub second : ℕ
second = 1000000000

-- `(value, expires_at)`
pub record Entry : Type 0 where
  pub value : String
  pub expires_at : ℕ

-- `_data`, in the order of insertion
abbrev pub Cache : Type 0
Cache = List (String × Entry)

unfoldable pub lookup : String → Cache → Option Entry
lookup k [] = none
lookup k ((j, e) ∷ c) = if str_eq j k then some e else lookup k c

-- `_data[key] = entry`, which keeps the place of a key that is there
unfoldable pub store : String → Entry → Cache → Cache
store k x [] = (k, x) ∷ []
store k x ((j, e) ∷ c) = let rest = store k x c in if str_eq j k then (j, x) ∷ c else (j, e) ∷ rest

-- `del _data[key]`
unfoldable pub drop_key : String → Cache → Cache
drop_key k [] = []
drop_key k ((j, e) ∷ c) = let rest = drop_key k c in if str_eq j k then rest else (j, e) ∷ rest

unfoldable pub get : ℕ → String → Cache → Cache × Option String
get now key c = elim (lookup key c) [
  | none ↦ (c, none)
  | some e ↦ if leb e.expires_at now then (drop_key key c, none) else (c, some e.value)
]

unfoldable pub setex : ℕ → String → ℕ → String → Cache → Cache
setex now key ttl value c = store key (record { value = value; expires_at = now + ttl * second }) c

unfoldable pub delete : String → Cache → Cache × Bool
delete key c = (drop_key key c, is_some (lookup key c))

-- `ttl`: -2 where there is no whole second left
unfoldable pub remaining_ttl : ℕ → String → Cache → Cache × ℤ
remaining_ttl now key c = elim (lookup key c) [
  | none ↦ (c, negsuc 1)
  | some e ↦
      let remaining = (e.expires_at - now) / second in
      if remaining == 0 then (drop_key key c, negsuc 1) else (c, pos remaining)
]

unfoldable pub drop_keys : List String → Cache → Cache
drop_keys [] c = c
drop_keys (k ∷ ks) c = drop_keys ks (drop_key k c)

unfoldable pub expired_keys : ℕ → Cache → List String
expired_keys now [] = []
expired_keys now ((k, e) ∷ c) =
    let rest = expired_keys now c in if leb e.expires_at now then k ∷ rest else rest

unfoldable pub matching_keys : (String → Bool) → ℕ → Cache → List String
matching_keys matches now [] = []
matching_keys matches now ((k, e) ∷ c) =
    let rest = matching_keys matches now c in
    if leb e.expires_at now then rest else if matches k then k ∷ rest else rest

-- `scan_iter`, iterated to its end without another call in between
unfoldable pub scan_iter : (String → Bool) → ℕ → Cache → Cache × List String
scan_iter matches now c = (drop_keys (expired_keys now c) c, matching_keys matches now c)

unfoldable pub unlink : List String → Cache → Cache × ℕ
unlink [] c = (c, 0)
unlink (k ∷ ks) c =
    let (c1, count) = unlink ks (drop_key k c) in
    (c1, if is_some (lookup k c) then suc count else count)
