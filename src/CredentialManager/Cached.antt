-- ===== src/CredentialManager/Cached.antt =====
-- How long a cached result stays.
use luthien_proxy.Base.{
  ℕ, ◌+◌, ◌-◌, ◌*◌, ◌/◌, ◌≤◌, ◌<◌, ◌≡◌, ◌≢◌, refl, sym, ap, ◌∙◌, pos, negsuc, String, str_eq,
  str_eq_iff, Bool, true, false, Option, none, some, leb, ◌==◌, arith, Bool-cases, inl, inr,
}
use luthien_proxy.CredentialCache.{
  Cache, Entry, get, setex, remaining_ttl, second, lookup, drop_key,
}
use luthien_proxy.CredentialCache.Writes.{lookup-store, lookup-drop_key}
use luthien_proxy.CredentialManager.{
  CachedData, loaded, ManagerLib, Readings, Answered, AuthConfig, cache_key, call_count_tokens,
  get_cached, set_if_left, touch_data, touch_found, touch_last_used, on_miss, validate_found,
  validate_credential,
}

get-missing : (t : ℕ) (k : String) (c : Cache) → lookup k c ≡ none → get t k c ≡ (c, none)
unfolding get
get-missing t k c h = rw (h, get) refl

get-present :
    (t : ℕ) (k : String) (c : Cache) (e : Entry)
    → lookup k c ≡ some e
    → t < e.expires_at
    → get t k c ≡ (c, some e.value)
unfolding get
get-present t k c e h l =
    let open_still : leb e.expires_at t ≡ false = ground (arith, l) in rw (h, open_still, get) refl

get-expired :
    (t : ℕ) (k : String) (c : Cache) (e : Entry)
    → lookup k c ≡ some e
    → leb e.expires_at t ≡ true
    → get t k c ≡ (drop_key k c, none)
unfolding get
get-expired t k c e h l = rw (h, l, get) refl

pub lookup-setex :
    (t : ℕ) (k : String) (ttl : ℕ) (v : String) (c : Cache)
    → lookup k (setex t k ttl v c) ≡ some (record { value = v; expires_at = t + ttl * second })
unfolding setex
lookup-setex t k ttl v c =
    let same : str_eq k k ≡ true = (str_eq_iff k k).1 refl in rw (lookup-store, same) refl

dropped : (k : String) (c : Cache) (e : Entry) → lookup k (drop_key k c) ≢ some e
dropped k c e f =
    let same : str_eq k k ≡ true = (str_eq_iff k k).1 refl in
    ground (arith, same, lookup-drop_key k k c, f)

no_ttl :
    (t : ℕ) (k : String) (c : Cache) (e : Entry)
    → lookup k c ≡ some e
    → ((e.expires_at - t) / second == 0) ≡ true
    → remaining_ttl t k c ≡ (drop_key k c, negsuc 1)
unfolding remaining_ttl
no_ttl t k c e h z = rw (h, z, remaining_ttl) refl

some_ttl :
    (t : ℕ) (k : String) (c : Cache) (e : Entry)
    → lookup k c ≡ some e
    → ((e.expires_at - t) / second == 0) ≡ false
    → remaining_ttl t k c ≡ (c, pos ((e.expires_at - t) / second))
unfolding remaining_ttl
some_ttl t k c e h z = rw (h, z, remaining_ttl) refl

set_left :
    (t : ℕ) (k text : String) (c : Cache) (left : ℕ)
    → (left == 0) ≡ false
    → lookup k (set_if_left t k text (c, pos left))
      ≡ some (record { value = text; expires_at = t + left * second })
unfolding set_if_left
set_left t k text c left z = rw (z, set_if_left) (lookup-setex t k left text c)

entry_of : Option Entry → Entry → Entry
entry_of none e = e
entry_of (some x) e = x

some-inj : (x y : Entry) → some x ≡ some y → x ≡ y
unfolding entry_of
some-inj x y h = ap (λ o. entry_of o x) h

pub ttl-set :
    (t at : ℕ) (k : String) (c : Cache) (e : Entry)
    → lookup k c ≡ some e
    → ((e.expires_at - t) / second == 0) ≡ false
    → (text : String)
    → lookup k (set_if_left at k text (remaining_ttl t k c))
      ≡ some (record { value = text; expires_at = at + ((e.expires_at - t) / second) * second })
ttl-set t at k c e h z text =
    ap (λ x. lookup k (set_if_left at k text x)) (some_ttl t k c e h z)
    ∙ set_left at k text c ((e.expires_at - t) / second) z

ttl-none :
    (t at : ℕ) (k : String) (c : Cache) (e : Entry)
    → lookup k c ≡ some e
    → ((e.expires_at - t) / second == 0) ≡ true
    → (text : String) (e1 : Entry)
    → lookup k (set_if_left at k text (remaining_ttl t k c)) ≡ some e1
    → lookup k (drop_key k c) ≡ some e1
unfolding set_if_left
ttl-none t at k c e h z text e1 f =
    sym (ap (λ x. lookup k (set_if_left at k text x)) (no_ttl t k c e h z)) ∙ f

ttl-some :
    (t at : ℕ) (k : String) (c : Cache) (e : Entry)
    → lookup k c ≡ some e
    → ((e.expires_at - t) / second == 0) ≡ false
    → (text : String) (e1 : Entry)
    → lookup k (set_if_left at k text (remaining_ttl t k c)) ≡ some e1
    → record { value = text; expires_at = at + ((e.expires_at - t) / second) * second } ≡ e1
ttl-some t at k c e h z text e1 f = some-inj _ e1 (sym (ttl-set t at k c e h z text) ∙ f)

module _ (lib : ManagerLib) (config : AuthConfig) where
  get_cached-missing :
      (t : ℕ) (h : String) (c : Cache)
      → lookup (cache_key h) c ≡ none
      → get_cached lib t h c ≡ (c, none)
  unfolding get_cached
  get_cached-missing t h c m = rw (get-missing t (cache_key h) c m, get_cached) refl

  get_cached-present :
      (t : ℕ) (h : String) (c : Cache) (e : Entry)
      → lookup (cache_key h) c ≡ some e
      → t < e.expires_at
      → get_cached lib t h c ≡ (c, some (lib.loads e.value))
  unfolding get_cached
  get_cached-present t h c e m l = rw (get-present t (cache_key h) c e m l, get_cached) refl

  get_cached-expired :
      (t : ℕ) (h : String) (c : Cache) (e : Entry)
      → lookup (cache_key h) c ≡ some e
      → leb e.expires_at t ≡ true
      → get_cached lib t h c ≡ (drop_key (cache_key h) c, none)
  unfolding get_cached
  get_cached-expired t h c e m l = rw (get-expired t (cache_key h) c e m l, get_cached) refl

  pub validate-missing :
      (r : Readings) (now : ℕ) (b : Bool) (credential : String) (answer : Answered) (c : Cache)
      → lookup (cache_key (lib.hash_credential credential)) c ≡ none
      → validate_credential lib config r now b credential answer c
        ≡ on_miss lib config r now b
            (lib.hash_credential credential)
            (call_count_tokens b answer.reply)
            (answer.meanwhile c)
  unfolding validate_credential
  validate-missing r now b credential answer c h =
      let key_hash = lib.hash_credential credential in
      ap (validate_found lib config r now b key_hash answer)
        (get_cached-missing r.at_get key_hash c h)

  pub validate-present :
      (r : Readings) (now : ℕ) (b : Bool) (credential : String) (answer : Answered) (c : Cache)
      (e : Entry) (d : CachedData)
      → lookup (cache_key (lib.hash_credential credential)) c ≡ some e
      → r.at_get < e.expires_at
      → lib.loads e.value ≡ loaded d
      → validate_credential lib config r now b credential answer c
        ≡ (touch_last_used lib r now (lib.hash_credential credential) c, some d.valid)
  unfolding validate_credential
  validate-present r now b credential answer c e d h l p =
      let key_hash = lib.hash_credential credential in
      ap (validate_found lib config r now b key_hash answer)
        (get_cached-present r.at_get key_hash c e h l ∙ ap (λ x. (c, some x)) p)

  pub touch-present :
      (r : Readings) (now : ℕ) (key_hash : String) (c : Cache) (e : Entry) (d : CachedData)
      → lookup (cache_key key_hash) c ≡ some e
      → r.at_touch < e.expires_at
      → lib.loads e.value ≡ loaded d
      → touch_last_used lib r now key_hash c ≡ touch_data lib r now (cache_key key_hash) d c
  unfolding touch_last_used touch_found
  touch-present r now key_hash c e d h l p =
      ap (touch_found lib r now (cache_key key_hash))
        (get_cached-present r.at_touch key_hash c e h l ∙ ap (λ x. (c, some x)) p)

  touch-expired :
      (r : Readings) (now : ℕ) (key_hash : String) (c : Cache) (e : Entry)
      → lookup (cache_key key_hash) c ≡ some e
      → leb e.expires_at r.at_touch ≡ true
      → touch_last_used lib r now key_hash c ≡ drop_key (cache_key key_hash) c
  unfolding touch_last_used touch_found
  touch-expired r now key_hash c e h l =
      ap (touch_found lib r now (cache_key key_hash))
        (get_cached-expired r.at_touch key_hash c e h l)

  touch_data-expiry :
      (r : Readings) (now : ℕ) (k : String) (d : CachedData) (c : Cache) (e e1 : Entry)
      → lookup k c ≡ some e
      → lookup k (touch_data lib r now k d c) ≡ some e1
      → e1.expires_at + r.at_ttl ≤ e.expires_at + r.at_setex
  unfolding touch_data
  touch_data-expiry r now k d c e e1 h f =
      let text = lib.dumps (record d { last_used_at = some now }) in
      elim (Bool-cases ((e.expires_at - r.at_ttl) / second == 0)) [
        | inl z ↦ absurd (dropped k c e1 (ttl-none r.at_ttl r.at_setex k c e h z text e1 f))
        | inr z ↦
            let kept = ttl-some r.at_ttl r.at_setex k c e h z text e1 f in
            let left : (((e.expires_at - r.at_ttl) / second) ≡ 0) → ⊥ = ground (arith, z) in
            omega (arith, ap (λ x. x.expires_at) kept, left)
      ]

  -- If a credential is found in the cache, its entry, if it is still there afterwards, expires later than
  -- before by no more than the time from the reading of the clock by `ttl` to that by `setex`.
  pub validate_credential-expiry :
      (r : Readings) (now : ℕ) (b : Bool) (credential : String) (answer : Answered) (c : Cache)
      (e e1 : Entry) (d : CachedData)
      → lookup (cache_key (lib.hash_credential credential)) c ≡ some e
      → r.at_get < e.expires_at
      → lib.loads e.value ≡ loaded d
      → lookup
          (cache_key (lib.hash_credential credential))
          (validate_credential lib config r now b credential answer c).0
        ≡ some e1
      → e1.expires_at + r.at_ttl ≤ e.expires_at + r.at_setex
  validate_credential-expiry r now b credential answer c e e1 d h l p f =
      let key_hash = lib.hash_credential credential in
      let k = cache_key key_hash in
      let hit = ap (λ x. x.0) (validate-present r now b credential answer c e d h l p) in
      elim (Bool-cases (leb e.expires_at r.at_touch)) [
        | inl late ↦ absurd (
            dropped k c e1
              (sym (ap (lookup k) (hit ∙ touch-expired r now key_hash c e h late)) ∙ f))
        | inr still ↦
            let touched = touch-present r now key_hash c e d h (ground (arith, still)) p in
            touch_data-expiry r now k d c e e1 h (sym (ap (lookup k) (hit ∙ touched)) ∙ f)
      ]
