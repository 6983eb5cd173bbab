-- ===== src/CredentialManager/Again.antt =====
-- What a cached result answers to further checks of the credential.
use luthien_proxy.Base.{
  ℕ, ◌+◌, ◌-◌, ◌*◌, ◌/◌, ◌≤◌, ◌<◌, ◌≡◌, sym, ap, ◌∙◌, String, Bool, true, false, Option, none, some,
  List, [], ◌∷◌, ◌==◌, arith, length,
}
use luthien_proxy.CredentialCache.{Cache, Entry, second, lookup}
use luthien_proxy.CredentialManager.{
  CachedData, loaded, ManagerLib, Readings, Answered, AuthConfig, cache_key, call_count_tokens,
  ttl_of, new_data, cache_result, touch_data, on_miss, validate_credential,
}
use luthien_proxy.CredentialManager.Cached.{
  lookup-setex, validate-missing, validate-present, touch-present, ttl-set,
}

-- A check of the credential: the readings of both clocks, how the client has sent it, and the endpoint
pub record Check : Type 0 where
  pub clock : Readings
  pub now : ℕ
  pub is_bearer : Bool
  pub answer : Answered

-- The check reads the clock at the moment `later` at the latest, and `setex` not before `ttl`.
abbrev pub InTime : ℕ → Check → Type 0
InTime later x =
    (x.clock.at_get ≤ later)
    × (x.clock.at_touch ≤ later)
    × (x.clock.at_ttl ≤ later)
    × (x.clock.at_ttl ≤ x.clock.at_setex)

abbrev pub AllInTime : ℕ → List Check → Type 0
AllInTime later [] = true ≡ true
AllInTime later (x ∷ checks) = InTime later x × AllInTime later checks

-- `json` reads back if a result is valid.
abbrev pub ReadsBack : ManagerLib → CachedData → Type 0
ReadsBack lib d = (d1 : CachedData) × (lib.loads (lib.dumps d) ≡ loaded d1) × (d1.valid ≡ d.valid)

module _ (lib : ManagerLib) (config : AuthConfig) where
  abbrev pub checked : String → Check → Cache → Cache × Option Bool
  checked credential x cache =
      validate_credential lib config x.clock x.now x.is_bearer credential x.answer cache

  -- The cache after checks of the credential, one after the other
  unfoldable pub after_checks : String → List Check → Cache → Cache
  unfolding validate_credential
  after_checks credential [] cache = cache
  after_checks credential (x ∷ checks) cache =
      after_checks credential checks (checked credential x cache).0

  -- The result is cached, and expires after the moment.
  record Held (k : String) (valid : Bool) (until : ℕ) (c : Cache) : Type 0 where
    entry : Entry
    data_of : CachedData
    is_there : lookup k c ≡ some entry
    parsed : lib.loads entry.value ≡ loaded data_of
    same : data_of.valid ≡ valid
    lasts : until < entry.expires_at

  earlier :
      (k : String) (valid : Bool) (until before : ℕ) (c : Cache)
      → before ≤ until
      → Held k valid until c
      → Held k valid before c
  earlier k valid until before c b h = record {
    entry = h.entry;
    data_of = h.data_of;
    is_there = h.is_there;
    parsed = h.parsed;
    same = h.same;
    lasts = omega (arith, h.lasts, b);
  }

  touch-Held :
      (r : Readings) (now until : ℕ) (k : String) (valid : Bool) (c : Cache)
      (h : Held k valid (until + second) c)
      → ((d : CachedData) → ReadsBack lib d)
      → r.at_ttl ≤ until
      → r.at_ttl ≤ r.at_setex
      → Held k valid until (touch_data lib r now k h.data_of c)
  unfolding touch_data
  touch-Held r now until k valid c h reads a b =
      let left = (h.entry.expires_at - r.at_ttl) / second in
      let text = lib.dumps (record (h.data_of) { last_used_at = some now }) in
      let (d, parsed, same) = reads (record (h.data_of) { last_used_at = some now }) in
      let some_left : (left == 0) ≡ false = ground (arith, h.lasts, a) in
      record {
        entry = record { value = text; expires_at = r.at_setex + left * second };
        data_of = d;
        is_there = ttl-set r.at_ttl r.at_setex k c h.entry h.is_there some_left text;
        parsed = parsed;
        same = same ∙ h.same;
        lasts = omega (arith, h.lasts, a, b);
      }

  checked-Held :
      (credential : String) (x : Check) (later until : ℕ) (valid : Bool) (c : Cache)
      → ((d : CachedData) → ReadsBack lib d)
      → InTime later x
      → later ≤ until
      → Held (cache_key (lib.hash_credential credential)) valid (until + second) c
      → Held (cache_key (lib.hash_credential credential)) valid until (checked credential x c).0
  checked-Held credential x later until valid c reads (g, t, l, s) u h =
      let hash = lib.hash_credential credential in
      let hit =
        validate-present lib config x.clock x.now x.is_bearer credential x.answer c h.entry
          h.data_of h.is_there (omega (arith, g, u, h.lasts)) h.parsed in
      let touched =
        touch-present lib config x.clock x.now hash c h.entry h.data_of h.is_there
          (omega (arith, t, u, h.lasts)) h.parsed in
      rw (sym (ap (λ p. p.0) hit ∙ touched)) at
        (touch-Held x.clock x.now until (cache_key hash) valid c h reads (omega (arith, l, u)) s)

  after_checks-Held :
      (credential : String) (checks : List Check) (later : ℕ) (valid : Bool) (c : Cache)
      → ((d : CachedData) → ReadsBack lib d)
      → AllInTime later checks
      → Held (cache_key (lib.hash_credential credential)) valid (later + length checks * second) c
      → Held
          (cache_key (lib.hash_credential credential))
          valid
          later
          (after_checks credential checks c)
  unfolding after_checks
  after_checks-Held credential [] later valid c reads i h =
      earlier _ valid _ later c (omega arith) h
  after_checks-Held credential (x ∷ checks) later valid c reads (i, rest) h =
      after_checks-Held credential checks later valid (checked credential x c).0 reads rest (
        checked-Held credential x later (later + length checks * second) valid c reads i
          (omega arith) (earlier _ valid _ _ c (omega arith) h))

  -- If `json` reads back whether a result is valid: a credential that is not in the cache and gets a
  -- conclusive answer of the endpoint gets the same answer at each further check, whatever the endpoint
  -- would say and if it is reached or not, as long as the TTL of that answer, less one second for each
  -- check in between, is not over. The checks in between come one after the
  -- other, they read the clock no later than the last `get` and at `setex` not before `ttl`, and no
  -- other call changes the cache between them.
  pub validate_credential-again :
      (credential : String) (first last : Check) (checks : List Check) (valid : Bool) (c : Cache)
      → ((d : CachedData) → ReadsBack lib d)
      → lookup (cache_key (lib.hash_credential credential)) c ≡ none
      → call_count_tokens first.is_bearer first.answer.reply ≡ some valid
      → AllInTime last.clock.at_get checks
      → last.clock.at_get + length checks * second
        < first.clock.at_setex + ttl_of config valid * second
      → (checked credential last (after_checks credential checks (checked credential first c).0)).1
        ≡ some valid
  unfolding on_miss cache_result
  validate_credential-again credential first last checks valid c reads missing call times l =
      let k = cache_key (lib.hash_credential credential) in
      let (d, parsed, same) = reads (new_data valid first.now) in
      let text = lib.dumps (new_data valid first.now) in
      let until = last.clock.at_get + length checks * second in
      let new : Held k valid until (checked credential first c).0 =
        rw
          (
            validate-missing lib config first.clock first.now first.is_bearer credential
                first.answer c missing,
            call,
          )
          (record {
            entry = record {
              value = text;
              expires_at = first.clock.at_setex + ttl_of config valid * second;
            };
            data_of = d;
            is_there =
                lookup-setex first.clock.at_setex k (ttl_of config valid) text
                  (first.answer.meanwhile c);
            parsed = parsed;
            same = same;
            lasts = l;
          }) in
      let held =
        after_checks-Held credential checks last.clock.at_get valid (checked credential first c).0
          reads times new in
      ap (λ x. x.1)
        (validate-present lib config last.clock last.now last.is_bearer credential last.answer
          (after_checks credential checks (checked credential first c).0) held.entry held.data_of
          held.is_there held.lasts held.parsed)
      ∙ ap some held.same
