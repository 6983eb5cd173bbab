-- ===== src/CredentialManager.antt =====
-- src/luthien_proxy/credential_manager.py: which credentials are valid, and which one a policy uses. The cache is
-- that of CredentialCache; `json`, the hash and the replies of Anthropic and of the credential store are
-- inputs. `monotonic` is a reading of the clock of the cache, `now` of that of the manager, in the ticks of the
-- cache. Each operation on the cache reads the clock anew.
pub mod Cached
pub mod Again
pub mod ServerKeys
pub mod Stale
mod Tests
use luthien_proxy.Base.{
  ℕ, ◌+◌, ◌*◌, ℤ, pos, negsuc, String, str_append, str_eq, Bool, true, false, Option, none, some,
  List, [], ◌∷◌, is_nil, ltb, ◌==◌, if◌then◌else◌,
}
use luthien_proxy.CredentialCache.{
  Cache, get, setex, delete, remaining_ttl, second, scan_iter, unlink,
}

-- The JSON object of a cached result; `last_used_at` may be absent
pub record CachedData : Type 0 where
  pub valid : Bool
  pub validated_at : ℕ
  pub last_used_at : Option ℕ

-- What `json.loads` makes of a cached text: a JSONDecodeError, an object, or one without the fields
pub data Loaded : Type 0 where
  corrupted malformed : Loaded
  loaded : CachedData → Loaded

pub record ManagerLib : Type 0 where
  pub hash_credential : String → String
  pub loads : String → Loaded
  pub dumps : CachedData → String

-- What the clock of the cache shows a check: to the `get` of `_get_cached`, to `get` and `ttl` of
-- `_touch_last_used`, and to the `setex` of the latter or of `_cache_result`
pub record Readings : Type 0 where
  pub at_get : ℕ
  pub at_touch : ℕ
  pub at_ttl : ℕ
  pub at_setex : ℕ

-- What `_config` holds of the TTLs, in seconds
pub record AuthConfig : Type 0 where
  pub valid_cache_ttl_seconds : ℕ
  pub invalid_cache_ttl_seconds : ℕ

abbrev pub cache_key : String → String
cache_key key_hash = str_append "luthien:auth:cred:" key_hash

-- The answer of the count_tokens endpoint, or an `httpx.RequestError`
pub data HttpReply : Type 0 where
  status : ℕ → HttpReply
  request_error : HttpReply

-- `_call_count_tokens`; `none` is inconclusive
unfoldable pub call_count_tokens : Bool → HttpReply → Option Bool
call_count_tokens is_bearer request_error = none
call_count_tokens is_bearer (status code) =
    if code == 200
    then some true
    else if code == 401
    then (if is_bearer then none else some false)
    else none

-- `_get_cached`
unfoldable pub get_cached : ManagerLib → ℕ → String → Cache → Cache × Option Loaded
unfolding get
get_cached lib monotonic key_hash cache =
    let (cache1, raw) = get monotonic (cache_key key_hash) cache in
    (cache1, elim raw [ none ↦ none | some text ↦ some (lib.loads text) ])

-- The TTL of a result
abbrev pub ttl_of : AuthConfig → Bool → ℕ
ttl_of config true = config.valid_cache_ttl_seconds
ttl_of config false = config.invalid_cache_ttl_seconds

-- What is cached of a new result
abbrev pub new_data : Bool → ℕ → CachedData
new_data valid now = record { valid = valid; validated_at = now; last_used_at = some now }

-- `_cache_result`
unfoldable pub cache_result : ManagerLib → AuthConfig → ℕ → ℕ → String → Bool → Cache → Cache
unfolding setex
cache_result lib config monotonic now key_hash valid cache =
    setex monotonic (cache_key key_hash) (ttl_of config valid) (lib.dumps (new_data valid now))
      cache

-- `if ttl > 0: setex(...)`
unfoldable pub set_if_left : ℕ → String → String → Cache × ℤ → Cache
unfolding setex
set_if_left monotonic key text (cache, negsuc n) = cache
set_if_left monotonic key text (cache, pos ttl) =
    if ttl == 0 then cache else setex monotonic key ttl text cache

-- `_touch_last_used` behind a parsed entry
unfoldable pub touch_data : ManagerLib → Readings → ℕ → String → CachedData → Cache → Cache
unfolding set_if_left remaining_ttl
touch_data lib clock now key data_of cache =
    set_if_left clock.at_setex key (lib.dumps (record data_of { last_used_at = some now }))
      (remaining_ttl clock.at_ttl key cache)

-- `_touch_last_used` behind its `get`; it is only called where an object with the fields was found
unfoldable pub touch_found : ManagerLib → Readings → ℕ → String → Cache × Option Loaded → Cache
unfolding touch_data
touch_found lib clock now key (cache, some (loaded data_of)) =
    touch_data lib clock now key data_of cache
touch_found lib clock now key (cache, _) = cache

-- `_touch_last_used`, whose `get` and parsing are those of `_get_cached`
unfoldable pub touch_last_used : ManagerLib → Readings → ℕ → String → Cache → Cache
unfolding get_cached touch_found
touch_last_used lib clock now key_hash cache =
    touch_found lib clock now (cache_key key_hash) (get_cached lib clock.at_touch key_hash cache)

-- What a miss answers: an inconclusive check lets a bearer token through and blocks an API key
unfoldable pub on_miss :
    ManagerLib
    → AuthConfig
    → Readings
    → ℕ
    → Bool
    → String
    → Option Bool
    → Cache
    → Cache × Option Bool
unfolding cache_result
on_miss lib config clock now is_bearer key_hash none cache = (cache, some is_bearer)
on_miss lib config clock now is_bearer key_hash (some valid) cache =
    (cache_result lib config clock.at_setex now key_hash valid cache, some valid)

-- The answer of the endpoint, if it is asked, and what other calls do to the cache meanwhile
pub record Answered : Type 0 where
  pub reply : HttpReply
  pub meanwhile : Cache → Cache

-- `validate_credential` behind its look at the cache; the second part is `none` if the cached object
-- lacks a field, a KeyError
unfoldable pub validate_found :
    ManagerLib
    → AuthConfig
    → Readings
    → ℕ
    → Bool
    → String
    → Answered
    → Cache × Option Loaded
    → Cache × Option Bool
unfolding touch_last_used on_miss call_count_tokens
validate_found lib config clock now is_bearer key_hash answer (cache, some (loaded data_of)) =
    (touch_last_used lib clock now key_hash cache, some data_of.valid)
validate_found lib config clock now is_bearer key_hash answer (cache, some malformed) =
    (cache, none)
validate_found lib config clock now is_bearer key_hash answer (cache, _) =
    on_miss lib config clock now is_bearer key_hash (call_count_tokens is_bearer answer.reply)
      (answer.meanwhile cache)

-- `validate_credential` with a cache
unfoldable pub validate_credential :
    ManagerLib → AuthConfig → Readings → ℕ → Bool → String → Answered → Cache → Cache × Option Bool
unfolding get_cached validate_found
validate_credential lib config clock now is_bearer credential answer cache =
    let key_hash = lib.hash_credential credential in
    validate_found lib config clock now is_bearer key_hash answer
      (get_cached lib clock.at_get key_hash cache)

-- `on_backend_401`
unfoldable pub on_backend_401 : ManagerLib → String → Cache → Cache
unfolding delete
on_backend_401 lib credential cache = (delete (cache_key (lib.hash_credential credential)) cache).0

-- `invalidate_credential`
unfoldable pub invalidate_credential : String → Cache → Cache × Bool
unfolding delete
invalidate_credential key_hash cache = delete (cache_key key_hash) cache

-- `invalidate_all` with a cache; `matches` is `fnmatch` with the prefix of the keys
unfoldable pub invalidate_all : (String → Bool) → ℕ → Cache → Cache × ℕ
unfolding scan_iter unlink
invalidate_all matches monotonic cache =
    let (cache1, keys) = scan_iter matches monotonic cache in
    if is_nil keys then (cache1, 0) else unlink keys cache1
