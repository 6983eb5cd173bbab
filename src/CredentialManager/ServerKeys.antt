-- ===== src/CredentialManager/ServerKeys.antt =====
-- The server credentials of src/luthien_proxy/credential_manager.py: their cache in memory, and which credential a
-- policy gets. What the credential store answers is an input of each call that reaches it.
use luthien_proxy.Base.{
  ℕ, ◌+◌, ◌*◌, String, str_eq, Bool, Option, none, some, List, [], ◌∷◌, ltb, if◌then◌else◌,
}
use luthien_proxy.CredentialCache.{second}

pub data CredentialType : Type 0 where
  api_key auth_token : CredentialType

pub record Credential : Type 0 where
  pub value : String
  pub credential_type : CredentialType
  pub platform : String
  pub platform_url : Option String
  pub expiry : Option ℕ

-- `_server_key_cache`
abbrev pub KeyCache : Type 0
KeyCache = List (String × ℕ × Credential)

unfoldable pub lookup_key : String → KeyCache → Option (ℕ × Credential)
lookup_key name [] = none
lookup_key name ((n, at, c) ∷ keys) = if str_eq n name then some (at, c) else lookup_key name keys

-- `pop(name, None)`
unfoldable pub pop_key : String → KeyCache → KeyCache
pop_key name [] = []
pop_key name ((n, at, c) ∷ keys) =
    let rest = pop_key name keys in if str_eq n name then rest else (n, at, c) ∷ rest

-- `_server_key_cache[name] = ...`
abbrev pub set_key : String → ℕ → Credential → KeyCache → KeyCache
set_key name at c keys = (name, at, c) ∷ keys

-- `await self._store.get(name)`: a credential, None, or an exception
pub data StoreReply : Type 0 where
  found : Credential → StoreReply
  missing store_failed : StoreReply

-- A credential, a ServerCredentialNotFoundError, another CredentialError, or the store's exception
pub data Resolved : Type 0 where
  resolved : Credential → Resolved
  not_found credential_error raised : Resolved

-- `_server_key_ttl`
abbrev pub server_key_ttl : ℕ
server_key_ttl = 60 * second

-- What the look at the cache comes to: the call ends, or it awaits the store.
pub data KeyLook : Type 0 where
  ended : Resolved → KeyLook
  asks_store : KeyLook

-- `_get_server_key` from the entry of the cache up to `await self._store.get(name)`
unfoldable pub key_found : ℕ → String → KeyCache → Option (ℕ × Credential) → KeyCache × KeyLook
unfolding pop_key
key_found now name keys none = (keys, asks_store)
key_found now name keys (some (cached_at, c)) =
    if ltb now (cached_at + server_key_ttl)
    then (keys, ended (resolved c))
    else (pop_key name keys, asks_store)

-- `_get_server_key` up to `await self._store.get(name)`; the flag tells if there is a store
unfoldable pub look_up_key : Bool → ℕ → String → KeyCache → KeyCache × KeyLook
unfolding key_found lookup_key
look_up_key has_store now name keys =
    if has_store
    then key_found now name keys (lookup_key name keys)
    else (keys, ended credential_error)

-- `_get_server_key` from the store's answer on, at the moment of the answer
unfoldable pub store_answered : ℕ → String → StoreReply → KeyCache → KeyCache × Resolved
store_answered now name (found c) keys = (set_key name now c keys, resolved c)
store_answered now name missing keys = (keys, not_found)
store_answered now name store_failed keys = (keys, raised)

-- What is left of the call behind its look at the cache
unfoldable pub after_look :
    ℕ → String → StoreReply → (KeyCache → KeyCache) → KeyCache × KeyLook → KeyCache × Resolved
unfolding store_answered
after_look later name reply meanwhile (keys, ended r) = (keys, r)
after_look later name reply meanwhile (keys, asks_store) =
    store_answered later name reply (meanwhile keys)

-- `_get_server_key`, which looks at the cache at the moment `now` and gets the store's answer, if it asks
-- it, at the moment `later`. `meanwhile` is what other calls do to the cache while it awaits the store.
unfoldable pub get_server_key :
    Bool → ℕ → ℕ → String → StoreReply → (KeyCache → KeyCache) → KeyCache → KeyCache × Resolved
unfolding look_up_key after_look
get_server_key has_store now later name reply meanwhile keys =
    after_look later name reply meanwhile (look_up_key has_store now name keys)

-- What `put_server_credential` and `delete_server_credential` do to the cache, once the store has done
-- its part
unfoldable pub forget_key : String → KeyCache → KeyCache
unfolding pop_key
forget_key name keys = pop_key name keys

pub data OnFallback : Type 0 where
  fallback warn fail : OnFallback

-- `AuthProvider`
pub data Provider : Type 0 where
  user_credentials : Provider
  server_key : String → Provider
  user_then_server : String → OnFallback → Provider

-- `_get_user_credential`
abbrev pub get_user_credential : Option Credential → Resolved
get_user_credential none = credential_error
get_user_credential (some c) = resolved c

-- `resolve`, for a request with or without a credential of the user
unfoldable pub resolve :
    Bool
    → ℕ
    → ℕ
    → StoreReply
    → (KeyCache → KeyCache)
    → Provider
    → Option Credential
    → KeyCache
    → KeyCache × Resolved
unfolding get_server_key
resolve has_store now later reply meanwhile user_credentials user keys =
    (keys, get_user_credential user)
resolve has_store now later reply meanwhile (server_key name) user keys =
    get_server_key has_store now later name reply meanwhile keys
resolve has_store now later reply meanwhile (user_then_server name mode) (some c) keys =
    (keys, resolved c)
resolve has_store now later reply meanwhile (user_then_server name fail) none keys =
    (keys, credential_error)
resolve has_store now later reply meanwhile (user_then_server name _) none keys =
    get_server_key has_store now later name reply meanwhile keys
