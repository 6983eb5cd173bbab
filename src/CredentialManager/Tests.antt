-- ===== src/CredentialManager/Tests.antt =====
-- A cache with an API key, and a store with one credential.
use luthien_proxy.Base.{
  ℕ, ◌+◌, ◌*◌, ◌≤◌, ◌<◌, ◌≡◌, refl, Bool, true, false, none, some, str_eq, if◌then◌else◌, List, [],
  ◌∷◌, arith, ◌⊎◌,
}
use luthien_proxy.CredentialCache.{Entry, lookup, store, second}
use luthien_proxy.CredentialManager.{
  loaded, ManagerLib, Readings, AuthConfig, HttpReply, status, request_error, cache_key,
  call_count_tokens, validate_credential,
}
use luthien_proxy.CredentialManager.Cached.{validate_credential-expiry}
use luthien_proxy.CredentialManager.Again.{Check, checked, after_checks, validate_credential-again}
use luthien_proxy.CredentialManager.ServerKeys.{
  Credential, api_key, found, missing, store_failed, server_key_ttl, resolved, get_server_key,
  forget_key,
}
use luthien_proxy.CredentialManager.Stale.{
  KeyStep, looks_up, is_answered, change_key, after_steps, GivenSince, get_server_key-GivenSince,
}

-- `json`, as far as it tells if a result is valid
abbrev one_flag : ManagerLib
one_flag = record {
  hash_credential = λ s. s;
  loads = λ s. loaded (record { valid = str_eq s "t"; validated_at = 7; last_used_at = none });
  dumps = λ d. if d.valid then "t" else "f";
}

flag-reads_back : (v : Bool) → str_eq (if v then "t" else "f") "t" ≡ v
flag-reads_back true = refl
flag-reads_back false = refl

abbrev config_ex : AuthConfig
config_ex = record { valid_cache_ttl_seconds = 3600; invalid_cache_ttl_seconds = 300 }

-- The readings of a check that takes some ticks
abbrev readings_from : ℕ → Readings
readings_from t = record { at_get = t; at_touch = t + 1; at_ttl = t + 2; at_setex = t + 3 }

abbrev check_at : ℕ → HttpReply → Check
check_at t reply = record {
  clock = readings_from t;
  now = t;
  is_bearer = false;
  answer = record { reply = reply; meanwhile = λ c. c };
}

validate_credential-again_example :
    (checked one_flag config_ex "key" (check_at (200 * second) request_error) (
      after_checks one_flag config_ex "key"
        (check_at (100 * second) request_error ∷ [])
        (checked one_flag config_ex "key" (check_at 0 (status 200)) []).0)).1
    ≡ some true
unfolding lookup call_count_tokens
validate_credential-again_example =
    validate_credential-again one_flag config_ex "key" (check_at 0 (status 200))
      (check_at (200 * second) request_error) (check_at (100 * second) request_error ∷ []) true []
      (λ d. (_, refl, flag-reads_back d.valid)) refl refl
      ((omega arith, omega arith, omega arith, omega arith), refl) (omega arith)

abbrev entry_ex : Entry
entry_ex = record { value = "t"; expires_at = 10 * second }

-- With the clock one tick later at `setex` than at `ttl`
abbrev touched_ex : Entry
touched_ex = record { value = "t"; expires_at = 10 * second + 1 }

abbrev on_the_second : Readings
on_the_second = record {
  at_get = 2 * second;
  at_touch = 2 * second;
  at_ttl = 2 * second;
  at_setex = 2 * second + 1;
}

validate_credential-expiry_example :
    touched_ex.expires_at + on_the_second.at_ttl ≤ entry_ex.expires_at + on_the_second.at_setex
unfolding lookup store validate_credential
validate_credential-expiry_example =
    validate_credential-expiry one_flag config_ex on_the_second 9 false "key"
      (record { reply = request_error; meanwhile = λ c. c }) ((cache_key "key", entry_ex) ∷ [])
      entry_ex touched_ex _ refl (omega arith) refl refl

abbrev judge_key : Credential
judge_key = record {
  value = "sk";
  credential_type = api_key;
  platform = "anthropic";
  platform_url = none;
  expiry = none;
}

abbrev looked_up : List KeyStep
looked_up = is_answered 5 "judge" (found judge_key) ∷ change_key "judge" ∷ looks_up 4 "judge" ∷ []

get_server_key-GivenSince_example :
    (store_failed ≡ found judge_key)
    ⊎ ((at : ℕ) × (9 < at + server_key_ttl) × GivenSince "judge" at judge_key looked_up)
unfolding after_steps get_server_key
get_server_key-GivenSince_example =
    get_server_key-GivenSince looked_up 9 9 "judge" store_failed (λ keys. keys) judge_key refl

-- A deletion while a look-up awaits the store: its answer from before is cached, and the next look-up
-- gets the deleted credential without asking the store.
deleted_meanwhile :
    (get_server_key true 9 9 "judge" missing
      (λ keys. keys)
      (get_server_key true 4 5 "judge" (found judge_key) (forget_key "judge") []).0).1
    ≡ resolved judge_key
unfolding get_server_key forget_key
deleted_meanwhile = refl
