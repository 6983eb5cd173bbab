-- ===== src/CredentialCache/Tests.antt =====
-- A history with a write that lasts and one that does not.
use luthien_proxy.Base.{ℕ, ◌*◌, ◌≡◌, refl, some, none, negsuc, List, [], ◌∷◌, arith}
use luthien_proxy.CredentialCache.{Cache, lookup, drop_key, second, get, remaining_ttl}
use luthien_proxy.CredentialCache.Writes.{
  Call, get_key, set_key, delete_key, steps, last_write, fresh_value, get-steps,
}

abbrev calls : List (ℕ × Call)
calls =
    (0, set_key "a" 60 "valid")
    ∷ (second, set_key "b" 1 "invalid")
    ∷ (3 * second, get_key "b")
    ∷ (3 * second, delete_key "c")
    ∷ []

calls-last_write : fresh_value (4 * second) (last_write "a" calls none) ≡ some "valid"
unfolding last_write
calls-last_write = refl

get-steps_example :
    (get (4 * second) "a" (steps calls [])).1 ≡ fresh_value (4 * second) (last_write "a" calls none)
get-steps_example =
    get-steps (4 * second) "a" calls (omega arith, (omega arith, (omega arith, (omega arith, tt))))

-- an entry with half a second left
abbrev short : Cache
short = ("a", record { value = "valid"; expires_at = 500000000 }) ∷ []

short_read : (get 0 "a" short).1 ≡ some "valid"
unfolding get lookup
short_read = refl

-- Asking for its TTL drops it.
short_ttl : remaining_ttl 0 "a" short ≡ ([], negsuc 1)
unfolding remaining_ttl lookup drop_key
short_ttl = refl
