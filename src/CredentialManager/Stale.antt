-- ===== src/CredentialManager/Stale.antt =====
-- How old a server credential may be that a policy gets.
use luthien_proxy.Base.{
  ℕ, ◌+◌, ◌<◌, ◌≡◌, ◌≢◌, ap, String, str_eq, str_eq_iff, true, false, Option, none, some, List, [],
  ◌∷◌, ltb, arith, Bool-cases, ltb→lt, ◌⊎◌, inl, inr, if◌then◌else◌,
}
use luthien_proxy.CredentialManager.ServerKeys.{
  Credential, KeyCache, lookup_key, pop_key, StoreReply, found, missing, store_failed, Resolved,
  resolved, server_key_ttl, look_up_key, store_answered, after_look, key_found, get_server_key,
  forget_key,
}

-- A step of a call: the look of `_get_server_key` at the cache, the store's answer to such a call, or what a
-- write or a deletion does to the cache. The steps of different calls may come in any order.
pub data KeyStep : Type 0 where
  looks_up : ℕ → String → KeyStep
  is_answered : ℕ → String → StoreReply → KeyStep
  change_key : String → KeyStep

abbrev pub after_step : KeyStep → KeyCache → KeyCache
after_step (looks_up now name) keys = (look_up_key true now name keys).0
after_step (is_answered now name reply) keys = (store_answered now name reply keys).0
after_step (change_key name) keys = forget_key name keys

-- The cache after a history of steps, the latest first
unfoldable pub after_steps : List KeyStep → KeyCache
unfolding look_up_key store_answered forget_key
after_steps [] = []
after_steps (step ∷ steps) = after_step step (after_steps steps)

-- The store's answer was the credential at the moment, and the cache was not told since then that the
-- name is written or deleted.
abbrev pub GivenSince : String → ℕ → Credential → List KeyStep → Type 0
GivenSince name at c [] = false ≡ true
GivenSince name at c (looks_up now n ∷ steps) = GivenSince name at c steps
GivenSince name at c (is_answered now n reply ∷ steps) =
    ((n ≡ name) × (now ≡ at) × (reply ≡ found c)) ⊎ GivenSince name at c steps
GivenSince name at c (change_key n ∷ steps) = (n ≢ name) × GivenSince name at c steps

lookup-pop_key :
    (k j : String) (keys : KeyCache)
    → lookup_key j (pop_key k keys) ≡ (if str_eq k j then none else lookup_key j keys)
unfolding lookup_key pop_key
lookup-pop_key k j [] = ground arith
lookup-pop_key k j ((n, at, c) ∷ keys) =
    ground (arith, str_eq_iff k j, str_eq_iff n k, str_eq_iff n j, lookup-pop_key k j keys)

lookup-pop_some :
    (k j : String) (keys : KeyCache) (p : ℕ × Credential)
    → lookup_key j (pop_key k keys) ≡ some p
    → (k ≢ j) × (lookup_key j keys ≡ some p)
lookup-pop_some k j keys p h = elim (Bool-cases (str_eq k j)) [
  | inl e ↦ absurd (ground (arith, e, h, lookup-pop_key k j keys))
  | inr e ↦ (
    λ same. ground (arith, e, (str_eq_iff k j).1 same),
    ground (arith, e, h, lookup-pop_key k j keys),
  )
]

given : (ℕ × Credential) → Option (ℕ × Credential) → ℕ × Credential
given p none = p
given p (some q) = q

some_pair-inj :
    (a b : ℕ) (c d : Credential)
    → ◌≡◌ {A = Option (ℕ × Credential)} (some (a, c)) (some (b, d))
    → (a ≡ b) × (c ≡ d)
unfolding given
some_pair-inj a b c d h = (ap (λ o. (given (a, c) o).0) h, ap (λ o. (given (a, c) o).1) h)

store_answered-lookup :
    (now : ℕ) (n name : String) (reply : StoreReply) (keys : KeyCache) (at : ℕ) (c : Credential)
    → lookup_key name (store_answered now n reply keys).0 ≡ some (at, c)
    → ((n ≡ name) × (now ≡ at) × (reply ≡ found c)) ⊎ (lookup_key name keys ≡ some (at, c))
unfolding store_answered lookup_key
store_answered-lookup now n name missing keys at c h = inr h
store_answered-lookup now n name store_failed keys at c h = inr h
store_answered-lookup now n name (found d) keys at c h = elim (Bool-cases (str_eq n name)) [
  | inl e ↦
      let same = some_pair-inj now at d c (rw e at h) in
      inl ((str_eq_iff n name).0 e, same.0, ap found same.1)
  | inr e ↦ inr (rw e at h)
]

key_found-lookup :
    (now : ℕ) (n name : String) (keys : KeyCache) (o : Option (ℕ × Credential)) (at : ℕ)
    (c : Credential)
    → lookup_key name (key_found now n keys o).0 ≡ some (at, c)
    → lookup_key name keys ≡ some (at, c)
unfolding key_found
key_found-lookup now n name keys none at c h = h
key_found-lookup now n name keys (some (cached_at, d)) at c h =
    elim (Bool-cases (ltb now (cached_at + server_key_ttl))) [
      | inl e ↦ rw e at h
      | inr e ↦ (lookup-pop_some n name keys (at, c) (rw e at h)).1
    ]

after_steps-GivenSince :
    (steps : List KeyStep) (name : String) (at : ℕ) (c : Credential)
    → lookup_key name (after_steps steps) ≡ some (at, c)
    → GivenSince name at c steps
unfolding after_steps look_up_key lookup_key
after_steps-GivenSince [] name at c h = ground (arith, h)
after_steps-GivenSince (looks_up now n ∷ steps) name at c h =
    let before = after_steps steps in
    after_steps-GivenSince steps name at c
      (key_found-lookup now n name before (lookup_key n before) at c h)
after_steps-GivenSince (is_answered now n reply ∷ steps) name at c h =
    elim (store_answered-lookup now n name reply (after_steps steps) at c h) [
      | inl new ↦ inl new
      | inr old ↦ inr (after_steps-GivenSince steps name at c old)
    ]
after_steps-GivenSince (change_key n ∷ steps) name at c h =
    let (other, old) = lookup-pop_some n name (after_steps steps) (at, c) h in
    (other, after_steps-GivenSince steps name at c old)

credential_of : Credential → Resolved → Credential
credential_of c (resolved d) = d
credential_of c _ = c

resolved-inj : (c d : Credential) → resolved c ≡ resolved d → c ≡ d
unfolding credential_of
resolved-inj c d h = ap (credential_of c) h

store_answered-resolved :
    (now : ℕ) (name : String) (reply : StoreReply) (keys : KeyCache) (c : Credential)
    → (store_answered now name reply keys).1 ≡ resolved c
    → reply ≡ found c
unfolding store_answered
store_answered-resolved now name missing keys c h = absurd (ground (arith, h))
store_answered-resolved now name store_failed keys c h = absurd (ground (arith, h))
store_answered-resolved now name (found d) keys c h = ap found (resolved-inj d c h)

key_found-resolved :
    (now later : ℕ) (name : String) (reply : StoreReply) (meanwhile : KeyCache → KeyCache)
    (keys : KeyCache) (o : Option (ℕ × Credential)) (c : Credential)
    → (after_look later name reply meanwhile (key_found now name keys o)).1 ≡ resolved c
    → (reply ≡ found c) ⊎ ((at : ℕ) × (o ≡ some (at, c)) × (now < at + server_key_ttl))
unfolding key_found after_look
key_found-resolved now later name reply meanwhile keys none c h =
    inl (store_answered-resolved later name reply (meanwhile keys) c h)
key_found-resolved now later name reply meanwhile keys (some (at, d)) c h =
    elim (Bool-cases (ltb now (at + server_key_ttl))) [
      | inl e ↦ inr (
        at,
        ap (λ x. some (at, x)) (resolved-inj d c (rw e at h)),
        ltb→lt now (at + server_key_ttl) e,
      )
      | inr e ↦
          inl
            (store_answered-resolved later name reply (meanwhile (pop_key name keys)) c (rw e at h))
    ]

-- After any steps of look-ups, writes and deletions, also those of calls that still await the store, a
-- credential that a look-up by name gives is what the store answers to it, or what the store has
-- answered for that name less than 60 seconds before, and no write or deletion of the name has come to
-- the cache since that answer.
pub get_server_key-GivenSince :
    (steps : List KeyStep) (now later : ℕ) (name : String) (reply : StoreReply)
    (meanwhile : KeyCache → KeyCache) (c : Credential)
    → (get_server_key true now later name reply meanwhile (after_steps steps)).1 ≡ resolved c
    → (reply ≡ found c) ⊎ ((at : ℕ) × (now < at + server_key_ttl) × GivenSince name at c steps)
unfolding get_server_key look_up_key
get_server_key-GivenSince steps now later name reply meanwhile c h =
    elim (key_found-resolved now later name reply meanwhile (after_steps steps)
      (lookup_key name (after_steps steps)) c h) [
        | inl new ↦ inl new
        | inr (at, cached, fresh) ↦ inr (at, fresh, after_steps-GivenSince steps name at c cached)
      ]
