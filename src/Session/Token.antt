-- ===== src/Session/Token.antt =====
-- The tokens: which ones are accepted.
use luthien_proxy.Base.{
  ℕ, ◌+◌, ◌*◌, ◌/◌, ◌≡◌, refl, sym, ap, ◌∙◌, true, false, Option, none, some, List, [], ◌∷◌, ◌++◌,
  leb, arith, ℤ, pos,
}
use luthien_proxy.Text.{Text, has_char, split_on, join}
use luthien_proxy.Text.Laws.{
  text_eq_refl, text_eq_iff, split_on-no_char, split_on-append, append_assoc, join-split_on,
}
use luthien_proxy.Session.{
  SessionLib, second, session_max_age, is_ascii, compare_digest, get_session_secret, dot,
  create_session_token, is_expired, is_fresh, verify_parts, verify_session_token,
}

pub compare_digest_self : (s : Text) → is_ascii s ≡ true → compare_digest s s ≡ some true
unfolding compare_digest
compare_digest_self s h = rw (h, text_eq_refl s) refl

pub compare_digest_iff : (s t : Text) → compare_digest s t ≡ some true → s ≡ t
unfolding compare_digest
compare_digest_iff s t h = ground (arith, text_eq_iff s t)

module _ (lib : SessionLib) (hmac-ascii : (k m : Text) → is_ascii (lib.hmac k m) ≡ true)
    (hmac-no_dot : (k m : Text) → has_char dot (lib.hmac k m) ≡ false)
    (str-no_dot : (n : ℕ) → has_char dot (lib.str n) ≡ false)
    (int-str : (n : ℕ) → lib.int (lib.str n) ≡ some (pos n)) where
  split-token :
      (a b s : Text)
      → has_char dot a ≡ false
      → has_char dot b ≡ false
      → has_char dot s ≡ false
      → split_on dot ((a ++ (dot ∷ b)) ++ (dot ∷ s)) ≡ a ∷ b ∷ s ∷ []
  split-token a b s ha hb hs =
      rw
        (
          append_assoc a (dot ∷ b) (dot ∷ s),
          split_on-append dot a (b ++ (dot ∷ s)) ha,
          split_on-append dot b s hb,
          split_on-no_char dot s hs,
        )
        refl

  verify_parts-signed :
      (now : ℕ) (key a b : Text)
      → verify_parts lib now key
          (a ∷ b ∷ lib.hmac (get_session_secret lib key) (a ++ (dot ∷ b)) ∷ [])
        ≡ is_fresh now (lib.int a)
  unfolding verify_parts
  verify_parts-signed now key a b =
      let digest = lib.hmac (get_session_secret lib key) (a ++ (dot ∷ b)) in
      let same : compare_digest digest digest ≡ some true =
        compare_digest_self digest (hmac-ascii (get_session_secret lib key) (a ++ (dot ∷ b))) in
      rw (same, verify_parts) refl

  -- If digests are ASCII without a dot, decimal numbers have no dot and are read back, and the random
  -- id has no dot, then a token made at one time is accepted at another exactly if that is not more
  -- than 24 hours after the full second in which it was made.
  pub verify-create :
      (made now : ℕ) (random_id key : Text)
      → has_char dot random_id ≡ false
      → verify_session_token lib now (create_session_token lib made random_id key) key
        ≡ leb now ((made / second + session_max_age) * second)
  unfolding verify_session_token create_session_token
  verify-create made now random_id key h =
      let a = lib.str (made / second) in
      let digest = lib.hmac (get_session_secret lib key) (a ++ (dot ∷ random_id)) in
      let parts =
        split-token a random_id digest (str-no_dot (made / second)) h
          (hmac-no_dot (get_session_secret lib key) (a ++ (dot ∷ random_id))) in
      rw (parts, verify_parts-signed now key a random_id, int-str (made / second)) (ground arith)

-- What an accepted token consists of
abbrev pub IsSigned : SessionLib → ℕ → Text → Text → Type 0
IsSigned lib now token key =
    (a : Text) × (b : Text) × (t : ℤ) × (token
      ≡ a ++ (dot ∷ (b ++ (dot ∷ lib.hmac (get_session_secret lib key) (a ++ (dot ∷ b))))))
    × (lib.int a ≡ some t)
    × (is_expired now t ≡ false)

fresh_time :
    (now : ℕ) (o : Option ℤ)
    → is_fresh now o ≡ true
    → (t : ℤ) × (o ≡ some t) × (is_expired now t ≡ false)
fresh_time now none h = absurd (ground arith)
fresh_time now (some t) h = (t, refl, ground arith)

verify_parts-cases :
    (lib : SessionLib) (now : ℕ) (key a b s : Text)
    → verify_parts lib now key (a ∷ b ∷ s ∷ []) ≡ true
    → (s ≡ lib.hmac (get_session_secret lib key) (a ++ (dot ∷ b)))
      × (is_fresh now (lib.int a) ≡ true)
unfolding verify_parts
verify_parts-cases lib now key a b s h =
    let same = compare_digest_iff s (lib.hmac (get_session_secret lib key) (a ++ (dot ∷ b))) in
    ground (arith, h, same)

IsSigned-of_parts :
    (lib : SessionLib) (now : ℕ) (token key : Text) (parts : List Text)
    → join (dot ∷ []) parts ≡ token
    → verify_parts lib now key parts ≡ true
    → IsSigned lib now token key
unfolding verify_parts join
IsSigned-of_parts lib now token key [] e h = absurd (ground arith)
IsSigned-of_parts lib now token key (a ∷ []) e h = absurd (ground arith)
IsSigned-of_parts lib now token key (a ∷ b ∷ []) e h = absurd (ground arith)
IsSigned-of_parts lib now token key (a ∷ b ∷ s ∷ c ∷ rest) e h = absurd (ground arith)
IsSigned-of_parts lib now token key (a ∷ b ∷ s ∷ []) e h =
    let found = verify_parts-cases lib now key a b s h in
    let time = fresh_time now (lib.int a) (found.1) in
    (a, b, time.0, sym e ∙ ap (λ x. a ++ (dot ∷ (b ++ (dot ∷ x)))) (found.0), time.1, time.2)

-- A token that is accepted is a timestamp, an id and the digest of the two under the key, and the
-- timestamp is a number that is not more than 24 hours ago.
pub verify_session_token-IsSigned :
    (lib : SessionLib) (now : ℕ) (token key : Text)
    → verify_session_token lib now token key ≡ true
    → IsSigned lib now token key
unfolding verify_session_token
verify_session_token-IsSigned lib now token key h =
    IsSigned-of_parts lib now token key (split_on dot token) (join-split_on dot token) h
