-- ===== src/Session/Login.antt =====
-- The login and the session that it starts.
use luthien_proxy.Base.{
  ℕ, ◌+◌, ◌*◌, ◌/◌, ◌≤◌, ◌≡◌, refl, sym, ap, ◌∙◌, Bool, true, false, Option, none, some, ◌∷◌, ◌++◌,
  arith, pos, is_nil, Bool-cases, inl, inr,
}
use luthien_proxy.Text.{Text, has_char}
use luthien_proxy.Text.Laws.{is_nil-append_cons}
use luthien_proxy.Session.{
  SessionLib, Cookie, logged_in, not_configured, second, session_max_age, is_ascii, compare_digest,
  dot, create_session_token, verify_session_token, get_session_user, login, login_reply,
  validate_next_url,
}
use luthien_proxy.Session.Token.{compare_digest_self, compare_digest_iff, verify-create}

create_session_token-nonempty :
    (lib : SessionLib) (now : ℕ) (random_id key : Text)
    → is_nil (create_session_token lib now random_id key) ≡ false
unfolding create_session_token
create_session_token-nonempty lib now random_id key =
    is_nil-append_cons (lib.str (now / second) ++ (dot ∷ random_id)) dot _

get_session_user-accepted :
    (lib : SessionLib) (now : ℕ) (token key : Text)
    → is_nil key ≡ false
    → is_nil token ≡ false
    → verify_session_token lib now token key ≡ true
    → get_session_user lib now (some token) (some key) ≡ some token
unfolding get_session_user
get_session_user-accepted lib now token key k t v = rw (k, t, v, get_session_user) refl

-- If digests are ASCII without a dot, decimal numbers have no dot and are read back, the random id has
-- no dot, and the admin key is an ASCII text that is not empty, then a login with the admin key as
-- password answers with a cookie whose value is taken for a session at every time that is at most 24
-- hours after the full second of the login.
pub login-get_session_user :
    (lib : SessionLib) (made now : ℕ) (random_id key next_url : Text) (https : Bool)
    → ((k m : Text) → is_ascii (lib.hmac k m) ≡ true)
    → ((k m : Text) → has_char dot (lib.hmac k m) ≡ false)
    → ((n : ℕ) → has_char dot (lib.str n) ≡ false)
    → ((n : ℕ) → lib.int (lib.str n) ≡ some (pos n))
    → has_char dot random_id ≡ false
    → is_nil key ≡ false
    → is_ascii key ≡ true
    → now ≤ (made / second + session_max_age) * second
    → (c : Cookie) × (login lib made random_id https key (some key) next_url
        ≡ logged_in (validate_next_url next_url) c)
      × (get_session_user lib now (some c.value) (some key) ≡ some c.value)
unfolding login login_reply
login-get_session_user lib made now random_id key next_url https ha hd sd is rd k a t =
    let token = create_session_token lib made random_id key in
    let accepted : verify_session_token lib now token key ≡ true =
      rw (verify-create lib ha hd sd is made now random_id key rd) (ground arith) in
    (
      record { value = token; max_age = session_max_age; secure = https },
      rw (k, compare_digest_self key a, login) refl,
      get_session_user-accepted lib now token key k
          (create_session_token-nonempty lib made random_id key) accepted,
    )

reply_right :
    (lib : SessionLib) (now : ℕ) (random_id key safe_url url : Text) (https : Bool) (c : Cookie)
    (o : Option Bool)
    → login_reply lib now random_id key safe_url https o ≡ logged_in url c
    → o ≡ some true
unfolding login_reply
reply_right lib now random_id key safe_url url https c none h = absurd (ground arith)
reply_right lib now random_id key safe_url url https c (some false) h = absurd (ground arith)
reply_right lib now random_id key safe_url url https c (some true) h = refl

login-no_key :
    (lib : SessionLib) (now : ℕ) (random_id password key next_url : Text) (https : Bool)
    → is_nil key ≡ true
    → login lib now random_id https password (some key) next_url ≡ not_configured
unfolding login
login-no_key lib now random_id password key next_url https e = rw (e, login) refl

login-key :
    (lib : SessionLib) (now : ℕ) (random_id password key next_url : Text) (https : Bool)
    → is_nil key ≡ false
    → login lib now random_id https password (some key) next_url
      ≡ login_reply lib now random_id key
          (validate_next_url next_url)
          https
          (compare_digest password key)
unfolding login
login-key lib now random_id password key next_url https e = rw (e, login) refl

-- A login that answers with a session cookie had an admin key that is not empty, and the password is
-- that key.
pub login-same_password :
    (lib : SessionLib) (now : ℕ) (random_id password next_url url : Text) (https : Bool)
    (admin_key : Option Text) (c : Cookie)
    → login lib now random_id https password admin_key next_url ≡ logged_in url c
    → (admin_key ≡ some password) × (is_nil password ≡ false)
unfolding login
login-same_password lib now random_id password next_url url https none c h = absurd (ground arith)
login-same_password lib now random_id password next_url url https (some key) c h =
    elim (Bool-cases (is_nil key)) [
      | inl e ↦
          let no = sym (login-no_key lib now random_id password key next_url https e) ∙ h in
          absurd (ground (arith, no))
      | inr e ↦
          let yes = sym (login-key lib now random_id password key next_url https e) ∙ h in
          let right =
            reply_right lib now random_id key (validate_next_url next_url) url https c
              (compare_digest password key) yes in
          let same = compare_digest_iff password key right in (ap some (sym same), rw same e)
    ]
