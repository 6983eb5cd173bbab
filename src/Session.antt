-- ===== src/Session.antt =====
-- Login sessions (src/luthien_proxy/session.py): the signed token, the login, and what is shown of a
-- URL in the login page. Times are in microseconds, and texts have no surrogates. `compare_digest` raises a TypeError on a text that
-- is not ASCII: `none`.
pub mod Token
pub mod Login
pub mod Escape
pub mod NextUrl
pub mod Tests
use luthien_proxy.Base.{
  ℕ, ◌+◌, ◌*◌, ◌/◌, String, Bool, true, false, not, ◌&&◌, ◌||◌, Option, none, some, List, [], ◌∷◌,
  ◌++◌, ltb, is_nil, ℤ, pos, negsuc, if◌then◌else◌,
}
use Prim.Native.Nat.{suc}
use luthien_proxy.Text.{
  Text, codes, text_eq, starts_with, includes, has_char, replace_char, split_on, strip,
}

-- The library: `sha256(...).hexdigest()`, `hmac.new(key, message, sha256).hexdigest()`, `str` and `int` of
-- whole numbers (`none` is a ValueError), and `quote(url, safe="")`.
pub record SessionLib : Type 0 where
  pub sha256 : Text → Text
  pub hmac : Text → Text → Text
  pub str : ℕ → Text
  pub int : Text → Option ℤ
  pub quote : Text → Text

abbrev pub second : ℕ
second = 1000000

-- SESSION_MAX_AGE
abbrev pub session_max_age : ℕ
session_max_age = 86400

abbrev pub is_ascii : Text → Bool
is_ascii [] = true
is_ascii (c ∷ s) = ltb c 128 && is_ascii s

-- `hmac.compare_digest` and `secrets.compare_digest`
unfoldable pub compare_digest : Text → Text → Option Bool
unfolding text_eq
compare_digest a b = if is_ascii a && is_ascii b then some (text_eq a b) else none

-- `_get_session_secret`
unfoldable pub get_session_secret : SessionLib → Text → Text
get_session_secret lib admin_key = lib.sha256 (codes "luthien-session-" ++ admin_key)

abbrev pub dot : ℕ
dot = 46

-- `_create_session_token` at `now`, with the random id
unfoldable pub create_session_token : SessionLib → ℕ → Text → Text → Text
unfolding get_session_secret
create_session_token lib now random_id admin_key =
    let payload = lib.str (now / second) ++ (dot ∷ random_id) in
    payload ++ (dot ∷ lib.hmac (get_session_secret lib admin_key) payload)

-- `time.time() - timestamp > SESSION_MAX_AGE`
abbrev pub is_expired : ℕ → ℤ → Bool
is_expired now (pos timestamp) = ltb ((timestamp + session_max_age) * second) now
is_expired now (negsuc n) = ltb (session_max_age * second) (now + suc n * second)

-- The last test of `_verify_session_token`; `int` may raise
abbrev pub is_fresh : ℕ → Option ℤ → Bool
is_fresh now none = false
is_fresh now (some timestamp) = not (is_expired now timestamp)

-- `_verify_session_token` of the parts of the token
unfoldable pub verify_parts : SessionLib → ℕ → Text → List Text → Bool
unfolding compare_digest get_session_secret
verify_parts lib now admin_key (timestamp_str ∷ random_id ∷ signature ∷ []) =
    let payload = timestamp_str ++ (dot ∷ random_id) in
    elim (compare_digest signature (lib.hmac (get_session_secret lib admin_key) payload)) [
      | some true ↦ is_fresh now (lib.int timestamp_str)
      | some false ↦ false
      | none ↦ false
    ]
verify_parts lib now admin_key _ = false

-- `_verify_session_token` at `now`
unfoldable pub verify_session_token : SessionLib → ℕ → Text → Text → Bool
unfolding verify_parts split_on
verify_session_token lib now token admin_key = verify_parts lib now admin_key (split_on dot token)

-- `get_session_user`, given the session cookie of the request
unfoldable pub get_session_user : SessionLib → ℕ → Option Text → Option Text → Option Text
unfolding verify_session_token
get_session_user lib now cookie none = none
get_session_user lib now none (some admin_key) = none
get_session_user lib now (some token) (some admin_key) =
    if is_nil admin_key || is_nil token
    then none
    else if verify_session_token lib now token admin_key
    then some token
    else none

-- `_validate_next_url`
unfoldable pub validate_next_url : Text → Text
unfolding starts_with includes strip
validate_next_url given =
    let next_url = strip given in
    if starts_with next_url (codes "http://")
      || starts_with next_url (codes "https://")
      || starts_with next_url (codes "//")
    then codes "/"
    else if includes (codes "://") next_url || includes (codes "@") next_url
    then codes "/"
    else if not (starts_with next_url (codes "/"))
    then codes "/"
    else next_url

-- The session cookie; it is `httponly` with `samesite` "lax".
pub record Cookie : Type 0 where
  pub value : Text
  pub max_age : ℕ
  pub secure : Bool

pub data LoginResult : Type 0 where
  not_configured type_error : LoginResult
  wrong_password : Text → LoginResult
  logged_in : Text → Cookie → LoginResult

-- `login` after the password is compared; a redirect has the status 303
abbrev pub login_reply : SessionLib → ℕ → Text → Text → Text → Bool → Option Bool → LoginResult
unfolding create_session_token
login_reply lib now random_id admin_key safe_next_url https none = type_error
login_reply lib now random_id admin_key safe_next_url https (some false) =
    wrong_password (codes "/login?error=invalid&next=" ++ lib.quote safe_next_url)
login_reply lib now random_id admin_key safe_next_url https (some true) =
    logged_in safe_next_url (record {
      value = create_session_token lib now random_id admin_key;
      max_age = session_max_age;
      secure = https;
    })

-- `login` with a password, the admin key and the URL to go to
unfoldable pub login : SessionLib → ℕ → Text → Bool → Text → Option Text → Text → LoginResult
unfolding compare_digest validate_next_url login_reply
login lib now random_id https password none next_url = not_configured
login lib now random_id https password (some admin_key) next_url =
    if is_nil admin_key
    then not_configured
    else login_reply lib now random_id admin_key (validate_next_url next_url) https
        (compare_digest password admin_key)

-- `_escape_html_attr`
unfoldable pub escape_html_attr : Text → Text
unfolding replace_char
escape_html_attr value = replace_char 39 (codes "&#x27;") (
    replace_char 34 (codes "&quot;") (
      replace_char 62 (codes "&gt;")
        (replace_char 60 (codes "&lt;") (replace_char 38 (codes "&amp;") value))))
