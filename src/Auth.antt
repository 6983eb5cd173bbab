-- ===== src/Auth.antt =====
-- Who may use the administration (src/luthien_proxy/auth.py). `HTTPBearer` is third-party: what it makes of the
-- Authorization header is an argument.
pub mod Grants
pub mod Agree
mod Tests
use luthien_proxy.Base.{
  ℕ, Bool, true, false, not, ◌&&◌, ◌||◌, Option, none, some, List, [], ◌∷◌, ◌++◌, is_nil,
  if◌then◌else◌, ◌==◌,
}
use luthien_proxy.Text.{Text, codes, text_eq, starts_with, after}
use luthien_proxy.Session.{SessionLib, compare_digest, get_session_user}

-- What the functions read of a request
pub record AuthRequest : Type 0 where
  pub client_host : Option Text
  pub session_cookie : Option Text
  pub authorization : Option Text
  pub x_api_key : Option Text
  pub path : Text

unfoldable pub is_loopback : Text → Bool
unfolding text_eq
is_loopback host =
    text_eq host (codes "127.0.0.1")
    || text_eq host (codes "::1")
    || text_eq host (codes "::ffff:127.0.0.1")

-- `is_localhost_request`
unfoldable pub is_localhost_request : AuthRequest → Bool
unfolding is_loopback
is_localhost_request request = elim request.client_host [
  | none ↦ false
  | some host ↦ is_loopback host
]

-- `_should_bypass_auth`, given the setting `localhost_auth_bypass`
unfoldable pub should_bypass_auth : Bool → AuthRequest → Bool
unfolding is_localhost_request
should_bypass_auth localhost_auth_bypass request =
    localhost_auth_bypass && is_localhost_request request

-- The end of `verify_admin_token`: the token, an HTTPException with 500 or 403, or a TypeError
pub data AdminResult : Type 0 where
  granted : Text → AdminResult
  not_configured forbidden type_error : AdminResult

-- `if token matches: return token`, else the rest
unfoldable pub or_granted : Text → Option Bool → AdminResult → AdminResult
or_granted token none rest = type_error
or_granted token (some true) rest = granted token
or_granted token (some false) rest = rest

abbrev pub by_bearer : Option Text → Text → AdminResult → AdminResult
by_bearer none key rest = rest
by_bearer (some token) key rest = or_granted token (compare_digest token key) rest

abbrev pub by_api_key : Option Text → Text → AdminResult → AdminResult
by_api_key none key rest = rest
by_api_key (some token) key rest =
    if is_nil token then rest else or_granted token (compare_digest token key) rest

abbrev pub by_session : Option Text → AdminResult → AdminResult
by_session none rest = rest
by_session (some token) rest = if is_nil token then rest else granted token

abbrev pub verify_key : SessionLib → ℕ → AuthRequest → Option Text → Option Text → AdminResult
verify_key lib now request credentials none = not_configured
verify_key lib now request credentials (some key) =
    if is_nil key
    then not_configured
    else by_session (get_session_user lib now request.session_cookie (some key))
        (by_bearer credentials key (by_api_key request.x_api_key key forbidden))

-- `verify_admin_token`
unfoldable pub verify_admin_token :
    SessionLib → ℕ → Bool → AuthRequest → Option Text → Option Text → AdminResult
unfolding should_bypass_auth compare_digest get_session_user or_granted
verify_admin_token lib now localhost_auth_bypass request credentials admin_key =
    if should_bypass_auth localhost_auth_bypass request
    then granted (codes "localhost-bypass")
    else verify_key lib now request credentials admin_key

-- The end of `check_auth_or_redirect`; `type_error` as above
pub data PageResult : Type 0 where
  authenticated : PageResult
  redirect : Text → PageResult
  page_type_error : PageResult

unfoldable pub or_authenticated : Option Bool → PageResult → PageResult
or_authenticated none rest = page_type_error
or_authenticated (some true) rest = authenticated
or_authenticated (some false) rest = rest

-- The token of a header that begins with "Bearer "
abbrev pub bearer_token : Option Text → Text
unfolding starts_with after
bearer_token none = []
bearer_token (some header) = if starts_with header (codes "Bearer ") then after 7 header else []

abbrev pub page_by_key : Text → Text → PageResult → PageResult
page_by_key token key rest =
    if is_nil token then rest else or_authenticated (compare_digest token key) rest

abbrev pub or_empty : Option Text → Text
or_empty none = []
or_empty (some t) = t

-- A redirect to the login page, and back to the page afterwards
abbrev pub to_login : SessionLib → AuthRequest → PageResult
to_login lib request = redirect (codes "/login?error=required&next=" ++ lib.quote request.path)

abbrev pub page_by_session : Option Text → PageResult → PageResult
page_by_session none rest = rest
page_by_session (some token) rest = if is_nil token then rest else authenticated

abbrev pub check_key : SessionLib → ℕ → AuthRequest → Option Text → PageResult
check_key lib now request none = to_login lib request
check_key lib now request (some key) =
    if is_nil key
    then to_login lib request
    else page_by_session (get_session_user lib now request.session_cookie (some key)) (
        page_by_key (bearer_token request.authorization) key
          (page_by_key (or_empty request.x_api_key) key (to_login lib request)))

-- `check_auth_or_redirect`
unfoldable pub check_auth_or_redirect :
    SessionLib → ℕ → Bool → AuthRequest → Option Text → PageResult
unfolding should_bypass_auth compare_digest get_session_user or_authenticated bearer_token
check_auth_or_redirect lib now localhost_auth_bypass request admin_key =
    if should_bypass_auth localhost_auth_bypass request
    then authenticated
    else check_key lib now request admin_key

-- url.rstrip("/")
unfoldable pub strip_slashes : Text → Text
strip_slashes [] = []
strip_slashes (c ∷ s) =
    let rest = strip_slashes s in if is_nil rest && c == 47 then [] else c ∷ rest

-- `get_base_url` of the base URL and the X-Forwarded-Proto header
unfoldable pub get_base_url : Text → Option Text → Text
unfolding strip_slashes text_eq starts_with after
get_base_url base none = strip_slashes base
get_base_url base (some proto) =
    let base_url = strip_slashes base in
    if text_eq proto (codes "https") && starts_with base_url (codes "http://")
    then codes "https://" ++ after 7 base_url
    else base_url
