-- ===== src/Webhook/Url.antt =====
-- The URL of the webhook: which ones enable the sender, and what a log shows of one.
use luthien_proxy.Base.{
  ℕ, ◌≡◌, refl, String, str_eq, str_append, Bool, true, false, not, ◌&&◌, ◌||◌, Option, none, some,
  if◌then◌else◌, ◌==◌,
}

-- `parsed.port`: absent, a number, or a ValueError
pub data Port : Type 0 where
  no_port bad_port : Port
  port : ℕ → Port

-- A `ParseResult`; `scheme` is in lower case, as `urlparse` returns it
pub record ParsedUrl : Type 0 where
  pub scheme : String
  pub userinfo : String
  pub hostname : Option String
  pub port : Port
  pub path : String
  pub params : String
  pub query : String
  pub fragment : String

abbrev pub has_host : Option String → Bool
has_host none = false
has_host (some h) = not (str_eq h "")

abbrev pub port_is_valid : Port → Bool
port_is_valid bad_port = false
port_is_valid _ = true

-- The tests of `__init__` on the URL
unfoldable pub usable : Option ParsedUrl → Bool
usable none = false
usable (some u) =
    (str_eq u.scheme "http" || str_eq u.scheme "https")
    && has_host u.hostname
    && port_is_valid u.port

-- How the library prints a number and tells a host with a colon, an IPv6 address
pub record UrlLib : Type 0 where
  pub str : ℕ → String
  pub has_colon : String → Bool

-- `host`, in brackets if it is an IPv6 address
abbrev pub shown_host : UrlLib → Option String → String
shown_host lib none = ""
shown_host lib (some h) = if lib.has_colon h then str_append "[" (str_append h "]") else h

abbrev pub shown_netloc : UrlLib → String → Port → String
shown_netloc lib host (port p) =
    if p == 0 then host else str_append host (str_append ":" (lib.str p))
shown_netloc lib host _ = host

-- What `urlunparse` is given
pub record SafeUrl : Type 0 where
  pub scheme : String
  pub netloc : String
  pub path : String
  pub params : String
  pub query : String
  pub fragment : String

abbrev pub is_root : String → Bool
is_root path = str_eq path "" || str_eq path "/"

abbrev pub shown_path : String → String
shown_path path = if is_root path then path else "/<redacted>"

-- `_compute_safe_url` of a URL that is there
unfoldable pub compute_safe_url : UrlLib → ParsedUrl → SafeUrl
compute_safe_url lib u = record {
  scheme = u.scheme;
  netloc = shown_netloc lib (shown_host lib u.hostname) u.port;
  path = shown_path u.path;
  params = u.params;
  query = "";
  fragment = "";
}

-- What a log shows of a URL whose path is not the root is the same for every other such URL with its
-- scheme, host, port and parameters, whatever the user, the password, the path, the query and the
-- fragment are.
pub compute_safe_url_hides :
    (lib : UrlLib) (u v : ParsedUrl)
    → u.scheme ≡ v.scheme
    → u.hostname ≡ v.hostname
    → u.port ≡ v.port
    → u.params ≡ v.params
    → is_root u.path ≡ false
    → is_root v.path ≡ false
    → compute_safe_url lib u ≡ compute_safe_url lib v
unfolding compute_safe_url
compute_safe_url_hides lib u v s h p q a b =
    let e : shown_path u.path ≡ shown_path v.path = rw (a, b) refl in cc
