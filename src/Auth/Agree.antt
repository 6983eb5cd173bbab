-- ===== src/Auth/Agree.antt =====
-- The pages let in whom the API lets in.
use luthien_proxy.Base.{
  ℕ, ◌≡◌, refl, Bool, true, false, Option, none, some, ◌++◌, is_nil, Bool-cases, ◌⊎◌, inl, inr, ◌∙◌,
  arith,
}
use luthien_proxy.Text.{Text, codes, text_eq}
use luthien_proxy.Session.{SessionLib, compare_digest, get_session_user}
use luthien_proxy.Auth.{
  AuthRequest, is_loopback, is_localhost_request, should_bypass_auth, redirect, AdminResult,
  granted, not_configured, forbidden, or_granted, by_bearer, by_api_key, by_session, verify_key,
  verify_admin_token, PageResult, authenticated, or_authenticated, bearer_token, page_by_key,
  or_empty, to_login, page_by_session, check_key, check_auth_or_redirect,
}
use luthien_proxy.Auth.Grants.{IsLoopback, should_bypass_auth-IsLoopback}

abbrev pub is_granted : AdminResult → Bool
is_granted (granted t) = true
is_granted _ = false

abbrev pub is_authenticated : PageResult → Bool
is_authenticated authenticated = true
is_authenticated _ = false

or_granted-agrees :
    (t : Text) (o : Option Bool) (r : AdminResult) (p : PageResult)
    → is_granted r ≡ is_authenticated p
    → is_granted (or_granted t o r) ≡ is_authenticated (or_authenticated o p)
unfolding or_granted or_authenticated
or_granted-agrees t none r p h = refl
or_granted-agrees t (some true) r p h = refl
or_granted-agrees t (some false) r p h = h

page_by_key-agrees :
    (t key : Text) (r : AdminResult) (p : PageResult)
    → is_nil t ≡ false
    → is_granted r ≡ is_authenticated p
    → is_granted (or_granted t (compare_digest t key) r) ≡ is_authenticated (page_by_key t key p)
page_by_key-agrees t key r p e h = rw e (or_granted-agrees t (compare_digest t key) r p h)

by_api_key-agrees :
    (x : Option Text) (key : Text) (r : AdminResult) (p : PageResult)
    → is_granted r ≡ is_authenticated p
    → is_granted (by_api_key x key r) ≡ is_authenticated (page_by_key (or_empty x) key p)
by_api_key-agrees none key r p h = h
by_api_key-agrees (some t) key r p h = elim (Bool-cases (is_nil t)) [
  | inl e ↦ rw e h
  | inr e ↦ rw e (or_granted-agrees t (compare_digest t key) r p h)
]

-- What `HTTPBearer` makes of a header that is absent, or that has the scheme as `check_auth_or_redirect`
-- writes it
abbrev pub IsBearer : Option Text → Option Text → Type 0
IsBearer header credentials =
    ((header ≡ none) × (credentials ≡ none))
    ⊎ ((t : Text) × (header ≡ some (codes "Bearer " ++ t))
        × (is_nil t ≡ false)
        × (credentials ≡ some t))

bearer_token-read : (t : Text) → bearer_token (some (codes "Bearer " ++ t)) ≡ t
unfolding bearer_token
bearer_token-read t = refl

by_bearer-agrees :
    (header credentials : Option Text) (key : Text) (r : AdminResult) (p : PageResult)
    → IsBearer header credentials
    → is_granted r ≡ is_authenticated p
    → is_granted (by_bearer credentials key r)
      ≡ is_authenticated (page_by_key (bearer_token header) key p)
unfolding bearer_token
by_bearer-agrees header credentials key r p (inl (a, b)) h = rw (a, b) h
by_bearer-agrees header credentials key r p (inr (t, a, e, b)) h =
    rw (a, b, bearer_token-read t) (page_by_key-agrees t key r p e h)

by_session-agrees :
    (o : Option Text) (r : AdminResult) (p : PageResult)
    → is_granted r ≡ is_authenticated p
    → is_granted (by_session o r) ≡ is_authenticated (page_by_session o p)
by_session-agrees none r p h = h
by_session-agrees (some t) r p h = elim (Bool-cases (is_nil t)) [
  | inl e ↦ rw e h
  | inr e ↦ rw e refl
]

verify_key-agrees :
    (lib : SessionLib) (now : ℕ) (request : AuthRequest) (credentials admin_key : Option Text)
    → IsBearer request.authorization credentials
    → is_granted (verify_key lib now request credentials admin_key)
      ≡ is_authenticated (check_key lib now request admin_key)
verify_key-agrees lib now request credentials none b = refl
verify_key-agrees lib now request credentials (some key) b = elim (Bool-cases (is_nil key)) [
  | inl e ↦ rw e refl
  | inr e ↦ rw e (
      by_session-agrees (get_session_user lib now request.session_cookie (some key)) _ _ (
        by_bearer-agrees request.authorization credentials key _ _ b
          (by_api_key-agrees request.x_api_key key forbidden (to_login lib request) refl)))
]

-- If the request has no Authorization header, or one that is "Bearer " and a token that is not empty,
-- which `HTTPBearer` hands on, then `check_auth_or_redirect` lets it in exactly if `verify_admin_token`
-- does.
pub verify_admin_token-check_auth_or_redirect :
    (lib : SessionLib) (now : ℕ) (bypass : Bool) (request : AuthRequest)
    (credentials admin_key : Option Text)
    → IsBearer request.authorization credentials
    → is_granted (verify_admin_token lib now bypass request credentials admin_key)
      ≡ is_authenticated (check_auth_or_redirect lib now bypass request admin_key)
unfolding verify_admin_token check_auth_or_redirect
verify_admin_token-check_auth_or_redirect lib now bypass request credentials admin_key b =
    elim (Bool-cases (should_bypass_auth bypass request)) [
      | inl e ↦ rw e refl
      | inr e ↦ rw e (verify_key-agrees lib now request credentials admin_key b)
    ]

bypassed :
    (bypass : Bool) (request : AuthRequest)
    → (bypass ≡ true) × IsLoopback request.client_host
    → should_bypass_auth bypass request ≡ true
unfolding should_bypass_auth is_localhost_request is_loopback text_eq
bypassed bypass request (e, inl h) = rw (e, h, should_bypass_auth, is_localhost_request) refl
bypassed bypass request (e, inr (inl h)) = rw (e, h, should_bypass_auth, is_localhost_request) refl
bypassed bypass request (e, inr (inr h)) = rw (e, h, should_bypass_auth, is_localhost_request) refl

to_login-redirect :
    (lib : SessionLib) (request : AuthRequest)
    → to_login lib request
      ≡ redirect (codes "/login?error=required&next=" ++ lib.quote request.path)
to_login-redirect lib request = refl

verify_key-not_configured :
    (lib : SessionLib) (now : ℕ) (request : AuthRequest) (credentials admin_key : Option Text)
    → is_nil (or_empty admin_key) ≡ true
    → (verify_key lib now request credentials admin_key ≡ not_configured)
      × (check_key lib now request admin_key ≡ to_login lib request)
verify_key-not_configured lib now request credentials none e = (refl, refl)
verify_key-not_configured lib now request credentials (some key) e = rw e (refl, refl)

-- Without an admin key, or with an empty one, a request from a loopback address while the setting
-- `localhost_auth_bypass` is on is let in by the API and by the pages. The API answers every other
-- request with the status 500, and a page with the redirect to the login that comes back to the path.
pub verify_admin_token-not_configured :
    (lib : SessionLib) (now : ℕ) (bypass : Bool) (request : AuthRequest)
    (credentials admin_key : Option Text)
    → is_nil (or_empty admin_key) ≡ true
    → (((bypass ≡ true) × IsLoopback request.client_host)
        × (verify_admin_token lib now bypass request credentials admin_key
            ≡ granted (codes "localhost-bypass"))
        × (check_auth_or_redirect lib now bypass request admin_key ≡ authenticated))
      ⊎ ((¬ ((bypass ≡ true) × IsLoopback request.client_host))
          × (verify_admin_token lib now bypass request credentials admin_key ≡ not_configured)
          × (check_auth_or_redirect lib now bypass request admin_key
              ≡ redirect (codes "/login?error=required&next=" ++ lib.quote request.path)))
unfolding verify_admin_token check_auth_or_redirect
verify_admin_token-not_configured lib now bypass request credentials admin_key e =
    elim (Bool-cases (should_bypass_auth bypass request)) [
      | inl s ↦ inl (
          rw (s, verify_admin_token, check_auth_or_redirect)
            (should_bypass_auth-IsLoopback bypass request s, refl, refl))
      | inr s ↦
          let (a, b) = verify_key-not_configured lib now request credentials admin_key e in
          inr (
            λ l. absurd (ground (arith, s, bypassed bypass request l)),
            rw (s, verify_admin_token) a,
            rw (s, check_auth_or_redirect) (b ∙ to_login-redirect lib request),
          )
    ]
