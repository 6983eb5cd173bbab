-- ===== src/Auth/Tests.antt =====
-- A request from outside with a bearer token.
use luthien_proxy.Base.{◌≡◌, refl, true, none, some, [], inr, ◌⊎◌, ◌++◌}
use luthien_proxy.Text.{codes}
use luthien_proxy.Session.{SessionLib}
use luthien_proxy.Auth.{
  AuthRequest, not_configured, granted, authenticated, redirect, verify_admin_token,
  check_auth_or_redirect, get_base_url,
}
use luthien_proxy.Auth.Grants.{IsLoopback}
use luthien_proxy.Auth.Agree.{
  is_granted, is_authenticated, verify_admin_token-check_auth_or_redirect,
  verify_admin_token-not_configured,
}

abbrev digests : SessionLib
digests = record {
  sha256 = λ t. t;
  hmac = λ k m. codes "ab";
  str = λ n. [];
  int = λ t. none;
  quote = λ t. t;
}

abbrev from_outside : AuthRequest
from_outside = record {
  client_host = some (codes "10.0.0.7");
  session_cookie = none;
  authorization = some (codes "Bearer key");
  x_api_key = none;
  path = codes "/activity";
}

verify_admin_token-check_auth_or_redirect_example :
    is_granted
      (verify_admin_token digests 0 true from_outside (some (codes "key")) (some (codes "key")))
    ≡ is_authenticated (check_auth_or_redirect digests 0 true from_outside (some (codes "key")))
verify_admin_token-check_auth_or_redirect_example =
    verify_admin_token-check_auth_or_redirect digests 0 true from_outside (some (codes "key"))
      (some (codes "key")) (inr (codes "key", refl, refl, refl))

verify_admin_token-not_configured_example :
    (((true ≡ true) × IsLoopback from_outside.client_host)
      × (verify_admin_token digests 0 true from_outside (some (codes "key")) none
          ≡ granted (codes "localhost-bypass"))
      × (check_auth_or_redirect digests 0 true from_outside none ≡ authenticated))
    ⊎ ((¬ ((true ≡ true) × IsLoopback from_outside.client_host))
        × (verify_admin_token digests 0 true from_outside (some (codes "key")) none
            ≡ not_configured)
        × (check_auth_or_redirect digests 0 true from_outside none
            ≡ redirect (codes "/login?error=required&next=" ++ digests.quote from_outside.path)))
verify_admin_token-not_configured_example =
    verify_admin_token-not_configured digests 0 true from_outside (some (codes "key")) none refl

behind_proxy :
    get_base_url (codes "http://example.org/") (some (codes "https")) ≡ codes "https://example.org"
unfolding get_base_url
behind_proxy = refl
