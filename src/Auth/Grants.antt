-- ===== src/Auth/Grants.antt =====
-- Who is let in, by the API and by the pages.
use luthien_proxy.Base.{
  ℕ, ◌≡◌, refl, ap, Bool, true, false, Option, none, some, is_nil, arith, Bool-cases, ◌⊎◌, inl, inr,
}
use luthien_proxy.Text.{Text, codes, text_eq}
use luthien_proxy.Session.{SessionLib}
use luthien_proxy.Session.Token.{IsSigned}
use luthien_proxy.Text.Laws.{text_eq_iff}
use luthien_proxy.Auth.{AuthRequest, is_loopback, is_localhost_request, should_bypass_auth}

-- The client is one of the three loopback addresses.
abbrev pub IsLoopback : Option Text → Type 0
IsLoopback host =
    (host ≡ some (codes "127.0.0.1"))
    ⊎ (host ≡ some (codes "::1"))
    ⊎ (host ≡ some (codes "::ffff:127.0.0.1"))

is_loopback-IsLoopback : (host : Text) → is_loopback host ≡ true → IsLoopback (some host)
unfolding is_loopback
is_loopback-IsLoopback host h =
    let a = text_eq_iff host (codes "127.0.0.1") in
    let b = text_eq_iff host (codes "::1") in
    let c = text_eq_iff host (codes "::ffff:127.0.0.1") in
    elim (Bool-cases (text_eq host (codes "127.0.0.1"))) [
      | inl e ↦ inl (ap some (a.0 e))
      | inr e ↦ elim (Bool-cases (text_eq host (codes "::1"))) [
        | inl f ↦ inr (inl (ap some (b.0 f)))
        | inr f ↦ inr (inr (ap some (c.0 (ground (arith, e, f, h)))))
      ]
    ]

text_or : Text → Option Text → Text
text_or t none = t
text_or t (some u) = u

localhost-cases :
    (request : AuthRequest) (o : Option Text)
    → request.client_host ≡ o
    → is_localhost_request request ≡ true
    → IsLoopback o
unfolding is_localhost_request
localhost-cases request none e h = absurd (ground (arith, rw (e, is_localhost_request) at h))
localhost-cases request (some host) e h =
    is_loopback-IsLoopback host (rw (e, is_localhost_request) at h)

pub should_bypass_auth-IsLoopback :
    (bypass : Bool) (request : AuthRequest)
    → should_bypass_auth bypass request ≡ true
    → (bypass ≡ true) × IsLoopback request.client_host
unfolding should_bypass_auth
should_bypass_auth-IsLoopback true request h =
    (refl, localhost-cases request request.client_host refl h)
should_bypass_auth-IsLoopback false request h = absurd (ground (arith, h))

-- The admin key is there, and the token is the key itself, or that of the session cookie: it is signed
-- under the key and not expired.
abbrev pub HasAuthority : SessionLib → ℕ → AuthRequest → Option Text → Text → Type 0
HasAuthority lib now request admin_key t =
    (key : Text) × (admin_key ≡ some key)
    × (is_nil key ≡ false)
    × (((request.session_cookie ≡ some t) × IsSigned lib now t key) ⊎ (t ≡ key))
