-- ===== src/Session/Tests.antt =====
-- Sessions with a signature of two letters, and numbers written with one digit per unit.
use luthien_proxy.Base.{ℕ, zero, suc, ◌≡◌, refl, ap, true, false, some, [], ◌∷◌, arith, pos, length}
use luthien_proxy.Text.{Text, codes, has_char}
use luthien_proxy.Session.{
  SessionLib, Cookie, session_max_age, dot, create_session_token, verify_session_token,
  get_session_user, login, logged_in, validate_next_url, escape_html_attr,
}
use luthien_proxy.Session.Token.{verify-create, verify_session_token-IsSigned, IsSigned}
use luthien_proxy.Session.Login.{login-get_session_user, login-same_password}
use luthien_proxy.Session.Escape.{escape_html_attr-safe}

-- n strokes
abbrev strokes : ℕ → Text
strokes zero = []
strokes (suc n) = 49 ∷ strokes n

abbrev lib_ex : SessionLib
lib_ex = record {
  sha256 = λ t. t;
  hmac = λ k m. codes "ab";
  str = strokes;
  int = λ t. some (pos (length t));
  quote = λ t. t;
}

abbrev key_ex : Text
key_ex = codes "key"

strokes-no_dot : (n : ℕ) → has_char dot (strokes n) ≡ false
unfolding has_char
strokes-no_dot zero = refl
strokes-no_dot (suc n) = ground (arith, strokes-no_dot n)

length-strokes : (n : ℕ) → length (strokes n) ≡ n
length-strokes zero = refl
length-strokes (suc n) = omega (arith, length-strokes n)

digest-no_dot : has_char dot (codes "ab") ≡ false
unfolding has_char
digest-no_dot = refl

verify-create_example :
    verify_session_token lib_ex 5000000
      (create_session_token lib_ex 2000000 (codes "id") key_ex)
      key_ex
    ≡ true
unfolding has_char
verify-create_example =
    verify-create lib_ex (λ k m. refl) (λ k m. digest-no_dot) strokes-no_dot
      (λ n. ap (λ x. some (pos x)) (length-strokes n)) 2000000 5000000 (codes "id") key_ex refl

verify_session_token-IsSigned_example : IsSigned lib_ex 5000000 (codes "11.id.ab") key_ex
unfolding verify_session_token
verify_session_token-IsSigned_example =
    verify_session_token-IsSigned lib_ex 5000000 (codes "11.id.ab") key_ex refl

login-get_session_user_example :
    (c : Cookie) × (login lib_ex 2000000 (codes "id") true key_ex (some key_ex) (codes "/activity")
      ≡ logged_in (validate_next_url (codes "/activity")) c)
    × (get_session_user lib_ex 5000000 (some c.value) (some key_ex) ≡ some c.value)
unfolding has_char
login-get_session_user_example =
    login-get_session_user lib_ex 2000000 5000000 (codes "id") key_ex (codes "/activity") true
      (λ k m. refl) (λ k m. digest-no_dot) strokes-no_dot
      (λ n. ap (λ x. some (pos x)) (length-strokes n)) refl refl refl (omega arith)

login-same_password_example : (some key_ex ≡ some key_ex) × (false ≡ false)
unfolding login
login-same_password_example =
    login-same_password lib_ex 2000000 (codes "id") key_ex (codes "/a") (codes "/a") true
      (some key_ex) (record { value = codes "11.id.ab"; max_age = session_max_age; secure = true })
      refl

escape_html_attr-safe_example : has_char 60 (escape_html_attr (codes "<b>&'")) ≡ false
escape_html_attr-safe_example = escape_html_attr-safe 60 (codes "<b>&'") refl

-- A browser reads a backslash after the first slash as a second slash.
backslash_stays : validate_next_url (47 ∷ 92 ∷ codes "evil") ≡ 47 ∷ 92 ∷ codes "evil"
unfolding validate_next_url
backslash_stays = refl
