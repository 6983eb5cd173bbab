-- ===== src/Pipeline/UpstreamHeaders/Clean.antt =====
-- No header value can end a header line.
use luthien_proxy.Base.{
  ℕ, ◌≡◌, refl, sym, ap, ◌∙◌, Bool, true, false, ◌||◌, Option, none, some, [], ◌∷◌, is_nil, arith,
  Bool-cases, ◌⊎◌, inl, inr, ◌==◌,
}
use luthien_proxy.Text.{Text, has_char, replace_char, text_eq}
use luthien_proxy.Pipeline.UpstreamHeaders.Merge.{headers_of-or_none}
use luthien_proxy.Pipeline.UpstreamHeaders.{
  Headers, TemplateEnv, substitute, expand_template, expand_each, expand_upstream_headers,
  headers_of, lookup_header,
}

-- A character that is taken out, the same one or one taken out before
removed :
    (c d : ℕ) (s : Text)
    → (d == c) ≡ true ⊎ (has_char c s ≡ false)
    → has_char c (replace_char d [] s) ≡ false
unfolding has_char replace_char
removed c d [] h = refl
removed c d (e ∷ s) (inl h) = ground (arith, h, removed c d s (inl h))
removed c d (e ∷ s) (inr h) = ground (arith, h, removed c d s (inr (ground (arith, h))))

abbrev pub ends_line : ℕ → Bool
ends_line c = (c == 0) || (c == 10) || (c == 13)

expand_template-clean :
    (env : TemplateEnv) (t : Text) (c : ℕ)
    → ends_line c ≡ true
    → has_char c (expand_template env t) ≡ false
unfolding expand_template
expand_template-clean env t c h =
    let s = substitute env 0 t in
    elim (Bool-cases (0 == c)) [
      | inl e ↦ removed c 0 (replace_char 10 [] (replace_char 13 [] s)) (inl e)
      | inr e ↦ removed c 0 (replace_char 10 [] (replace_char 13 [] s)) (
          inr (elim (Bool-cases (10 == c)) [
            | inl f ↦ removed c 10 (replace_char 13 [] s) (inl f)
            | inr f ↦
                removed c 10 (replace_char 13 [] s)
                  (inr (removed c 13 s (inl (ground (arith, h, e, f)))))
          ]))
    ]

text_in : Text → Option Text → Text
text_in t none = t
text_in t (some u) = u

expand_each-clean :
    (env : TemplateEnv) (templates : Headers) (k v : Text) (c : ℕ)
    → ends_line c ≡ true
    → lookup_header k (expand_each env templates) ≡ some v
    → (is_nil v ≡ false) × (has_char c v ≡ false)
unfolding expand_each lookup_header text_in
expand_each-clean env [] k v c h f = absurd (ground (arith, f))
expand_each-clean env ((name, template) ∷ templates) k v c h f =
    let value = expand_template env template in
    elim (Bool-cases (is_nil (expand_template env template))) [
      | inl e ↦ expand_each-clean env templates k v c h (rw e at f)
      | inr e ↦ elim (Bool-cases (text_eq name k)) [
        | inl g ↦
            let same : expand_template env template ≡ v = ap (text_in v) (rw (e, g) at f) in
            (rw (sym same) e, rw (sym same) (expand_template-clean env template c h))
        | inr g ↦ expand_each-clean env templates k v c h (rw (e, g) at f)
      ]
    ]

-- A header that goes out has a value that is not empty and has no carriage return, no line feed and no
-- NUL, whatever the session id, the path and the environment are.
pub expand_upstream_headers-clean :
    (env : TemplateEnv) (templates : Headers) (k v : Text) (c : ℕ)
    → ends_line c ≡ true
    → lookup_header k (headers_of (expand_upstream_headers env templates)) ≡ some v
    → (is_nil v ≡ false) × (has_char c v ≡ false)
unfolding expand_upstream_headers
expand_upstream_headers-clean env templates k v c h f =
    expand_each-clean env templates k v c h
      (sym (ap (lookup_header k) (headers_of-or_none (expand_each env templates))) ∙ f)
