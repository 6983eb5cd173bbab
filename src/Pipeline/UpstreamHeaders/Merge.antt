-- ===== src/Pipeline/UpstreamHeaders/Merge.antt =====
-- Which header wins.
use luthien_proxy.Base.{
  ◌≡◌, refl, sym, ap, ◌∙◌, Bool, true, false, Option, none, some, [], ◌∷◌, ◌++◌, if◌then◌else◌,
  is_nil, arith, Bool-cases, ◌⊎◌, inl, inr,
}
use luthien_proxy.Text.{Text, text_eq}
use luthien_proxy.Text.Laws.{text_eq_iff}
use luthien_proxy.Pipeline.UpstreamHeaders.{
  Headers, or_none, lookup_header, collides, not_in_base, headers_of, merge_forwarded_headers,
}

-- The value of a header that is in one of two dictionaries, the first of which wins
abbrev first_of : Option Text → Option Text → Option Text
first_of none o = o
first_of (some v) o = some v

lookup-union :
    (k : Text) (b u : Headers)
    → lookup_header k (b ++ u) ≡ first_of (lookup_header k b) (lookup_header k u)
unfolding lookup_header
lookup-union k [] u = refl
lookup-union k ((j, v) ∷ b) u = elim (Bool-cases (text_eq j k)) [
  | inl e ↦ rw (e, lookup_header) refl
  | inr e ↦ rw (e, lookup_header) (lookup-union k b u)
]

lookup-not_in_base :
    (lower : Text → Text) (base : Headers) (k : Text) (u : Headers)
    → lookup_header k (not_in_base lower base u)
      ≡ (if collides lower k base then none else lookup_header k u)
unfolding lookup_header not_in_base
lookup-not_in_base lower base k [] = ground arith
lookup-not_in_base lower base k ((j, v) ∷ u) =
    ground
      (arith, text_eq_iff j k, lookup-not_in_base lower base k u, ap (λ x. collides lower x base))

lookup-nil : (k : Text) → lookup_header k [] ≡ none
unfolding lookup_header
lookup-nil k = refl

collides-nil :
    (lower : Text → Text) (k : Text) (b : Headers) → is_nil b ≡ true → collides lower k b ≡ false
unfolding collides
collides-nil lower k [] h = refl
collides-nil lower k (x ∷ b) h = absurd (ground (arith, h))

pub headers_of-or_none : (h : Headers) → headers_of (or_none h) ≡ h
headers_of-or_none [] = refl
headers_of-or_none (x ∷ h) = refl

is_nil-eq : (h : Headers) → is_nil h ≡ true → h ≡ []
is_nil-eq [] e = refl
is_nil-eq (x ∷ h) e = absurd (ground (arith, e))

first_of-none : (o : Option Text) → first_of o none ≡ o
first_of-none none = refl
first_of-none (some v) = refl

unless : Bool → Option Text → Option Text
unless b o = if b then none else o

unless-none : (b : Bool) → unless b none ≡ none
unfolding unless
unless-none true = refl
unless-none false = refl

merged-eq :
    (lower : Text → Text) (base upstream : Option Headers) (k : Text)
    → lookup_header k (headers_of (merge_forwarded_headers lower base upstream))
      ≡ first_of (lookup_header k (headers_of base)) (
          if collides lower k (headers_of base)
          then none
          else lookup_header k (headers_of upstream))
unfolding merge_forwarded_headers unless
merged-eq lower base upstream k = elim (Bool-cases (is_nil (headers_of upstream))) [
  | inl e ↦
      let gone : lookup_header k (headers_of upstream) ≡ none =
        ap (lookup_header k) (is_nil-eq (headers_of upstream) e) ∙ lookup-nil k in
      rw (e, gone, merge_forwarded_headers)
        (ap (lookup_header k) (headers_of-or_none (headers_of base))
          ∙ sym (
              ap (first_of (lookup_header k (headers_of base)))
                (unless-none (collides lower k (headers_of base)))
              ∙ first_of-none (lookup_header k (headers_of base))))
  | inr e ↦ elim (Bool-cases (is_nil (headers_of base))) [
    | inl f ↦
        let gone : lookup_header k (headers_of base) ≡ none =
          ap (lookup_header k) (is_nil-eq (headers_of base) f) ∙ lookup-nil k in
        rw (e, f, gone, collides-nil lower k (headers_of base) f, merge_forwarded_headers) refl
    | inr f ↦
        rw (e, f, merge_forwarded_headers)
          (lookup-union k (headers_of base)
              (not_in_base lower (headers_of base) (headers_of upstream))
            ∙ ap (first_of (lookup_header k (headers_of base)))
                (lookup-not_in_base lower (headers_of base) k (headers_of upstream)))
  ]
]

-- The dictionary has a name that is the same in lower case.
abbrev pub SharesName : (Text → Text) → Text → Headers → Type 0
SharesName lower k [] = false ≡ true
SharesName lower k ((j, v) ∷ h) = (lower j ≡ lower k) ⊎ SharesName lower k h

collides-SharesName :
    (lower : Text → Text) (k : Text) (h : Headers)
    → collides lower k h ≡ true
    → SharesName lower k h
unfolding collides
collides-SharesName lower k [] e = e
collides-SharesName lower k ((j, v) ∷ h) e = elim (Bool-cases (text_eq (lower j) (lower k))) [
  | inl f ↦ let same = text_eq_iff (lower j) (lower k) in inl (same.0 f)
  | inr f ↦ inr (collides-SharesName lower k h (ground (arith, e, f)))
]

SharesName-collides :
    (lower : Text → Text) (k : Text) (h : Headers)
    → SharesName lower k h
    → collides lower k h ≡ true
unfolding collides
SharesName-collides lower k [] s = s
SharesName-collides lower k ((j, v) ∷ h) (inl e) =
    let same = text_eq_iff (lower j) (lower k) in ground (arith, same.1 e)
SharesName-collides lower k ((j, v) ∷ h) (inr s) = ground (arith, SharesName-collides lower k h s)

lookup-SharesName :
    (lower : Text → Text) (k v : Text) (h : Headers)
    → lookup_header k h ≡ some v
    → SharesName lower k h
unfolding lookup_header
lookup-SharesName lower k v [] e = absurd (ground (arith, e))
lookup-SharesName lower k v ((j, w) ∷ h) e = elim (Bool-cases (text_eq j k)) [
  | inl f ↦ let same = text_eq_iff j k in inl (ap lower (same.0 f))
  | inr f ↦ inr (lookup-SharesName lower k v h (rw (f, lookup_header) at e))
]

-- What a header is in the merged headers, from what it is in the base, which comes first
abbrev pub Wins : (Text → Text) → Text → Headers → Option Text → Option Text → Option Text → Type 0
Wins lower k base (some v) up merged = (merged ≡ some v) × SharesName lower k base
Wins lower k base none up merged =
    (SharesName lower k base × (merged ≡ none)) ⊎ ((¬ (SharesName lower k base)) × (merged ≡ up))

first_of-Wins :
    (lower : Text → Text) (k : Text) (base : Headers) (o up merged : Option Text)
    → lookup_header k base ≡ o
    → merged ≡ first_of o (if collides lower k base then none else up)
    → Wins lower k base o up merged
first_of-Wins lower k base (some v) up merged e h = (h, lookup-SharesName lower k v base e)
first_of-Wins lower k base none up merged e h = elim (Bool-cases (collides lower k base)) [
  | inl c ↦ inl (collides-SharesName lower k base c, rw c at h)
  | inr c ↦ inr (λ s. absurd (ground (arith, c, SharesName-collides lower k base s)), rw c at h)
]

-- A header of the base keeps its value in the merged headers. A name that the base has in another
-- case alone is not there, and a name that it has in no case is what it is in the upstream headers.
pub merge_forwarded_headers-lookup_header :
    (lower : Text → Text) (base upstream : Option Headers) (k : Text)
    → Wins lower k
        (headers_of base)
        (lookup_header k (headers_of base))
        (lookup_header k (headers_of upstream))
        (lookup_header k (headers_of (merge_forwarded_headers lower base upstream)))
merge_forwarded_headers-lookup_header lower base upstream k =
    first_of-Wins lower k (headers_of base) (lookup_header k (headers_of base))
      (lookup_header k (headers_of upstream))
      (lookup_header k (headers_of (merge_forwarded_headers lower base upstream))) refl
      (merged-eq lower base upstream k)
