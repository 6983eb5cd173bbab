-- ===== src/Text/Laws.antt =====
-- The lemmas on the methods of `str`.
use luthien_proxy.Base.{
  ℕ, ◌≡◌, ◌↔◌, inl, inr, refl, sym, ap, ◌∙◌, true, false, ◌||◌, List, [], ◌∷◌, ◌++◌, arith, ◌==◌,
  is_nil, ==_iff, Bool-cases,
}
use luthien_proxy.Text.{
  Text, text_eq, starts_with, includes, has_char, replace_char, onto_first, split_on, join,
  count_from,
}

pub text_eq_iff : (s t : Text) → (text_eq s t ≡ true) ↔ (s ≡ t)
unfolding text_eq
text_eq_iff [] [] = ground arith
text_eq_iff [] (d ∷ t) = ground arith
text_eq_iff (c ∷ s) [] = ground arith
text_eq_iff (c ∷ s) (d ∷ t) = ground (arith, ==_iff c d, text_eq_iff s t)

pub text_eq_refl : (s : Text) → text_eq s s ≡ true
text_eq_refl s = (text_eq_iff s s).1 refl

pub starts_with-append : (p s : Text) → starts_with (p ++ s) p ≡ true
unfolding starts_with
starts_with-append [] s = refl
starts_with-append (c ∷ p) s = ground (arith, starts_with-append p s)

pub includes_of_starts_with : (p s : Text) → starts_with s p ≡ true → includes p s ≡ true
unfolding includes starts_with
includes_of_starts_with [] [] h = refl
includes_of_starts_with (d ∷ p) [] h = ground arith
includes_of_starts_with p (c ∷ s) h = rw h refl

pub includes-append_left : (p s : Text) → includes p (p ++ s) ≡ true
includes-append_left p s = includes_of_starts_with p (p ++ s) (starts_with-append p s)

pub has_char-append : (c : ℕ) (s t : Text) → has_char c (s ++ t) ≡ (has_char c s || has_char c t)
unfolding has_char
has_char-append c [] t = refl
has_char-append c (d ∷ s) t = ground (arith, has_char-append c s t)

pub split_on-no_char : (c : ℕ) (s : Text) → has_char c s ≡ false → split_on c s ≡ s ∷ []
unfolding split_on has_char onto_first
split_on-no_char c [] h = refl
split_on-no_char c (d ∷ s) h =
    let rest = split_on-no_char c s (ground arith) in
    let here : (d == c) ≡ false = ground arith in rw (here, rest) refl

pub split_on-append :
    (c : ℕ) (s t : Text) → has_char c s ≡ false → split_on c (s ++ (c ∷ t)) ≡ s ∷ split_on c t
unfolding split_on has_char onto_first
split_on-append c [] t h = let here : (c == c) ≡ true = ground arith in rw here refl
split_on-append c (d ∷ s) t h =
    let rest = split_on-append c s t (ground arith) in
    let here : (d == c) ≡ false = ground arith in rw (here, rest) refl

pub append_assoc : (s t u : Text) → (s ++ t) ++ u ≡ s ++ (t ++ u)
append_assoc [] t u = refl
append_assoc (c ∷ s) t u = ap (λ x. c ∷ x) (append_assoc s t u)

join-onto_first :
    (c d : ℕ) (ps : List Text) → join (c ∷ []) (onto_first d ps) ≡ d ∷ join (c ∷ []) ps
unfolding join onto_first
join-onto_first c d [] = refl
join-onto_first c d (p ∷ []) = refl
join-onto_first c d (p ∷ q ∷ ps) = refl

onto_first-cons :
    (d : ℕ) (ps : List Text) → (q : Text) × (qs : List Text) × (onto_first d ps ≡ q ∷ qs)
unfolding onto_first
onto_first-cons d [] = (d ∷ [], [], refl)
onto_first-cons d (p ∷ ps) = (d ∷ p, ps, refl)

split_on-cons : (c : ℕ) (s : Text) → (p : Text) × (ps : List Text) × (split_on c s ≡ p ∷ ps)
unfolding split_on
split_on-cons c [] = ([], [], refl)
split_on-cons c (d ∷ s) = elim (Bool-cases (d == c)) [
  | inl e ↦ ([], split_on c s, rw (e, split_on) refl)
  | inr e ↦
      let found = onto_first-cons d (split_on c s) in (found.0, found.1, rw (e, split_on) (found.2))
]

join-nil_cons :
    (c : ℕ) (s : Text) → join (c ∷ []) ([] ∷ split_on c s) ≡ c ∷ join (c ∷ []) (split_on c s)
unfolding join
join-nil_cons c s = let found = split_on-cons c s in rw (found.2) refl

-- Splitting and joining gives the text back.
pub join-split_on : (c : ℕ) (s : Text) → join (c ∷ []) (split_on c s) ≡ s
unfolding split_on join
join-split_on c [] = refl
join-split_on c (d ∷ s) = elim (Bool-cases (d == c)) [
  | inl e ↦
      let same : d ≡ c = (==_iff d c).0 e in
      rw (e, split_on) (rw (same, join-nil_cons c s, join-split_on c s) refl)
  | inr e ↦
      rw (e, split_on) (join-onto_first c d (split_on c s) ∙ ap (λ x. d ∷ x) (join-split_on c s))
]

pub is_nil-append_cons : (s : Text) (c : ℕ) (t : Text) → is_nil (s ++ (c ∷ t)) ≡ false
is_nil-append_cons [] c t = refl
is_nil-append_cons (d ∷ s) c t = refl

pub replace_char-append :
    (c : ℕ) (new s t : Text)
    → replace_char c new (s ++ t) ≡ replace_char c new s ++ replace_char c new t
unfolding replace_char
replace_char-append c new [] t = refl
replace_char-append c new (d ∷ s) t = elim (Bool-cases (d == c)) [
  | inl e ↦
      rw (e, replace_char)
        (ap (λ x. new ++ x) (replace_char-append c new s t) ∙ sym (append_assoc new _ _))
  | inr e ↦ rw (e, replace_char) (ap (λ x. d ∷ x) (replace_char-append c new s t))
]

pub append_nil : (s : Text) → s ++ [] ≡ s
append_nil [] = refl
append_nil (c ∷ s) = ap (λ x. c ∷ x) (append_nil s)

starts_with-append_right : (p s t : Text) → starts_with s p ≡ true → starts_with (s ++ t) p ≡ true
unfolding starts_with
starts_with-append_right [] s t h = refl
starts_with-append_right (d ∷ p) [] t h = absurd (ground arith)
starts_with-append_right (d ∷ p) (c ∷ s) t h = ground (arith, h, starts_with-append_right p s t)

-- What does not occur in a text does not occur in a part of it.
pub includes-append_prefix : (p s t : Text) → includes p (s ++ t) ≡ false → includes p s ≡ false
unfolding includes
includes-append_prefix [] [] [] h = h
includes-append_prefix [] [] (d ∷ t) h = absurd (ground arith)
includes-append_prefix (c ∷ p) [] t h = refl
includes-append_prefix p (c ∷ s) t h =
    ground (arith, h, starts_with-append_right p (c ∷ s) t, includes-append_prefix p s t)

pub includes-append_suffix : (p s t : Text) → includes p (s ++ t) ≡ false → includes p t ≡ false
unfolding includes
includes-append_suffix p [] t h = h
includes-append_suffix p (c ∷ s) t h = ground (arith, h, includes-append_suffix p s t)

pub count_from-no_match : (p s : Text) → includes p s ≡ false → count_from p 0 s ≡ 0
unfolding includes count_from
count_from-no_match p [] h = refl
count_from-no_match p (c ∷ s) h = ground (arith, h, count_from-no_match p s)
