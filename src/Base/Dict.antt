-- ===== src/Base/Dict.antt =====
-- Python's `dict` with integer keys, as an association list behind its laws. The program never
-- iterates over these dicts, so the order of entries is not modelled.
use mathlib.Core.Path.{◌≡◌, refl}
use mathlib.Core.Logic.{◌⊎◌}
use mathlib.Core.Option.{Option, none, some}
use mathlib.Core.List.{List, [], ◌∷◌}
use native.Mathlib.Omega.{arith}
use luthien_proxy.Base.Tests.{if◌then◌else◌}
use luthien_proxy.Base.Int.{ℤ, ◌==ℤ◌, ==ℤ_iff}

module _ {ℓ} {V : Type ℓ} where
  lookup : ℤ → List (ℤ × V) → Option V
  lookup k [] = none
  lookup k ((j, v) ∷ m) = if j ==ℤ k then some v else lookup k m

  without : ℤ → List (ℤ × V) → List (ℤ × V)
  without k [] = []
  without k ((j, v) ∷ m) = let rest = without k m in if j ==ℤ k then rest else (j, v) ∷ rest

  lookup-without :
      (k j : ℤ) (m : List (ℤ × V)) → lookup j (without k m) ≡ (if k ==ℤ j then none else lookup j m)
  unfolding lookup without
  lookup-without k j [] = ground arith
  lookup-without k j ((i, v) ∷ m) =
      ground (arith, lookup-without k j m, ==ℤ_iff i k, ==ℤ_iff i j, ==ℤ_iff k j)

pub record Dict {ℓ} (V : Type ℓ) : Type ℓ where
  entries : List (ℤ × V)

module _ {ℓ} {V : Type ℓ} where
  unfoldable pub empty : Dict V
  empty = record { entries = [] }

  -- d.get(k)
  unfoldable pub get : Dict V → ℤ → Option V
  unfolding lookup
  get d k = lookup k d.entries

  -- d.pop(k, None)
  unfoldable pub remove : Dict V → ℤ → Dict V
  unfolding without
  remove d k = record { entries = without k d.entries }

  -- d[k] = v
  unfoldable pub put : Dict V → ℤ → V → Dict V
  unfolding without
  put d k v = record { entries = (k, v) ∷ without k d.entries }

  pub get-remove : (d : Dict V) (k j : ℤ) → get (remove d k) j ≡ (if k ==ℤ j then none else get d j)
  unfolding get remove
  get-remove d k j = lookup-without k j d.entries

  pub get-put :
      (d : Dict V) (k j : ℤ) (v : V) → get (put d k v) j ≡ (if k ==ℤ j then some v else get d j)
  unfolding get put
  get-put d k j v = ground (arith, lookup-without k j d.entries)

module _ {ℓ} {V : Type ℓ} where
  pub put-cases :
      (d : Dict V) (k j : ℤ) (v w : V)
      → get (put d k v) j ≡ some w
      → ((j ≡ k) × (w ≡ v)) ⊎ (get d j ≡ some w)
  put-cases d k j v w h = ground (arith, get-put d k j v, ==ℤ_iff k j)

  pub remove-some : (d : Dict V) (k j : ℤ) (w : V) → get (remove d k) j ≡ some w → get d j ≡ some w
  remove-some d k j w h = ground (arith, get-remove d k j)

pub get-empty {ℓ} : {V : Type ℓ} (k : ℤ) → get (empty {V = V}) k ≡ none
unfolding get empty
get-empty k = refl

pub ruleset dict_laws = (get-empty, get-remove, get-put)
