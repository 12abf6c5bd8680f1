-- ===== src/Base/Map.antt =====
-- Go's map as an association list: reading, writing, deleting, and their laws. The order of the
-- entries is the order of one iteration, which Go leaves open.
use pio.Base.Lists.{All}
use pio.Base.Tests.{some_eq}
use mathlib.Core.Path.{◌≡◌, subst}
use mathlib.Core.Logic.{ite}
use mathlib.Core.Option.{Option, none, some}
use mathlib.Core.List.{List, [], ◌∷◌}
use native.Mathlib.Omega.{arith}

abbrev pub Map {ℓ} : Type ℓ → Type ℓ → Type ℓ
Map K V = List (K × V)

module _ {ℓ} {K V : Type ℓ} (dec : Discrete K) where
  -- v, ok := m[k]
  unfoldable pub find : K → Map K V → Option V
  find k [] = none
  find k ((j, v) ∷ m) = ite (dec j k) (some v) (find k m)

  -- delete(m, k)
  unfoldable pub remove : K → Map K V → Map K V
  remove k [] = []
  remove k ((j, v) ∷ m) = let rest = remove k m in ite (dec j k) rest ((j, v) ∷ rest)

  -- m[k] = v
  unfoldable pub put : K → V → Map K V → Map K V
  unfolding remove
  put k v m = (k, v) ∷ remove k m

  pub find-remove : (k j : K) (m : Map K V) → find j (remove k m) ≡ ite (dec k j) none (find j m)
  unfolding find remove
  find-remove k j [] = ground arith
  find-remove k j ((i, v) ∷ m) = ground (arith, find-remove k j m)

  pub find-put :
      (k j : K) (v : V) (m : Map K V) → find j (put k v m) ≡ ite (dec k j) (some v) (find j m)
  unfolding find put
  find-put k j v m = ground (arith, find-remove k j m)

  -- Each key stands once, as in a Go map.
  abbrev pub UniqueKeys : Map K V → Type ℓ
  UniqueKeys [] = Unit
  UniqueKeys ((k, v) ∷ m) = (find k m ≡ none) × UniqueKeys m

  pub remove-UniqueKeys : (k : K) (m : Map K V) → UniqueKeys m → UniqueKeys (remove k m)
  unfolding remove
  remove-UniqueKeys k [] u = tt
  remove-UniqueKeys k ((j, v) ∷ m) u =
      elim (dec j k) as (λ x. UniqueKeys (ite x (remove k m) ((j, v) ∷ remove k m))) [
        | yes p ↦ remove-UniqueKeys k m u.1
        | no p ↦ (rw (find-remove k j m) (ground (arith, u.0)), remove-UniqueKeys k m u.1)
      ]

  pub put-UniqueKeys : (k : K) (v : V) (m : Map K V) → UniqueKeys m → UniqueKeys (put k v m)
  unfolding put
  put-UniqueKeys k v m u = (rw (find-remove k k m) (ground arith), remove-UniqueKeys k m u)

  -- What holds of every reading holds of every entry.
  pub All-find {κ} :
      (P : V → Type κ) (m : Map K V)
      → UniqueKeys m
      → ((k : K) (v : V) → find k m ≡ some v → P v)
      → All (λ e. P e.1) m
  unfolding find
  All-find P [] u h = tt
  All-find P ((k, v) ∷ m) u h =
      (h k v (ground arith), All-find P m u.1 (λ j w e. h j w (ground (arith, u.0))))

  pub find_of_All {κ} :
      (P : V → Type κ) (m : Map K V) (k : K) (v : V) → All (λ e. P e.1) m → find k m ≡ some v → P v
  unfolding find
  find_of_All P [] k v a h = absurd (ground arith)
  find_of_All P ((j, w) ∷ m) k v a h =
      (elim (dec j k) as (λ x. ite x (some w) (find k m) ≡ some v → P v) [
        | yes p ↦ λ e. subst P (some_eq e) a.0
        | no p ↦ λ e. find_of_All P m k v a.1 e
      ])
        h
