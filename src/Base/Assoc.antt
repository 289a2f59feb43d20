-- ===== src/Base/Assoc.antt =====
-- `HashMap` as an association list, by the equality of an order on the keys.
use mathlib.Core.Path.{◌≡◌, refl}
use mathlib.Core.List.{List, [], ◌∷◌}
use mathlib.Core.Option.{Option, none, some}
use native.Mathlib.Omega.{arith}
use pulpitum.Base.Tests.{if◌then◌else◌}
use pulpitum.Base.Ordered.{Order, eqb, eqb_iff, eqb_refl}

abbrev pub Map {ℓ κ} : Type ℓ → Type κ → Type (ℓ ⊔ κ)
Map K V = List (K × V)

module _ {ℓ κ} {K : Type ℓ} {V : Type κ} (o : Order K) where
  unfoldable pub get : K → Map K V → Option V
  get k [] = none
  get k ((j, v) ∷ m) = if eqb o j k then some v else get k m

  -- `HashMap::insert`, and a write through `get_mut` or `entry`.
  unfoldable pub put : K → V → Map K V → Map K V
  put k v [] = (k, v) ∷ []
  put k v ((j, w) ∷ m) = if eqb o j k then (j, v) ∷ m else (j, w) ∷ put k v m

  unfoldable pub remove : K → Map K V → Map K V
  remove k [] = []
  remove k ((j, w) ∷ m) = if eqb o j k then remove k m else (j, w) ∷ remove k m

  pub get-remove_self : (k : K) (m : Map K V) → get k (remove k m) ≡ none
  unfolding get remove
  get-remove_self k [] = refl
  get-remove_self k ((j, w) ∷ m) = ground (arith, get-remove_self k m)

  pub get-put :
      (j k : K) (v : V) (m : Map K V) → get j (put k v m) ≡ (if eqb o k j then some v else get j m)
  unfolding get put
  get-put j k v [] = refl
  get-put j k v ((i, w) ∷ m) = ground (
    arith,
    get-put j k v m,
    (eqb_iff o i k).0,
    (eqb_iff o i j).0,
    (eqb_iff o k j).0,
    eqb_refl o i,
    eqb_refl o j,
  )

  pub get-put_self : (k : K) (v : V) (m : Map K V) → get k (put k v m) ≡ some v
  get-put_self k v m = rw (get-put k k v m, eqb_refl o k)

  -- Writing back what is there changes nothing.
  pub put_self : (k : K) (v : V) (m : Map K V) → get k m ≡ some v → put k v m ≡ m
  unfolding get put
  put_self k v [] h = cc
  put_self k v ((i, w) ∷ m) h = ground (arith, put_self k v m)

  pub get-remove :
      (j k : K) (m : Map K V) → get j (remove k m) ≡ (if eqb o k j then none else get j m)
  unfolding get remove
  get-remove j k [] = ground arith
  get-remove j k ((i, w) ∷ m) =
      ground (arith, get-remove j k m, (eqb_iff o i k).0, (eqb_iff o i j).0, (eqb_iff o k j).0)
