-- ===== src/Base/Sorting.antt =====
-- `slice::sort_by` of the standard library, a stable sort, on a key with a total order.
use Prim.Native.Nat.{ℕ, zero, suc}
use mathlib.Core.Path.{◌≡◌, refl, ap, ◌∙◌}
use mathlib.Core.Logic.{inl, inr}
use mathlib.Core.Bool.{Bool, true, false}
use mathlib.Core.List.{List, [], ◌∷◌, ◌++◌, Perm}
use mathlib.Core.List.Perm
use native.Mathlib.Omega.{arith}
use pulpitum.Base.Tests.{if◌then◌else◌, Bool-cases}
use pulpitum.Base.Lists.{length, take, keep, All, All-keep, All-take}
use pulpitum.Base.Ordered.{Order, less, not-less_trans, less_asym, less_trans}

module _ {ℓ κ} {A : Type ℓ} {K : Type κ} (o : Order K) (key : A → K) where
  -- `a` sorts strictly before `b`.
  abbrev pub before : A → A → Bool
  before a b = less o (key a) (key b)

  -- The new element stands before those with an equal key: in `sort_by` it came before them.
  pub insert : A → List A → List A
  insert x [] = x ∷ []
  insert x (y ∷ ys) = if before y x then y ∷ insert x ys else x ∷ y ∷ ys

  unfoldable pub sort_by : List A → List A
  unfolding insert
  sort_by [] = []
  sort_by (x ∷ xs) = insert x (sort_by xs)

  -- Nothing in the list sorts before `x`.
  abbrev pub IsLower : A → List A → Type 0
  IsLower x = All (λ y. before y x ≡ false)

  abbrev pub IsSorted : List A → Type 0
  IsSorted [] = Unit
  IsSorted (x ∷ xs) = IsLower x xs × IsSorted xs

  IsLower-insert :
      (x y : A) (ys : List A) → before y x ≡ false → IsLower x ys → IsLower x (insert y ys)
  unfolding insert
  IsLower-insert x y [] h l = (h, tt)
  IsLower-insert x y (z ∷ zs) h l = ground (arith, IsLower-insert x y zs h l.1)

  pub IsLower-mono : (x y : A) (ys : List A) → before y x ≡ false → IsLower y ys → IsLower x ys
  IsLower-mono x y [] h l = tt
  IsLower-mono x y (z ∷ zs) h l =
      (not-less_trans o (key x) (key y) (key z) h l.0, IsLower-mono x y zs h l.1)

  insert-IsSorted : (x : A) (ys : List A) → IsSorted ys → IsSorted (insert x ys)
  unfolding insert
  insert-IsSorted x [] s = (tt, tt)
  insert-IsSorted x (y ∷ ys) s = elim (Bool-cases (before y x)) [
    | inl lt ↦
        rw lt (IsLower-insert y x ys (less_asym o (key y) (key x) lt) s.0, insert-IsSorted x ys s.1)
    | inr ge ↦ rw ge ((ge, IsLower-mono x y ys ge s.0), s)
  ]

  -- The result is sorted.
  pub sort_by-IsSorted : (xs : List A) → IsSorted (sort_by xs)
  unfolding sort_by
  sort_by-IsSorted [] = tt
  sort_by-IsSorted (x ∷ xs) = insert-IsSorted x (sort_by xs) (sort_by-IsSorted xs)

  insert-perm : (x : A) (ys : List A) → Perm (insert x ys) (x ∷ ys)
  unfolding insert
  insert-perm x [] = Perm.refl (x ∷ [])
  insert-perm x (y ∷ ys) = elim (Bool-cases (before y x)) [
    | inl lt ↦ rw lt (Perm.trans (Perm.cons y (insert-perm x ys)) (Perm.swap x y ys))
    | inr ge ↦ rw ge (Perm.refl (x ∷ y ∷ ys))
  ]

  -- It holds the same elements, as often.
  pub sort_by-perm : (xs : List A) → Perm (sort_by xs) xs
  unfolding sort_by
  sort_by-perm [] = Perm.refl []
  sort_by-perm (x ∷ xs) = Perm.trans (insert-perm x (sort_by xs)) (Perm.cons x (sort_by-perm xs))

  insert_lower : (x : A) (ys : List A) → IsLower x ys → insert x ys ≡ x ∷ ys
  unfolding insert
  insert_lower x [] l = refl
  insert_lower x (y ∷ ys) l = rw l.0

  -- A sorted list stays as it is.
  pub sort_by_of_IsSorted : (xs : List A) → IsSorted xs → sort_by xs ≡ xs
  unfolding sort_by
  sort_by_of_IsSorted [] s = refl
  sort_by_of_IsSorted (x ∷ xs) s = rw (sort_by_of_IsSorted xs s.1) (insert_lower x xs s.0)

  pub keep-IsSorted : (p : A → Bool) (xs : List A) → IsSorted xs → IsSorted (keep p xs)
  keep-IsSorted p [] s = tt
  keep-IsSorted p (x ∷ xs) s = elim (Bool-cases (p x)) [
    | inl t ↦ rw t (All-keep _ p xs s.0, keep-IsSorted p xs s.1)
    | inr f ↦ rw f (keep-IsSorted p xs s.1)
  ]

  pub take-IsSorted : (n : ℕ) (xs : List A) → IsSorted xs → IsSorted (take n xs)
  take-IsSorted zero xs s = tt
  take-IsSorted (suc n) [] s = tt
  take-IsSorted (suc n) (x ∷ xs) s = (All-take _ n xs s.0, take-IsSorted n xs s.1)

  keep-insert :
      (p : A → Bool) (x : A) (ys : List A)
      → IsSorted ys
      → keep p (insert x ys) ≡ (if p x then insert x (keep p ys) else keep p ys)
  unfolding insert
  keep-insert p x [] s = refl
  keep-insert p x (y ∷ ys) s = elim (Bool-cases (before y x)) [
    | inl lt ↦ ground (arith, keep-insert p x ys s.1)
    | inr ge ↦ ground (
      arith,
      insert_lower x (keep p (y ∷ ys)) (All-keep _ p (y ∷ ys) (ge, IsLower-mono x y ys ge s.0)),
    )
  ]

  -- A filter may run before the sort or after it.
  pub keep-sort_by : (p : A → Bool) (xs : List A) → keep p (sort_by xs) ≡ sort_by (keep p xs)
  unfolding sort_by
  keep-sort_by p [] = refl
  keep-sort_by p (x ∷ xs) =
      ground (arith, keep-insert p x (sort_by xs) (sort_by-IsSorted xs), keep-sort_by p xs)

  -- Elements with different keys may be inserted in either order.
  pub insert_comm :
      (x y : A) (zs : List A) → before x y ≡ true → insert x (insert y zs) ≡ insert y (insert x zs)
  unfolding insert
  insert_comm x y [] h = ground (arith, less_asym o (key x) (key y) h)
  insert_comm x y (z ∷ zs) h = ground (
    arith,
    less_asym o (key x) (key y) h,
    less_trans o (key z) (key x) (key y),
    insert_comm x y zs h,
  )

  insert-All {μ} : (P : A → Type μ) (x : A) (ys : List A) → P x → All P ys → All P (insert x ys)
  unfolding insert
  insert-All P x [] p h = (p, tt)
  insert-All P x (y ∷ ys) p h = elim (Bool-cases (before y x)) [
    | inl lt ↦ rw lt (h.0, insert-All P x ys p h.1)
    | inr ge ↦ rw ge (p, h)
  ]

  pub sort_by-All {μ} : (P : A → Type μ) (xs : List A) → All P xs → All P (sort_by xs)
  unfolding sort_by
  sort_by-All P [] h = tt
  sort_by-All P (x ∷ xs) h = insert-All P x (sort_by xs) h.0 (sort_by-All P xs h.1)

  length-insert : (x : A) (ys : List A) → length (insert x ys) ≡ suc (length ys)
  unfolding insert
  length-insert x [] = refl
  length-insert x (y ∷ ys) = ground (arith, length-insert x ys)

  pub length-sort_by : (xs : List A) → length (sort_by xs) ≡ length xs
  unfolding sort_by
  length-sort_by [] = refl
  length-sort_by (x ∷ xs) = length-insert x (sort_by xs) ∙ ap suc (length-sort_by xs)

module _ {ℓ κ} {A : Type ℓ} {K : Type κ} (o : Order K) (key : A → K) where
  sort_by-insert :
      (x : A) (xs ys : List A)
      → sort_by o key (insert o key x xs ++ ys) ≡ insert o key x (sort_by o key (xs ++ ys))
  unfolding insert sort_by
  sort_by-insert x [] ys = refl
  sort_by-insert x (y ∷ xs) ys = elim (Bool-cases (before o key y x)) [
    | inl lt ↦ rw lt (
        ap (insert o key y) (sort_by-insert x xs ys)
        ∙ insert_comm o key y x (sort_by o key (xs ++ ys)) lt)
    | inr ge ↦ rw ge refl
  ]

  -- To sort a part of a list first makes no difference.
  pub sort_by-append :
      (xs ys : List A) → sort_by o key (sort_by o key xs ++ ys) ≡ sort_by o key (xs ++ ys)
  unfolding sort_by
  sort_by-append [] ys = refl
  sort_by-append (x ∷ xs) ys =
      sort_by-insert x (sort_by o key xs) ys ∙ ap (insert o key x) (sort_by-append xs ys)
