-- ===== src/Base/Blocks.antt =====
-- Lists that are put together from blocks: their sort and their prefixes. Blocks whose keys are
-- separated may be sorted in any order of arrival.
use Prim.Native.Nat.{ℕ, zero, suc, ◌≤◌}
use mathlib.Core.Path.{◌≡◌, refl, ap, ◌∙◌}
use mathlib.Core.Bool.{true}
use mathlib.Core.List.{List, [], ◌∷◌, ◌++◌}
use native.Mathlib.Omega.{arith}
use pulpitum.Base.Lists.{length, take, All, All-append, All-map, length-append, length-take}
use pulpitum.Base.Ordered.{Order, less_asym}
use pulpitum.Base.Sorting.{before, insert, insert_comm, sort_by, IsSorted}

-- `Iterator::flat_map`.
abbrev pub flat {ℓ κ} : {A : Type ℓ} {B : Type κ} → (B → List A) → List B → List A
flat g [] = []
flat g (b ∷ bs) = g b ++ flat g bs

abbrev pub Pairwise {κ} : {B : Type κ} → (B → B → Type 0) → List B → Type κ
Pairwise R [] = Unit
Pairwise R (b ∷ bs) = All (R b) bs × Pairwise R bs

module _ {ℓ} {A : Type ℓ} where
  take-append_take :
      (n m : ℕ) (xs ys : List A) → n ≤ m → take n (take m xs ++ ys) ≡ take n (xs ++ ys)
  take-append_take zero m xs ys h = refl
  take-append_take (suc n) zero xs ys h = absurd (omega arith)
  take-append_take (suc n) (suc m) [] ys h = refl
  take-append_take (suc n) (suc m) (x ∷ xs) ys h =
      ap (◌∷◌ x) (take-append_take n m xs ys (omega arith))

  take-append :
      (n : ℕ) (xs ys zs : List A)
      → ((k : ℕ) → k ≤ n → take k ys ≡ take k zs)
      → take n (xs ++ ys) ≡ take n (xs ++ zs)
  take-append n [] ys zs h = h n (omega arith)
  take-append zero (x ∷ xs) ys zs h = refl
  take-append (suc n) (x ∷ xs) ys zs h =
      ap (◌∷◌ x) (take-append n xs ys zs (λ k le. h k (omega arith)))

  -- A prefix of the blocks needs no more than a prefix of each.
  pub take-flat-take {κ} :
      {B : Type κ} (g : B → List A) (bs : List B) (n m : ℕ)
      → n ≤ m
      → take n (flat (λ b. take m (g b)) bs) ≡ take n (flat g bs)
  take-flat-take g [] n m h = refl
  take-flat-take g (b ∷ bs) n m h =
      take-append_take n m (g b) _ h
      ∙ take-append n (g b) _ _ (λ k le. take-flat-take g bs k m (omega arith))

  pub length-flat-take-le {κ} :
      {B : Type κ} (g : B → List A) (bs : List B) (m : ℕ)
      → length (flat (λ b. take m (g b)) bs) ≤ length (flat g bs)
  length-flat-take-le g [] m = omega arith
  length-flat-take-le g (b ∷ bs) m = omega (
    arith,
    length-append (take m (g b)) (flat (λ x. take m (g x)) bs),
    length-append (g b) (flat g bs),
    length-take m (g b),
    length-flat-take-le g bs m,
  )

module _ {ℓ κ} {A : Type ℓ} {K : Type κ} (o : Order K) (key : A → K) where
  -- All of one list sorts strictly before all of the other.
  abbrev pub Apart : List A → List A → Type 0
  Apart xs ys = All (λ x. All (λ y. before o key x y ≡ true) ys) xs

  move :
      (x : A) (ys zs : List A)
      → All (λ y. before o key x y ≡ true) ys
      → sort_by o key (x ∷ (ys ++ zs)) ≡ sort_by o key (ys ++ (x ∷ zs))
  unfolding sort_by
  move x [] zs h = refl
  move x (y ∷ ys) zs h =
      insert_comm o key x y (sort_by o key (ys ++ zs)) h.0 ∙ ap (insert o key y) (move x ys zs h.1)

  -- What sorts alike still does behind the same elements.
  pub sort_by-prefix :
      (acc ys zs : List A)
      → sort_by o key ys ≡ sort_by o key zs
      → sort_by o key (acc ++ ys) ≡ sort_by o key (acc ++ zs)
  unfolding sort_by
  sort_by-prefix [] ys zs h = h
  sort_by-prefix (x ∷ acc) ys zs h = ap (insert o key x) (sort_by-prefix acc ys zs h)

  -- Two separated blocks may arrive in either order.
  pub sort_by-swap :
      (xs ys zs : List A)
      → Apart xs ys
      → sort_by o key (xs ++ (ys ++ zs)) ≡ sort_by o key (ys ++ (xs ++ zs))
  unfolding sort_by
  sort_by-swap [] ys zs h = refl
  sort_by-swap (x ∷ xs) ys zs h =
      ap (insert o key x) (sort_by-swap xs ys zs h.1) ∙ move x ys (xs ++ zs) h.0

  IsSorted-append :
      (xs ys : List A)
      → IsSorted o key xs
      → IsSorted o key ys
      → Apart xs ys
      → IsSorted o key (xs ++ ys)
  IsSorted-append [] ys s t h = t
  IsSorted-append (x ∷ xs) ys s t h = (
    All-append _ xs ys s.0
        (All-map (λ y. before o key x y ≡ true) _ (λ y k. less_asym o (key x) (key y) k) ys h.0),
    IsSorted-append xs ys s.1 t h.1,
  )

  Apart-append : (xs ys zs : List A) → Apart xs ys → Apart xs zs → Apart xs (ys ++ zs)
  Apart-append [] ys zs h k = tt
  Apart-append (x ∷ xs) ys zs h k = (All-append _ ys zs h.0 k.0, Apart-append xs ys zs h.1 k.1)

  Apart-nil : (xs : List A) → Apart xs []
  Apart-nil [] = tt
  Apart-nil (x ∷ xs) = (tt, Apart-nil xs)

  module _ {β} {B : Type β} (g : B → List A) where
    Apart-flat : (xs : List A) (bs : List B) → All (λ b. Apart xs (g b)) bs → Apart xs (flat g bs)
    Apart-flat xs [] h = Apart-nil xs
    Apart-flat xs (b ∷ bs) h = Apart-append xs (g b) (flat g bs) h.0 (Apart-flat xs bs h.1)

    -- Sorted blocks in the order of their keys are a sorted list.
    pub flat-IsSorted :
        (bs : List B)
        → All (λ b. IsSorted o key (g b)) bs
        → Pairwise (λ a b. Apart (g a) (g b)) bs
        → IsSorted o key (flat g bs)
    flat-IsSorted [] s p = tt
    flat-IsSorted (b ∷ bs) s p =
        IsSorted-append (g b) (flat g bs) s.0 (flat-IsSorted bs s.1 p.1) (Apart-flat (g b) bs p.0)
