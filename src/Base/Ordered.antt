-- ===== src/Base/Ordered.antt =====
-- Total orders by a comparison, as the derived `Ord` and `Eq` of the source: numbers, pairs and
-- lists lexicographically, and a type through an injective view of it.
use Prim.Native.Nat.{◌<◌, ℕ, compare, Ordering}
use mathlib.Core.Path.{◌≡◌, refl}
use mathlib.Core.Logic.{◌↔◌}
use mathlib.Core.Bool.{Bool, true, false}
use mathlib.Core.List.{List, [], ◌∷◌}
use native.Mathlib.Omega.{arith}

abbrev pub flip : Ordering → Ordering
flip Ordering.lt = Ordering.gt
flip Ordering.eq = Ordering.eq
flip Ordering.gt = Ordering.lt

-- `Ordering::then_with`.
abbrev pub then_with : Ordering → Ordering → Ordering
then_with Ordering.lt o = Ordering.lt
then_with Ordering.eq o = o
then_with Ordering.gt o = Ordering.gt

pub record Order {ℓ} (A : Type ℓ) : Type ℓ where
  pub cmp : A → A → Ordering
  pub cmp_eq : (a b : A) → cmp a b ≡ Ordering.eq → a ≡ b
  pub cmp_refl : (a : A) → cmp a a ≡ Ordering.eq
  pub cmp_flip : (a b : A) → cmp b a ≡ flip (cmp a b)
  pub cmp_trans :
      (a b c : A) → cmp a b ≡ Ordering.lt → cmp b c ≡ Ordering.lt → cmp a c ≡ Ordering.lt

abbrev pub is_lt : Ordering → Bool
is_lt Ordering.lt = true
is_lt _ = false

abbrev pub is_eq : Ordering → Bool
is_eq Ordering.eq = true
is_eq _ = false

module _ {ℓ} {A : Type ℓ} (o : Order A) where
  -- `a == b` and `a < b`.
  abbrev pub eqb : A → A → Bool
  eqb a b = is_eq (o.cmp a b)

  abbrev pub less : A → A → Bool
  less a b = is_lt (o.cmp a b)

  pub eqb_iff : (a b : A) → (eqb a b ≡ true) ↔ (a ≡ b)
  eqb_iff a b = (λ h. ground (arith, o.cmp_eq a b), λ e. ground (arith, o.cmp_refl a))

  pub eqb_refl : (a : A) → eqb a a ≡ true
  eqb_refl a = (eqb_iff a a).1 refl

  pub eqb_sym : (a b : A) → eqb a b ≡ eqb b a
  eqb_sym a b = ground (arith, o.cmp_flip a b)

  pub less_irrefl : (a : A) → less a a ≡ false
  less_irrefl a = ground (arith, o.cmp_refl a)

  pub less_trans : (a b c : A) → less a b ≡ true → less b c ≡ true → less a c ≡ true
  less_trans a b c h k = ground (arith, o.cmp_trans a b c)

  -- `a ≤ b` is that `b < a` fails.
  pub not-less_trans : (a b c : A) → less b a ≡ false → less c b ≡ false → less c a ≡ false
  not-less_trans a b c h k = ground (
    arith,
    o.cmp_trans b c a,
    o.cmp_trans c a b,
    o.cmp_trans a b c,
    o.cmp_flip a b,
    o.cmp_flip b c,
    o.cmp_flip a c,
    o.cmp_eq a b,
    o.cmp_eq b c,
    o.cmp_eq c a,
    o.cmp_eq a c,
    o.cmp_refl a,
  )

  pub less_asym : (a b : A) → less a b ≡ true → less b a ≡ false
  less_asym a b h = ground (arith, o.cmp_flip a b)

  pub less_connex : (a b : A) → less a b ≡ false → less b a ≡ false → a ≡ b
  less_connex a b h k = ground (arith, o.cmp_flip a b, o.cmp_eq a b)

pub compare_eq : (a b : ℕ) → compare a b ≡ Ordering.eq → a ≡ b
compare_eq a b h = ground arith

pub compare_refl : (a : ℕ) → compare a a ≡ Ordering.eq
compare_refl a = ground arith

pub compare-flip : (a b : ℕ) → compare b a ≡ flip (compare a b)
compare-flip a b = ground arith

pub compare_trans :
    (a b c : ℕ) → compare a b ≡ Ordering.lt → compare b c ≡ Ordering.lt → compare a c ≡ Ordering.lt
compare_trans a b c h k = ground arith

pub compare_lt : (a b : ℕ) → a < b → compare a b ≡ Ordering.lt
compare_lt a b h = ground arith

abbrev pub nat_order : Order ℕ
nat_order = record {
  cmp = compare;
  cmp_eq = compare_eq;
  cmp_refl = compare_refl;
  cmp_flip = compare-flip;
  cmp_trans = compare_trans;
}

module _ {ℓ} {A : Type ℓ} (o : Order A) where
  unfoldable pub cmp_list : List A → List A → Ordering
  cmp_list [] [] = Ordering.eq
  cmp_list [] (y ∷ ys) = Ordering.lt
  cmp_list (x ∷ xs) [] = Ordering.gt
  cmp_list (x ∷ xs) (y ∷ ys) = then_with (o.cmp x y) (cmp_list xs ys)

  pub cmp_list_eq : (xs ys : List A) → cmp_list xs ys ≡ Ordering.eq → xs ≡ ys
  unfolding cmp_list
  cmp_list_eq [] [] h = refl
  cmp_list_eq [] (y ∷ ys) h = cc
  cmp_list_eq (x ∷ xs) [] h = cc
  cmp_list_eq (x ∷ xs) (y ∷ ys) h = ground (arith, o.cmp_eq x y, cmp_list_eq xs ys)

  pub cmp_list_refl : (xs : List A) → cmp_list xs xs ≡ Ordering.eq
  unfolding cmp_list
  cmp_list_refl [] = refl
  cmp_list_refl (x ∷ xs) = rw (o.cmp_refl x) (cmp_list_refl xs)

  pub cmp_list-flip : (xs ys : List A) → cmp_list ys xs ≡ flip (cmp_list xs ys)
  unfolding cmp_list
  cmp_list-flip [] [] = refl
  cmp_list-flip [] (y ∷ ys) = refl
  cmp_list-flip (x ∷ xs) [] = refl
  cmp_list-flip (x ∷ xs) (y ∷ ys) = ground (arith, o.cmp_flip x y, cmp_list-flip xs ys)

  pub cmp_list_trans :
      (xs ys zs : List A)
      → cmp_list xs ys ≡ Ordering.lt
      → cmp_list ys zs ≡ Ordering.lt
      → cmp_list xs zs ≡ Ordering.lt
  unfolding cmp_list
  cmp_list_trans [] [] zs h k = cc
  cmp_list_trans [] (y ∷ ys) [] h k = cc
  cmp_list_trans [] (y ∷ ys) (z ∷ zs) h k = refl
  cmp_list_trans (x ∷ xs) [] zs h k = cc
  cmp_list_trans (x ∷ xs) (y ∷ ys) [] h k = cc
  cmp_list_trans (x ∷ xs) (y ∷ ys) (z ∷ zs) h k =
      ground (
        arith,
        o.cmp_trans x y z,
        o.cmp_eq x y,
        o.cmp_eq y z,
        o.cmp_refl y,
        cmp_list_trans xs ys zs,
      )

  abbrev pub list_order : Order (List A)
  list_order = record {
    cmp = cmp_list;
    cmp_eq = cmp_list_eq;
    cmp_refl = cmp_list_refl;
    cmp_flip = cmp_list-flip;
    cmp_trans = cmp_list_trans;
  }

module _ {ℓ κ} {A : Type ℓ} {B : Type κ} (o : Order A) (p : Order B) where
  abbrev pub cmp_pair : A × B → A × B → Ordering
  cmp_pair (a, b) (c, d) = then_with (o.cmp a c) (p.cmp b d)

  pub cmp_pair_eq : (x y : A × B) → cmp_pair x y ≡ Ordering.eq → x ≡ y
  cmp_pair_eq (a, b) (c, d) h = ground (arith, o.cmp_eq a c, p.cmp_eq b d)

  pub cmp_pair_refl : (x : A × B) → cmp_pair x x ≡ Ordering.eq
  cmp_pair_refl (a, b) = rw (o.cmp_refl a) (p.cmp_refl b)

  pub cmp_pair-flip : (x y : A × B) → cmp_pair y x ≡ flip (cmp_pair x y)
  cmp_pair-flip (a, b) (c, d) = ground (arith, o.cmp_flip a c, p.cmp_flip b d)

  pub cmp_pair_trans :
      (x y z : A × B)
      → cmp_pair x y ≡ Ordering.lt
      → cmp_pair y z ≡ Ordering.lt
      → cmp_pair x z ≡ Ordering.lt
  cmp_pair_trans (a, b) (c, d) (e, f) h k =
      ground (arith, o.cmp_trans a c e, o.cmp_eq a c, o.cmp_eq c e, o.cmp_refl c, p.cmp_trans b d f)

  abbrev pub pair_order : Order (A × B)
  pair_order = record {
    cmp = cmp_pair;
    cmp_eq = cmp_pair_eq;
    cmp_refl = cmp_pair_refl;
    cmp_flip = cmp_pair-flip;
    cmp_trans = cmp_pair_trans;
  }

-- The order of a struct that derives `Ord`: that of the tuple of its fields.
abbrev pub order_by {ℓ κ} :
    {A : Type ℓ} {B : Type κ} (f : A → B) → ((a b : A) → f a ≡ f b → a ≡ b) → Order B → Order A
order_by f injective o = record {
  cmp = λ a b. o.cmp (f a) (f b);
  cmp_eq = λ a b h. injective a b (o.cmp_eq (f a) (f b) h);
  cmp_refl = λ a. o.cmp_refl (f a);
  cmp_flip = λ a b. o.cmp_flip (f a) (f b);
  cmp_trans = λ a b c. o.cmp_trans (f a) (f b) (f c);
}
