-- ===== src/Archive/Generations.antt =====
-- The objects of `InMemoryArchiveStore` of src/ports/storage.rs: each generation of a bucket has
-- its own.
use pulpitum.Base.{
  ℕ, zero, suc, ◌+◌, ◌-◌, ◌*◌, ◌/◌, ◌%◌, ◌<◌, ◌≡◌, ◌≢◌, refl, sym, ap, ◌∙◌, subst, inl, inr, List,
  [], ◌∷◌, ◌++◌, arith, ltb, All, put, get-put, eqb, eqb_iff, Bool-cases,
}
use pulpitum.Base.Text.{Text, text_order, codes, decimal, decimal_from}
use pulpitum.Domain.Model.{BucketId, Record}
use pulpitum.Archive.Port.{ok, Belongs}
use pulpitum.Archive.Memory.{
  Objects, bucket_path, generation_path, put_bucket_generation, get_bucket, stored_read,
}

-- The number that digits continue.
continued : ℕ → Text → ℕ
continued n [] = n
continued n (c ∷ text) = continued (10 * n + (c - b'0')) text

continued-inj : (m n : ℕ) (text : Text) → continued m text ≡ continued n text → m ≡ n
unfolding continued
continued-inj m n [] h = h
continued-inj m n (c ∷ text) h =
    let below : 10 * m + (c - b'0') ≡ 10 * n + (c - b'0') =
      continued-inj (10 * m + (c - b'0')) (10 * n + (c - b'0')) text h in
    omega (arith, below)

continued-decimal_from :
    (fuel n : ℕ) (out : Text) → n < fuel → continued 0 (decimal_from fuel n out) ≡ continued n out
unfolding continued decimal_from
continued-decimal_from zero n out h = absurd (omega (arith, h))
continued-decimal_from (suc fuel) n out h = elim (Bool-cases (ltb n 10)) [
  | inl y ↦ rw y (ap (λ k. continued k out) (omega arith))
  | inr x ↦
      let smaller : n / 10 < fuel = ground (arith, x, h) in
      rw x (
        continued-decimal_from fuel (n / 10) ((b'0' + n % 10) ∷ out) smaller
        ∙ ap (λ k. continued k out) (omega arith))
]

decimal_from-append :
    (fuel n : ℕ) (out rest : Text)
    → decimal_from fuel n out ++ rest ≡ decimal_from fuel n (out ++ rest)
unfolding decimal_from
decimal_from-append zero n out rest = refl
decimal_from-append (suc fuel) n out rest = elim (Bool-cases (ltb n 10)) [
  | inl y ↦ rw y refl
  | inr x ↦ rw x (decimal_from-append fuel (n / 10) ((b'0' + n % 10) ∷ out) rest)
]

-- A number in digits, before any text, is read off.
decimal-inj : (m n : ℕ) (rest : Text) → decimal m ++ rest ≡ decimal n ++ rest → m ≡ n
unfolding decimal
decimal-inj m n rest h = continued-inj m n rest (sym (value m) ∙ (ap (continued 0) h ∙ value n))
  where
    value : (k : ℕ) → continued 0 (decimal k ++ rest) ≡ continued k rest
    value k =
        ap (continued 0) (decimal_from-append (k + 1) k [] rest)
        ∙ continued-decimal_from (k + 1) k rest (omega arith)

same_rest : (front xs ys : Text) → front ++ xs ≡ front ++ ys → xs ≡ ys
same_rest [] xs ys h = h
same_rest (c ∷ front) xs ys h = same_rest front xs ys (tail h)
  where
    tail : {a b : Text} → c ∷ a ≡ c ∷ b → a ≡ b
    tail e = cc

generation_path-inj : (b : BucketId) (m n : ℕ) → generation_path b m ≡ generation_path b n → m ≡ n
unfolding generation_path
generation_path-inj b m n h =
    decimal-inj m n (codes "/data.json")
      (same_rest (codes "/generation-") _ _ (same_rest (bucket_path b) _ _ h))

-- Uploads of a bucket's records under some generations, one after the other.
pub upload_all : BucketId → List (ℕ × List Record) → Objects → Objects
upload_all b [] objects = objects
upload_all b ((g, rs) ∷ more) objects = upload_all b more (put_bucket_generation b g rs objects).0

get-upload_all :
    (b : BucketId) (g : ℕ) (rs : List Record) (more : List (ℕ × List Record)) (objects : Objects)
    → All (λ upload. g ≢ upload.0) more
    → (get_bucket b (generation_path b g) objects).1 ≡ ok rs
    → (get_bucket b (generation_path b g) (upload_all b more objects)).1 ≡ ok rs
unfolding upload_all get_bucket put_bucket_generation
get-upload_all b g rs [] objects apart h = h
get-upload_all b g rs ((n, new) ∷ more) objects apart h =
    get-upload_all b g rs more (put text_order (generation_path b n) new objects) apart.1
      (elim (Bool-cases (eqb text_order (generation_path b n) (generation_path b g))) [
        | inl same ↦ absurd (
            apart.0 (
              sym (
                generation_path-inj b n g
                  ((eqb_iff text_order (generation_path b n) (generation_path b g)).0 same))))
        | inr differ ↦
            rw (get-put text_order (generation_path b g) (generation_path b n) new objects, differ)
              h
      ])

-- What a generation has stored for a bucket is read back under the key that it was given, also
-- after any uploads for the bucket under other generations: an upload by an owner of another
-- generation does not replace an object that may have been published.
pub get_bucket-upload_all :
    (b : BucketId) (g : ℕ) (rs : List Record) (more : List (ℕ × List Record)) (objects : Objects)
    (key : Text)
    → All (Belongs b) rs
    → All (λ upload. g ≢ upload.0) more
    → (put_bucket_generation b g rs objects).1 ≡ ok key
    → (get_bucket b key (upload_all b more (put_bucket_generation b g rs objects).0)).1 ≡ ok rs
unfolding put_bucket_generation
get_bucket-upload_all b g rs more objects key own apart put_ok =
    let same : generation_path b g ≡ key = ground (arith, put_ok) in
    subst
      (λ k. (get_bucket b k (upload_all b more (put_bucket_generation b g rs objects).0)).1 ≡ ok rs)
      same
      (get-upload_all b g rs more (put text_order (generation_path b g) rs objects) apart
        (stored_read b (generation_path b g) rs objects own))
