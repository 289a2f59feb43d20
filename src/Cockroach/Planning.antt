-- ===== src/Cockroach/Planning.antt =====
-- What the plan of the schema migrations, src/adapters/cockroach_schema.rs, requires of the history.
use pulpitum.Base.{
  ℕ, ◌≡◌, refl, ap, subst, ◌∙◌, inl, inr, true, false, Option, none, some, List, [], ◌∷◌, ◌++◌, ltb,
  ◌==◌, map, All, arith, Bool-cases,
}
use pulpitum.Cockroach.Migrations.{
  SchemaMigration, planned, panicked, contains, insert_version, or_this, expected_migration,
  check_prefix, unseen,
}

abbrev pub IsAscending : List ℕ → Type 0
IsAscending [] = Unit
IsAscending (v ∷ vs) = All (λ w. ltb v w ≡ true) vs × IsAscending vs

abbrev pub versions : List SchemaMigration → List ℕ
versions ms = map (λ m. m.version) ms

pub below-insert :
    (u v : ℕ) (seen : List ℕ)
    → ltb u v ≡ true
    → All (λ w. ltb u w ≡ true) seen
    → All (λ w. ltb u w ≡ true) (insert_version v seen)
below-insert u v [] h hs = (h, tt)
below-insert u v (w ∷ seen) h hs = elim (Bool-cases (ltb v w)) [
  | inl y ↦ rw y (h, hs)
  | inr n ↦ rw n (hs.0, below-insert u v seen h hs.1)
]

pub below_mono :
    (u v : ℕ) (seen : List ℕ)
    → ltb u v ≡ true
    → All (λ w. ltb v w ≡ true) seen
    → All (λ w. ltb u w ≡ true) seen
below_mono u v [] h hs = tt
below_mono u v (w ∷ seen) h hs = (ground (arith, hs.0), below_mono u v seen h hs.1)

pub insert-IsAscending :
    (v : ℕ) (seen : List ℕ)
    → contains v seen ≡ false
    → IsAscending seen
    → IsAscending (insert_version v seen)
insert-IsAscending v [] new h = (tt, tt)
insert-IsAscending v (w ∷ seen) new h = elim (Bool-cases (ltb v w)) [
  | inl y ↦ rw y ((y, below_mono v w seen y h.0), h)
  | inr n ↦ rw n (
    below-insert w v seen (ground (arith, n, new)) h.0,
    insert-IsAscending v seen (ground (arith, new)) h.1,
  )
]

pub insert-All :
    (P : ℕ → Type 0) (v : ℕ) (seen : List ℕ) → P v → All P seen → All P (insert_version v seen)
insert-All P v [] h hs = (h, tt)
insert-All P v (w ∷ seen) h hs = elim (Bool-cases (ltb v w)) [
  | inl y ↦ rw y (h, hs)
  | inr n ↦ rw n (hs.0, insert-All P v seen h hs.1)
]

pub absent : (v : ℕ) (vs : List ℕ) → All (λ w. ltb v w ≡ true) vs → contains v vs ≡ false
absent v [] h = refl
absent v (w ∷ vs) h = ground (arith, h.0, absent v vs h.1)

-- Versions above the head of the history are in its tail.
known_tail :
    (v : ℕ) (vs ws : List ℕ)
    → All (λ w. ltb v w ≡ true) ws
    → All (λ w. contains w (v ∷ vs) ≡ true) ws
    → All (λ w. contains w vs ≡ true) ws
known_tail v vs [] h hs = tt
known_tail v vs (w ∷ ws) h hs = (ground (arith, h.0, hs.0), known_tail v vs ws h.1 hs.1)

or_this-known :
    (o : Option SchemaMigration) (n m : SchemaMigration) (v : ℕ) (vs : List ℕ)
    → ((k : SchemaMigration) → o ≡ some k → contains v vs ≡ true)
    → or_this o n v ≡ some m
    → contains v (n.version ∷ vs) ≡ true
or_this-known (some k) n m v vs ih h = ground (arith, ih k refl)
or_this-known none n m v vs ih h = ground arith

pub expected-known :
    (ms : List SchemaMigration) (v : ℕ) (m : SchemaMigration)
    → expected_migration ms v ≡ some m
    → contains v (versions ms) ≡ true
expected-known [] v m h = cc
expected-known (n ∷ ms) v m h =
    or_this-known (expected_migration ms v) n m v (versions ms) (expected-known ms v) h

pub check_prefix-panic :
    (seen : List ℕ) (ms : List SchemaMigration)
    → IsAscending seen
    → IsAscending (versions ms)
    → All (λ v. contains v (versions ms) ≡ true) seen
    → ¬ (check_prefix seen ms ≡ panicked)
check_prefix-panic [] ms up ups known h = cc
check_prefix-panic (v ∷ seen) [] up ups known h = ground (arith, known.0)
check_prefix-panic (v ∷ seen) (m ∷ ms) up ups known h = elim (Bool-cases (v == m.version)) [
  | inr n ↦ ground (arith, n, h)
  | inl y ↦
      let same : v ≡ m.version = ground (arith, y) in
      check_prefix-panic seen ms up.1 ups.1
        (known_tail m.version (versions ms) seen
          (subst (λ u. All (λ w. ltb u w ≡ true) seen) same up.0) known.1)
        (ground (arith, y, h))
]

pub prefix_of :
    (seen : List ℕ) (ms : List SchemaMigration)
    → check_prefix seen ms ≡ planned tt
    → (done pending : List SchemaMigration) × (ms ≡ done ++ pending) × (seen ≡ versions done)
prefix_of [] ms h = ([], ms, refl, refl)
prefix_of (v ∷ seen) [] h = cc
prefix_of (v ∷ seen) (m ∷ ms) h = elim (Bool-cases (v == m.version)) [
  | inr n ↦ absurd (ground (arith, n, h))
  | inl y ↦
      let (done, pending, split, same) = prefix_of seen ms (ground (arith, h, y)) in
      let first : v ≡ m.version = ground (arith, y) in
      (
        m ∷ done,
        pending,
        ap (λ l. m ∷ l) split,
        ap (λ u. u ∷ seen) first ∙ ap (λ l. m.version ∷ l) same,
      )
]

unseen_none :
    (seen : List ℕ) (ms : List SchemaMigration)
    → All (λ w. contains w seen ≡ false) (versions ms)
    → unseen seen ms ≡ ms
unseen_none seen [] h = refl
unseen_none seen (m ∷ ms) h = rw (h.0) (ap (λ l. m ∷ l) (unseen_none seen ms h.1))

-- A version above the head is not the head.
absent_later :
    (v : ℕ) (seen : List ℕ) (ms : List SchemaMigration)
    → All (λ w. ltb v w ≡ true) (versions ms)
    → unseen (v ∷ seen) ms ≡ unseen seen ms
absent_later v seen [] h = refl
absent_later v seen (m ∷ ms) h =
    let other : (v == m.version) ≡ false = ground (arith, h.0) in
    rw other (ground (arith, absent_later v seen ms h.1))

pub unseen-prefix :
    (done pending : List SchemaMigration)
    → IsAscending (versions (done ++ pending))
    → unseen (versions done) (done ++ pending) ≡ pending
unseen-prefix [] pending up = unseen_none [] pending (all_absent (versions pending))
  where
    all_absent : (vs : List ℕ) → All (λ w. contains w [] ≡ false) vs
    all_absent [] = tt
    all_absent (v ∷ vs) = (refl, all_absent vs)
unseen-prefix (m ∷ done) pending up =
    let here : (m.version == m.version) ≡ true = ground arith in
    rw here (
      absent_later m.version (versions done) (done ++ pending) up.0
      ∙ unseen-prefix done pending up.1)
