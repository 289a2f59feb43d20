-- ===== src/Table/Join/Order.antt =====
-- The order in which the reads of `read_buckets` (src/application/durable_table.rs) finish does not
-- show in their sorted result.
use pulpitum.Base.{
  ℕ, zero, suc, ◌≤◌, Option, ◌≡◌, refl, sym, ap, subst, ◌∙◌, false, List, [], ◌∷◌, ◌++◌, arith,
  take, drop, length, All, Pairwise, Apart, flat, sort_by, sort_by-prefix, sort_by-swap,
  append_assoc, length-append, append_nil, take-append-drop,
}
use pulpitum.Domain.Model.{BucketId, Record, Cursor, TimeRange, key_order, record_key}
use pulpitum.Archive.Port.{ArchiveStore}
use pulpitum.Archive.Coordinator.{World}
use pulpitum.Table.Read.{TableResult, ok, err, read_bucket}
use pulpitum.Table.Join.{
  Join, take_out, spawn_next, before_join, joined, finished, join_reads, read_buckets,
}

take_out-All :
    (P : BucketId → Type 0) (k : ℕ) (b : BucketId) (bs ws : List BucketId)
    → All P (b ∷ (bs ++ ws))
    → P (take_out k b bs).0 × All P ((take_out k b bs).1 ++ ws)
take_out-All P k b [] ws h = h
take_out-All P zero b (c ∷ cs) ws h = h
take_out-All P (suc k) b (c ∷ cs) ws h =
    let (p, rest) = take_out-All P k c cs ws h.1 in (p, (h.0, rest))

take_out-Pairwise :
    (R : BucketId → BucketId → Type 0) (k : ℕ) (b : BucketId) (bs ws : List BucketId)
    → Pairwise R (b ∷ (bs ++ ws))
    → Pairwise R ((take_out k b bs).1 ++ ws)
take_out-Pairwise R k b [] ws h = h.1
take_out-Pairwise R zero b (c ∷ cs) ws h = h.1
take_out-Pairwise R (suc k) b (c ∷ cs) ws h =
    ((take_out-All (R b) k c cs ws h.0).1, take_out-Pairwise R k c cs ws h.1)

length-take_out :
    (k : ℕ) (b : BucketId) (bs ws : List BucketId)
    → length ((take_out k b bs).1 ++ ws) ≡ length (bs ++ ws)
length-take_out k b [] ws = refl
length-take_out zero b (c ∷ cs) ws = refl
length-take_out (suc k) b (c ∷ cs) ws = omega (arith, length-take_out k c cs ws)

spawn_next_lem : (f w : List BucketId) → (spawn_next f w).0 ++ (spawn_next f w).1 ≡ f ++ w
spawn_next_lem f [] = refl
spawn_next_lem f (b ∷ w) = append_assoc f (b ∷ []) w

-- The reads run dry only when no bucket waits.
spawn_next_full : (f w : List BucketId) → length (spawn_next f w).0 ≡ 0 → (spawn_next f w).1 ≡ []
spawn_next_full f [] h = refl
spawn_next_full f (b ∷ w) h = absurd (omega (arith, length-append f (b ∷ [])))

module _ (g : BucketId → List Record) where
  abbrev pub Separated : BucketId → BucketId → Type 0
  Separated a b = Apart key_order record_key (g a) (g b)

  -- A read that finishes early may as well have come first.
  take_out-sort :
      (k : ℕ) (b : BucketId) (bs ws : List BucketId)
      → Pairwise Separated (b ∷ (bs ++ ws))
      → sort_by key_order record_key (flat g (b ∷ (bs ++ ws)))
        ≡ sort_by key_order record_key (g (take_out k b bs).0 ++ flat g ((take_out k b bs).1 ++ ws))
  take_out-sort k b [] ws h = refl
  take_out-sort zero b (c ∷ cs) ws h = refl
  take_out-sort (suc k) b (c ∷ cs) ws h =
      sort_by-prefix key_order record_key (g b) _ _ (take_out-sort k c cs ws h.1)
      ∙ sort_by-swap key_order record_key (g b) (g (take_out k c cs).0) _
          (take_out-All (Separated b) k c cs ws h.0).0

module _ {W : Type 0} (archive : ArchiveStore W) (range : TimeRange) (after : Option Cursor)
    (limit : ℕ) (schedule : ℕ → Join) where
  -- A property of the world that the schedule and the reads keep, in which no task fails.
  pub record IsSteady (Inv : World W → Type 0) : Type 0 where
    pub sound : (n : ℕ) → (schedule n).failed ≡ false
    pub keeps :
        (n : ℕ) (w : World W) → Inv w → Inv (before_join archive range after limit (schedule n) w)

  -- In such worlds, a read of the bucket gives the records `g b`.
  abbrev pub Serves : (World W → Type 0) → (BucketId → List Record) → BucketId → Type 0
  Serves Inv g b =
      (w : World W)
      → Inv w
      → ((read_bucket archive b range after limit w).1 ≡ ok (g b))
        × Inv (read_bucket archive b range after limit w).0

  module _ (Inv : World W → Type 0) (g : BucketId → List Record) (steady : IsSteady Inv) where
    joined_lem :
        (n : ℕ) (b : BucketId) (w : World W)
        → Serves Inv g b
        → Inv w
        → ((joined archive range after limit (schedule n) b w).1 ≡ ok (g b))
          × Inv (joined archive range after limit (schedule n) b w).0
    unfolding joined
    joined_lem n b w serves i = rw (steady.sound n) (serves _ (steady.keeps n w i))

    -- Every result that the loop can give, sorted, is that of the blocks in order.
    abbrev Sorts : List Record → List BucketId → World W × TableResult (List Record) → Type 0
    Sorts acc bs out =
        (rs : List Record) × (out.1 ≡ ok rs)
        × (sort_by key_order record_key rs ≡ sort_by key_order record_key (acc ++ flat g bs))

    finished_lem :
        (P : World W × TableResult (List Record) → Type 0)
        (out : World W × TableResult (List Record)) (rs : List Record)
        (next : List Record → World W → World W × TableResult (List Record))
        → out.1 ≡ ok rs
        → P (next rs out.0)
        → P (finished archive range after limit out next)
    finished_lem P (w, err e) rs next h p = cc
    finished_lem P (w, ok xs) rs next h p = subst (λ ys. P (next ys w)) (ground arith) p

    join_reads_lem :
        (fuel : ℕ) (flying waiting : List BucketId) (acc : List Record) (w : World W)
        → (length flying ≡ 0 → waiting ≡ [])
        → length (flying ++ waiting) ≤ fuel
        → Pairwise (Separated g) (flying ++ waiting)
        → All (Serves Inv g) (flying ++ waiting)
        → Inv w
        → Sorts acc
            (flying ++ waiting)
            (join_reads archive range after limit fuel schedule flying waiting acc w)
    unfolding join_reads
    join_reads_lem fuel [] waiting acc w full enough sep serves i =
        rw (full refl) (acc, refl, ap (sort_by key_order record_key) (sym (append_nil acc)))
    join_reads_lem zero (b ∷ f) waiting acc w full enough sep serves i = absurd (omega arith)
    join_reads_lem (suc fuel) (b ∷ f) waiting acc w full enough sep serves i =
        let k = (schedule fuel).pick in
        let (c, rest) = take_out k b f in
        let (f', w') = spawn_next rest waiting in
        let same : f' ++ w' ≡ rest ++ waiting = spawn_next_lem rest waiting in
        let (serve, others) = take_out-All (Serves Inv g) k b f waiting serves in
        let (done, j) = joined_lem fuel c w serve i in
        let (rs, e, sorted) =
          join_reads_lem fuel f' w' (acc ++ g c) _ (spawn_next_full rest waiting)
            (omega (arith, ap length same, length-take_out k b f waiting))
            (subst (Pairwise (Separated g)) (sym same)
              (take_out-Pairwise (Separated g) k b f waiting sep))
            (subst (All (Serves Inv g)) (sym same) others) j in
        finished_lem (Sorts acc (b ∷ (f ++ waiting)))
          (joined archive range after limit (schedule fuel) c w) (g c) _ done
          (
            rs,
            e,
            sorted
                ∙ ap (sort_by key_order record_key) (
                    append_assoc acc (g c) (flat g (f' ++ w'))
                    ∙ ap (λ l. acc ++ (g c ++ flat g l)) same)
                ∙ sort_by-prefix key_order record_key acc _ _
                    (sym (take_out-sort g k b f waiting sep)),
          )

    -- In worlds where each read of a bucket gives its block of records and no read fails, and where
    -- the keys of earlier blocks are all before those of later ones: whatever order the reads
    -- finish in, `read_buckets` returns the records of every bucket, and the result sorted is that
    -- of the blocks in bucket order.
    pub read_buckets-sort :
        (bs : List BucketId) (w : World W)
        → Pairwise (Separated g) bs
        → All (Serves Inv g) bs
        → Inv w
        → (rs : List Record) × ((read_buckets archive range after limit schedule bs w).1 ≡ ok rs)
          × (sort_by key_order record_key rs ≡ sort_by key_order record_key (flat g bs))
    unfolding read_buckets
    read_buckets-sort [] w sep serves i = ([], refl, refl)
    read_buckets-sort (b ∷ []) w sep serves i =
        (g b, (serves.0 w i).0, ap (sort_by key_order record_key) (sym (append_nil (g b))))
    read_buckets-sort (b ∷ c ∷ bs) w sep serves i =
        let e : take 2 bs ++ drop 2 bs ≡ bs = take-append-drop 2 bs in
        let (rs, done, sorted) =
          join_reads_lem (length (b ∷ c ∷ bs)) (b ∷ c ∷ take 2 bs) (drop 2 bs) [] w
            (λ k. absurd (ground arith)) (omega (arith, ap length e))
            (subst (λ l. Pairwise (Separated g) (b ∷ c ∷ l)) (sym e) sep)
            (subst (λ l. All (Serves Inv g) (b ∷ c ∷ l)) (sym e) serves) i in
        (rs, done, sorted ∙ ap (λ l. sort_by key_order record_key (flat g (b ∷ c ∷ l))) e)
