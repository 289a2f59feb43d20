-- ===== src/Table/Query/Page.antt =====
-- The page of `query_page` (src/application/durable_table.rs) against its description: the first
-- records, in clustering order, of all that the range and the cursor select.
use pulpitum.Base.{
  ℕ, zero, suc, ◌++◌, ◌⊎◌, none, ◌+◌, ◌≤◌, ◌<◌, ◌≡◌, refl, ap, ◌∙◌, inl, inr, true, false, some,
  List, [], ◌∷◌, arith, length, take, All, All-map, All-take, All-keep, Bool-cases, ltb, leb,
  ltb→lt, sort_by, IsSorted, take-IsSorted, keep-IsSorted, ◌==◌, sort_by_of_IsSorted, flat,
  Pairwise, Apart, flat-IsSorted, take-flat-take, length-flat-take-le, length-take, less,
  compare_lt,
}
use pulpitum.Domain.Model.{BucketId, DateTime, Record, cursor_of, key_order, record_key}
use pulpitum.Domain.Calendar.{Chrono, IsCalendar}
use pulpitum.Domain.Schema.{TableDefinition, buckets_for_range}
use pulpitum.Domain.Schema.Ranges.{Tiles, buckets_for_range-Tiles}
use pulpitum.Store.Memory.{select}
use pulpitum.Archive.Port.{ArchiveStore}
use pulpitum.Archive.Coordinator.{World}
use pulpitum.Table.Read.{TableResult, ok, err}
use pulpitum.Table.Join.{Join, read_buckets}
use pulpitum.Table.Join.Order.{Separated, IsSteady, Serves, read_buckets-sort}
use pulpitum.Table.Query.{
  Query, usize_max, page_capacity, page_of, run_page, query_page, QueryPage, last_cursor,
}

-- The record's time is in the bucket.
abbrev pub Timed : BucketId → Record → Type 0
Timed b r = (b.start ≤ r.event_time) × (r.event_time < b.end)

earlier :
    (r s : Record)
    → r.event_time < s.event_time
    → less key_order (record_key r) (record_key s) ≡ true
unfolding key_order
earlier r s h = rw (compare_lt r.event_time s.event_time h) refl

earlier-All :
    (r : Record) (b : BucketId) (ys : List Record)
    → r.event_time < b.start
    → All (Timed b) ys
    → All (λ y. less key_order (record_key r) (record_key y) ≡ true) ys
earlier-All r b [] h t = tt
earlier-All r b (y ∷ ys) h t = (earlier r y (omega (arith, t.0.0)), earlier-All r b ys h t.1)

Timed-Apart :
    (a b : BucketId) (xs ys : List Record)
    → a.end ≤ b.start
    → All (Timed a) xs
    → All (Timed b) ys
    → Apart key_order record_key xs ys
Timed-Apart a b [] ys h s t = tt
Timed-Apart a b (x ∷ xs) ys h s t =
    (earlier-All x b ys (omega (arith, s.0.1)) t, Timed-Apart a b xs ys h s.1 t)

-- Whether there is more shows in one record beyond the page.
more :
    (limit : ℕ) (xs ys : List Record)
    → length ys ≤ usize_max
    → length xs ≤ length ys
    → (limit < usize_max → take (limit + 1) xs ≡ take (limit + 1) ys)
    → ltb limit (length xs) ≡ ltb limit (length ys)
more limit xs ys room le same = elim (Bool-cases (ltb limit usize_max)) [
  | inl lt ↦ ground (
    arith,
    ap length (same (ltb→lt _ _ lt)),
    length-take (limit + 1) xs,
    length-take (limit + 1) ys,
  )
  | inr ge ↦ ground arith
]

-- A page cut from blocks that were cut themselves is the page of the whole.
page_of-flat :
    (g : BucketId → List Record) (bs : List BucketId) (limit : ℕ)
    → limit ≤ usize_max
    → length (flat g bs) ≤ usize_max
    → page_of limit (flat (λ b. take (page_capacity limit) (g b)) bs) ≡ page_of limit (flat g bs)
unfolding page_capacity
page_of-flat g bs limit h room =
    let cap = page_capacity limit in
    let cut = flat (λ b. take cap (g b)) bs in
    let first = take-flat-take g bs limit cap (omega arith) in
    rw
      (
        first,
        more limit cut (flat g bs) room (length-flat-take-le g bs cap)
            (λ lt. take-flat-take g bs (limit + 1) cap (omega arith)),
      )
      refl

module _ (q : Query) (content : BucketId → List Record) where
  -- What the query selects of a bucket.
  abbrev pub selected : BucketId → List Record
  selected b = select q.range q.after (content b)

  abbrev pub block : BucketId → List Record
  block b = take (page_capacity q.limit) (selected b)

  -- The bucket's records are in clustering order and in its time range.
  pub record IsBucket (b : BucketId) : Type 0 where
    pub sorted : IsSorted key_order record_key (content b)
    pub timed : All (Timed b) (content b)

  block-IsSorted : (b : BucketId) → IsBucket b → IsSorted key_order record_key (block b)
  unfolding select
  block-IsSorted b i =
      take-IsSorted key_order record_key (page_capacity q.limit) (selected b)
        (keep-IsSorted key_order record_key _ _ (keep-IsSorted key_order record_key _ _ i.sorted))

  block-Timed : (b : BucketId) → IsBucket b → All (Timed b) (block b)
  unfolding select
  block-Timed b i =
      All-take (Timed b) (page_capacity q.limit) (selected b)
        (All-keep (Timed b) _ _ (All-keep (Timed b) _ _ i.timed))

module _ (c : Chrono) (cal : IsCalendar c) (d : TableDefinition) (q : Query)
    (content : BucketId → List Record) where
  tiled_after :
      (a : BucketId) (at end : DateTime) (bs : List BucketId)
      → a.end ≤ at
      → Tiles c cal d q.partition_key at end bs
      → IsBucket q content a
      → All (IsBucket q content) bs
      → All (Separated (block q content) a) bs
  tiled_after a at end [] le t i is = tt
  tiled_after a at end (b ∷ bs) le (start, _, longer, _, rest) i is = (
    Timed-Apart a b (block q content a) (block q content b) (omega (arith, start))
        (block-Timed q content a i) (block-Timed q content b is.0),
    tiled_after a b.end end bs (omega (arith, start)) rest i is.1,
  )

  tiled-Separated :
      (at end : DateTime) (bs : List BucketId)
      → Tiles c cal d q.partition_key at end bs
      → All (IsBucket q content) bs
      → Pairwise (Separated (block q content)) bs
  tiled-Separated at end [] t is = tt
  tiled-Separated at end (b ∷ bs) (_, _, _, _, rest) is = (
    tiled_after b b.end end bs (omega arith) rest is.0 is.1,
    tiled-Separated b.end end bs rest is.1,
  )

-- The page that the first `limit` of all the records make: it has no cursor when these are all of
-- them, and otherwise the cursor of the last one.
pub record IsPage (limit : ℕ) (all : List Record) (page : QueryPage) : Type 0 where
  pub first : page.records ≡ take limit all
  pub resumes :
      ((length all ≤ limit) × (page.next ≡ none))
      ⊎ ((limit < length all)
          × ((before : List Record) × (r : Record) × (take limit all ≡ before ++ r ∷ [])
              × (page.next ≡ some (cursor_of r))))

last_cursor-last :
    (r : Record) (rs : List Record)
    → (before : List Record) × (s : Record) × (r ∷ rs ≡ before ++ s ∷ [])
      × (last_cursor (r ∷ rs) ≡ some (cursor_of s))
last_cursor-last r [] = ([], r, refl, refl)
last_cursor-last r (s ∷ rs) =
    let (before, last, split, cursor) = last_cursor-last s rs in
    (r ∷ before, last, ap (r ∷◌) split, cursor)

page_of-IsPage : (limit : ℕ) (all : List Record) → 0 < limit → IsPage limit all (page_of limit all)
page_of-IsPage zero all h = absurd (omega (arith, h))
page_of-IsPage (suc n) [] h =
    let few : ltb (suc n) 0 ≡ false = ground arith in
    record { first = refl; resumes = inl (omega arith, rw few refl) }
page_of-IsPage (suc n) (r ∷ rs) h = elim (Bool-cases (ltb (suc n) (length (r ∷ rs)))) [
  | inr le ↦ record { first = refl; resumes = inl (ground (arith, le), rw le refl) }
  | inl lt ↦
      let (before, last, split, cursor) = last_cursor-last r (take n rs) in
      record { first = refl; resumes = inr (ltb→lt _ _ lt, (before, last, split, rw lt cursor)) }
]

module _ {W : Type 0} (q : Query) where
  run_page_lem :
      (out : World W × TableResult (List Record)) (rs all : List Record)
      → out.1 ≡ ok rs
      → page_of q.limit (sort_by key_order record_key rs) ≡ page_of q.limit all
      → run_page q out ≡ (out.0, ok (page_of q.limit all))
  run_page_lem (w, err e) rs all h p = cc
  run_page_lem (w, ok xs) rs all h p =
      let e : xs ≡ rs = ground arith in
      ap (λ x. (w, ok x)) (ap (λ l. page_of q.limit (sort_by key_order record_key l)) e ∙ p)

-- A query with a range and a limit, over buckets whose contents are in clustering order and in
-- their time ranges, in worlds where a read of a bucket gives the first records that the range
-- and the cursor select of its content: in whatever order the parallel reads finish, the page
-- holds the first `limit` of all selected records, bucket after bucket, and has a cursor, that of
-- its last record, iff there are more. All the selected records are no more than a `Vec` holds.
pub query_page_ok :
    {W : Type 0} (archive : ArchiveStore W) (c : Chrono) (cal : IsCalendar c) (d : TableDefinition)
    (schedule : ℕ → Join) (q : Query) (content : BucketId → List Record) (Inv : World W → Type 0)
    (bs : List BucketId) (w : World W)
    → q.range.start < q.range.end
    → 0 < q.limit
    → q.limit ≤ usize_max
    → buckets_for_range c d q.partition_key q.range ≡ some bs
    → All (IsBucket q content) bs
    → length (flat (selected q content) bs) ≤ usize_max
    → IsSteady archive q.range q.after (page_capacity q.limit) schedule Inv
    → All (Serves archive q.range q.after (page_capacity q.limit) schedule Inv (block q content)) bs
    → Inv w
    → (w' : World W) × (page : QueryPage) × (query_page archive c d schedule q w
        ≡ some (w', ok page))
      × IsPage q.limit (flat (selected q content) bs) page
unfolding query_page
query_page_ok archive c cal d schedule q content Inv bs w forward wanted word listed buckets room
      steady serves i =
    let (first, derived, tiles) =
      buckets_for_range-Tiles c cal d q.partition_key q.range bs forward listed in
    let separated = tiled-Separated c cal d q content first.start q.range.end bs tiles buckets in
    let (rs, done, sorted) =
      read_buckets-sort archive q.range q.after (page_capacity q.limit) schedule Inv
        (block q content) steady bs w separated serves i in
    let in_order = sort_by_of_IsSorted key_order record_key (flat (block q content) bs) (
      flat-IsSorted key_order record_key (block q content) bs
        (All-map (IsBucket q content) _ (block-IsSorted q content) bs buckets) separated) in
    let e : leb q.range.end q.range.start ≡ false = ground arith in
    let n : (q.limit == 0) ≡ false = ground arith in
    let out = read_buckets archive q.range q.after (page_capacity q.limit) schedule bs w in
    (
      out.0,
      page_of q.limit (flat (selected q content) bs),
      rw (e, n, listed)
          (ap some (
            run_page_lem q out rs (flat (selected q content) bs) done (
              ap (page_of q.limit) (sorted ∙ in_order)
              ∙ page_of-flat (selected q content) bs q.limit word room))),
      page_of-IsPage q.limit (flat (selected q content) bs) wanted,
    )
