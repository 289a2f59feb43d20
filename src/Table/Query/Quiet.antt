-- ===== src/Table/Query/Quiet.antt =====
-- `query_page` (src/application/durable_table.rs) over a store that no other client changes during
-- the query: each bucket is served from the tier that holds it.
use pulpitum.Base.{
  ℕ, ◌≤◌, ◌<◌, ◌≡◌, refl, ap, ◌∙◌, ◌⊎◌, inl, inr, Bool, false, some, List, [], ◌∷◌, take, length,
  All, flat,
}
use pulpitum.Base.Text.{Text}
use pulpitum.Domain.Model.{BucketId, Record}
use pulpitum.Domain.Calendar.{Chrono, IsCalendar}
use pulpitum.Domain.Schema.{TableDefinition, buckets_for_range}
use pulpitum.Store.State.{
  hot, archiving, archived, Result, DurableBucketRead, hot_records, archive_key,
}
use pulpitum.Store.Memory.{entry_of, select, read_range}
use pulpitum.Store.History.{run}
use pulpitum.Archive.Port.{StoreResult, ArchiveStore}
use pulpitum.Archive.Coordinator.{World}
use pulpitum.Table.Read.{ok, routed, read_bucket, read_hot, read_archived, selected-IsSorted}
use pulpitum.Table.Join.{Join}
use pulpitum.Table.Join.Order.{Serves}
use pulpitum.Table.Query.{Query, usize_max, page_capacity, QueryPage, query_page}
use pulpitum.Table.Query.Page.{IsPage, IsBucket, selected, block, query_page_ok}

module _ {W : Type 0} (archive : ArchiveStore W) (content : BucketId → List Record) where
  -- The tier that the bucket routes to holds the content.
  abbrev pub Stores : World W → BucketId → Type 0
  Stores w b =
      ((((entry_of b w.buckets).state ≡ hot) ⊎ ((entry_of b w.buckets).state ≡ archiving))
        × ((entry_of b w.buckets).records ≡ content b))
      ⊎ ((key : Text) × (deleted : Bool) × ((entry_of b w.buckets).state ≡ archived key deleted)
          × ((archive.get_bucket b key w.objects).1 ≡ StoreResult.ok (content b)))

  -- A read leaves the archive as it is.
  abbrev pub ReadsOnly : Type 0
  ReadsOnly = (b : BucketId) (key : Text) (o : W) → (archive.get_bucket b key o).0 ≡ o

  module _ (q : Query) where
    stored_page :
        (b : BucketId) (w : World W)
        → IsBucket q content b
        → Stores w b
        → (read_bucket archive b q.range q.after (page_capacity q.limit) w).1
          ≡ ok (block q content b)
    stored_page b w i (inl (state, same)) =
        read_hot archive b q.range q.after (page_capacity q.limit) w state
        ∙ ap (λ rs. ok (take (page_capacity q.limit) (select q.range q.after rs))) same
    stored_page b w i (inr (key, deleted, state, readable)) =
        rw
          (
            read_archived archive b q.range q.after (page_capacity q.limit) w key deleted state,
            readable,
            selected-IsSorted q.range q.after (content b) i.sorted,
          )
          refl

    routed_same :
        ReadsOnly
        → (b : BucketId) (o : W) (r : Result DurableBucketRead)
        → (routed archive b q.range q.after (page_capacity q.limit) o r).0 ≡ o
    routed_same pure b o (Result.err e) = refl
    routed_same pure b o (Result.ok (hot_records rs)) = refl
    routed_same pure b o (Result.ok (archive_key key)) = pure b key o

    read_same :
        ReadsOnly
        → (b : BucketId) (w : World W)
        → (read_bucket archive b q.range q.after (page_capacity q.limit) w).0 ≡ w
    unfolding read_bucket
    read_same pure b w =
        ap (λ o. record w { objects = o })
          (routed_same pure b w.objects
            (read_range b q.range q.after (page_capacity q.limit) w.buckets))

    pub Serves-All :
        (schedule : ℕ → Join) (bs : List BucketId) (w : World W)
        → ReadsOnly
        → All (IsBucket q content) bs
        → All (Stores w) bs
        → All
            (Serves archive q.range q.after
              (page_capacity q.limit)
              schedule
              (λ w'. w' ≡ w)
              (block q content))
            bs
    Serves-All schedule [] w pure i s = tt
    Serves-All schedule (b ∷ bs) w pure i s = (
      λ w' e. (rw e (stored_page b w i.0 s.0), read_same pure b w' ∙ e),
      Serves-All schedule bs w pure i.1 s.1,
    )

  -- The reads see no operation of another client, and no task fails.
  pub record IsQuiet (schedule : ℕ → Join) : Type 0 where
    pub alone : (n : ℕ) → (schedule n).others ≡ []
    pub sound : (n : ℕ) → (schedule n).failed ≡ false

-- A query of a store that nobody else changes, where each bucket of the range is in order and its
-- content is held by the tier that it routes to: whatever the tiers and the order in which the
-- parallel reads finish, the page holds the first `limit` of all records that the range and the
-- cursor select, bucket after bucket, with a cursor, that of its last record, iff there are more.
-- All the selected records are no more than a `Vec` holds.
pub query_page_quiet :
    {W : Type 0} (archive : ArchiveStore W) (c : Chrono) (cal : IsCalendar c) (d : TableDefinition)
    (schedule : ℕ → Join) (q : Query) (content : BucketId → List Record) (bs : List BucketId)
    (w : World W)
    → q.range.start < q.range.end
    → 0 < q.limit
    → q.limit ≤ usize_max
    → buckets_for_range c d q.partition_key q.range ≡ some bs
    → All (IsBucket q content) bs
    → All (Stores archive content w) bs
    → length (flat (selected q content) bs) ≤ usize_max
    → ReadsOnly archive content
    → IsQuiet archive content schedule
    → (w' : World W) × (page : QueryPage) × (query_page archive c d schedule q w
        ≡ some (w', ok page))
      × IsPage q.limit (flat (selected q content) bs) page
unfolding run
query_page_quiet archive c cal d schedule q content bs w forward wanted word listed buckets stored
      room pure quiet =
    query_page_ok archive c cal d schedule q content (λ w'. w' ≡ w) bs w forward wanted word listed
      buckets room
      (record {
        sound = quiet.sound;
        keeps =
            λ n w' e. ap (λ ops. record w' { buckets = run ops w'.buckets }) (quiet.alone n) ∙ e;
      })
      (Serves-All archive content q schedule bs w pure buckets stored) refl
