-- ===== src/Table/Join.antt =====
-- `read_buckets` of src/application/durable_table.rs: at most four reads are in flight, and a
-- finished one makes room for the next bucket. A `Join` says which read finishes next, what other
-- clients did to the store before, and whether its task failed; a read takes effect when it is
-- joined. The first error ends the loop and drops the other reads.
pub mod Order
use pulpitum.Base.{
  ℕ, zero, suc, ◌-◌, ◌%◌, Bool, Option, none, some, List, [], ◌∷◌, ◌++◌, take, drop, length,
  if◌then◌else◌,
}
use pulpitum.Base.Text.{codes}
use pulpitum.Domain.Model.{BucketId, Record, Cursor, TimeRange}
use pulpitum.Store.History.{Operation, run}
use pulpitum.Archive.Port.{other, ArchiveStore}
use pulpitum.Archive.Coordinator.{World}
use pulpitum.Table.Read.{DurableTableError, store, TableResult, ok, err, read_bucket}

abbrev pub max_parallel_bucket_reads : ℕ
max_parallel_bucket_reads = 4

pub record Join : Type 0 where
  pub others : List Operation
  pub pick : ℕ
  pub failed : Bool

-- The element at an index, and the others; past the end, the last one.
abbrev pub take_out : ℕ → BucketId → List BucketId → BucketId × List BucketId
take_out k b [] = (b, [])
take_out zero b (c ∷ cs) = (b, c ∷ cs)
take_out (suc k) b (c ∷ cs) = let (d, ds) = take_out k c cs in (d, b ∷ ds)

-- The reads in flight after one more bucket is spawned, if any waits, and what still waits.
abbrev pub spawn_next : List BucketId → List BucketId → List BucketId × List BucketId
spawn_next flying [] = (flying, [])
spawn_next flying (b ∷ waiting) = (flying ++ b ∷ [], waiting)

module _ {W : Type 0} (archive : ArchiveStore W) (range : TimeRange) (after : Option Cursor)
    (limit : ℕ) where
  abbrev pub before_join : Join → World W → World W
  before_join j w = record w { buckets = run j.others w.buckets }

  -- What `join_next` gives for the read of a bucket: `map_err(…)?` and `?`.
  unfoldable pub joined : Join → BucketId → World W → World W × TableResult (List Record)
  joined j b w =
      if j.failed
      then (before_join j w, err (store (other (codes "parallel bucket read task failed"))))
      else read_bucket archive b range after limit (before_join j w)

  abbrev pub finished :
      World W × TableResult (List Record)
      → (List Record → World W → World W × TableResult (List Record))
      → World W × TableResult (List Record)
  finished (w, err e) next = (w, err e)
  finished (w, ok records) next = next records w

  -- The `while let` loop. A round takes one read out of flight: with as many rounds as buckets it
  -- ends.
  pub join_reads :
      ℕ
      → (ℕ → Join)
      → List BucketId
      → List BucketId
      → List Record
      → World W
      → World W × TableResult (List Record)
  join_reads fuel schedule [] waiting result w = (w, ok result)
  join_reads zero schedule (b ∷ flying) waiting result w = (w, ok result)
  join_reads (suc fuel) schedule (b ∷ flying) waiting result w =
      let (c, rest) = take_out (schedule fuel).pick b flying in
      let (flying', waiting') = spawn_next rest waiting in
      finished (joined (schedule fuel) c w)
        λ records w'. join_reads fuel schedule flying' waiting' (result ++ records) w'

  unfoldable pub read_buckets :
      (ℕ → Join) → List BucketId → World W → World W × TableResult (List Record)
  unfolding join_reads
  read_buckets schedule [] w = (w, ok [])
  read_buckets schedule (b ∷ []) w = read_bucket archive b range after limit w
  read_buckets schedule (b ∷ c ∷ bs) w =
      let started = b ∷ c ∷ take (max_parallel_bucket_reads - 2) bs in
      join_reads (length (b ∷ c ∷ bs)) schedule started (drop (max_parallel_bucket_reads - 2) bs) []
        w
