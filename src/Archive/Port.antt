-- ===== src/Archive/Port.antt =====
-- The trait `ArchiveStore` of src/ports/storage.rs, as an interface over a world of objects, and
-- what its clients rely on.
use pulpitum.Base.{ℕ, ◌≡◌, Bool, true, ◌&&◌, List, All}
use pulpitum.Base.Text.{Text, text_eq}
use pulpitum.Domain.Model.{BucketId, Record, contains}

pub data StoreError : Type 0 where
  missing_bucket : BucketId → StoreError
  other : Text → StoreError

pub data StoreResult {ℓ} (A : Type ℓ) : Type ℓ where
  ok : A → StoreResult A
  err : StoreError → StoreResult A

-- A store may change its world on a read too: a cache does.
pub record ArchiveStore (W : Type 0) : Type 0 where
  pub put_bucket : BucketId → List Record → W → W × StoreResult Text
  pub put_bucket_generation : BucketId → ℕ → List Record → W → W × StoreResult Text
  pub get_bucket : BucketId → Text → W → W × StoreResult (List Record)

-- The record belongs to the partition and the time range of the bucket.
unfoldable pub belongs : BucketId → Record → Bool
belongs b r = text_eq r.partition_key b.partition_key && contains b r.event_time

abbrev pub Belongs : BucketId → Record → Type 0
Belongs b r = belongs b r ≡ true

-- An object that was stored for a bucket is read back under the key that was returned.
pub record IsFaithful {W : Type 0} (archive : ArchiveStore W) : Type 0 where
  pub read_back :
      (b : BucketId) (g : ℕ) (rs : List Record) (w : W) (key : Text)
      → (archive.put_bucket_generation b g rs w).1 ≡ ok key
      → All (Belongs b) rs
      → (archive.get_bucket b key (archive.put_bucket_generation b g rs w).0).1 ≡ ok rs
