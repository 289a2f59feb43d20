-- ===== src/Object/Manifest.antt =====
-- `ArchiveManifest`, its checks, and the codecs of a payload, of src/adapters/opendal_store.rs.
-- serde_json is a parameter.
use pulpitum.Base.{
  ℕ, Bool, true, false, ◌&&◌, not, Option, none, some, List, [], ◌∷◌, ◌++◌, ◌==◌, if◌then◌else◌,
  length, eqb, any, less,
}
use pulpitum.Base.Text.{Text, Bytes, text_eq, codes, decimal}
use pulpitum.Domain.Model.{BucketId, Record, bucket_order, key_order, record_key}
use pulpitum.Archive.Port.{StoreResult, ok, belongs}
use pulpitum.Object.Port.{Answer}
use pulpitum.Object.Results.{◌>>=◌, ◌>>◌, refuse_if, map_err, try_u64}
use pulpitum.Object.Config.{ArchiveFormat, json, parquet}
use pulpitum.Object.Columns.{Parquet, serialize_parquet, deserialize_parquet}
use pulpitum.Object.Keys.{encode_path_segment}

pub record ArchiveManifest : Type 0 where
  pub version : ℕ
  pub format : ArchiveFormat
  pub schema_version : ℕ
  pub bucket : BucketId
  pub generation : Option ℕ
  pub payload_key : Text
  pub record_count : ℕ
  pub payload_bytes : ℕ
  pub sha256 : Text
  pub clustering_key : List Text

-- `serde_json::to_vec` and `from_slice`, for records and manifests; the arrow and parquet crates;
-- `Sha256::digest`.
pub record Libraries : Type 0 where
  pub records_to_vec : List Record → Answer Bytes
  pub records_from_slice : Bytes → Answer (List Record)
  pub manifest_to_vec : ArchiveManifest → Answer Bytes
  pub manifest_from_slice : Bytes → Answer ArchiveManifest
  pub columns : Parquet
  pub digest : Bytes → Bytes

abbrev pub archive_manifest_version : ℕ
archive_manifest_version = 4

abbrev pub record_schema_version : ℕ
record_schema_version = 2

abbrev pub supported_clustering_key : List Text
supported_clustering_key = codes "event_time" ∷ codes "sort_key" ∷ []

abbrev pub texts_eq : List Text → List Text → Bool
texts_eq [] [] = true
texts_eq [] (b ∷ ys) = false
texts_eq (a ∷ xs) [] = false
texts_eq (a ∷ xs) (b ∷ ys) = text_eq a b && texts_eq xs ys

abbrev pub format_eq : ArchiveFormat → ArchiveFormat → Bool
format_eq json json = true
format_eq parquet parquet = true
format_eq _ _ = false

abbrev pub generation_eq : Option ℕ → Option ℕ → Bool
generation_eq none none = true
generation_eq (some a) (some b) = a == b
generation_eq _ _ = false

-- The derived `PartialEq`.
unfoldable pub manifest_eq : ArchiveManifest → ArchiveManifest → Bool
manifest_eq a b =
    a.version == b.version
    && format_eq a.format b.format
    && a.schema_version == b.schema_version
    && eqb bucket_order a.bucket b.bucket
    && generation_eq a.generation b.generation
    && text_eq a.payload_key b.payload_key
    && a.record_count == b.record_count
    && a.payload_bytes == b.payload_bytes
    && text_eq a.sha256 b.sha256
    && texts_eq a.clustering_key b.clustering_key

unfoldable pub validate : ArchiveManifest → StoreResult (Unit {0})
unfolding decimal
validate m = do
  refuse_if (not (m.version == archive_manifest_version))
      (codes "unsupported archive manifest version " ++ decimal m.version)
  refuse_if (not (m.schema_version == record_schema_version))
      (codes "unsupported archive record schema version " ++ decimal m.schema_version)
  refuse_if (text_eq m.payload_key []) (codes "archive manifest payload key is empty")
  refuse_if (not (texts_eq m.clustering_key supported_clustering_key))
      (codes "archive manifest has an unsupported clustering key")
  ok tt

-- `windows(2)`: some record is after its successor.
unfoldable pub any_descent : List Record → Bool
any_descent [] = false
any_descent (a ∷ []) = false
any_descent (a ∷ b ∷ rest) =
    let later = any_descent (b ∷ rest) in
    if less key_order (record_key b) (record_key a) then true else later

unfoldable pub validate_records : BucketId → List Record → StoreResult (Unit {0})
unfolding any_descent
validate_records b records = do
  refuse_if (any (λ r. not (belongs b r)) records)
      (codes "archive records do not all belong to the requested bucket")
  refuse_if (any_descent records)
      (codes "archive records are not sorted by event time and sort key")
  ok tt

module _ (libraries : Libraries) where
  unfoldable pub sha256 : Bytes → Text
  sha256 payload = encode_path_segment (libraries.digest payload)

  unfoldable pub serialize : ArchiveFormat → List Record → StoreResult Bytes
  serialize json records =
      map_err (codes "archive serialization: ") (libraries.records_to_vec records)
  serialize parquet records = serialize_parquet libraries.columns records

  unfoldable pub deserialize : ArchiveFormat → Bytes → StoreResult (List Record)
  deserialize json body =
      map_err (codes "archive deserialization: ") (libraries.records_from_slice body)
  deserialize parquet body = deserialize_parquet libraries.columns body

  -- `ArchiveManifest::new`.
  unfoldable pub manifest_new :
      BucketId → Option ℕ → ArchiveFormat → Text → List Record → Bytes → StoreResult ArchiveManifest
  unfolding sha256
  manifest_new b generation format payload_key records payload = do
    record_count ← try_u64 (codes "archive record count exceeds u64") (length records)
    payload_bytes ← try_u64 (codes "archive payload exceeds u64 bytes") (length payload)
    ok (record {
      version = archive_manifest_version;
      format = format;
      schema_version = record_schema_version;
      bucket = b;
      generation = generation;
      payload_key = payload_key;
      record_count = record_count;
      payload_bytes = payload_bytes;
      sha256 = sha256 payload;
      clustering_key = supported_clustering_key;
    })

  unfoldable pub verify_payload : ArchiveManifest → Bytes → StoreResult (Unit {0})
  unfolding sha256
  verify_payload m payload = do
    payload_bytes ← try_u64 (codes "archive payload exceeds u64 bytes") (length payload)
    refuse_if (not (payload_bytes == m.payload_bytes))
        (codes "archive payload length does not match manifest")
    refuse_if (not (text_eq (sha256 payload) m.sha256))
        (codes "archive payload checksum does not match manifest")
    ok tt
