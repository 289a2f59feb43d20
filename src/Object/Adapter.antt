-- ===== src/Object/Adapter.antt =====
-- The reads and writes of `OpenDalArchiveStore` of src/adapters/opendal_store.rs, over any
-- operator: each call of the operator is one step of the world.
use pulpitum.Base.{ℕ, not, Option, none, some, List, ◌==◌, if◌then◌else◌, length}
use pulpitum.Base.Text.{Text, Bytes, text_eq, codes}
use pulpitum.Domain.Model.{BucketId, Record, bucket_order}
use pulpitum.Base.{eqb}
use pulpitum.Archive.Port.{StoreError, other, StoreResult, ok, err, ArchiveStore}
use pulpitum.Object.Port.{
  Operator, WriteOutcome, written, condition_not_match, write_timed_out, write_failed, ReadOutcome,
  body, read_timed_out, read_failed, Call, ◌>>=◌, ◌>>◌, pure_call,
}
use pulpitum.Object.Results.{refuse_if, map_err, try_u64}
use pulpitum.Object.Config.{OpenDalArchiveStore, object_error}
use pulpitum.Object.Keys.{content_payload_key, content_manifest_key, manifest_digest}
use pulpitum.Object.Manifest.{
  ArchiveManifest, Libraries, manifest_eq, validate, validate_records, sha256, serialize,
  deserialize, manifest_new, verify_payload,
}

abbrev operation_timeout_error : StoreError
operation_timeout_error = other (codes "object-store operation timed out")

module _ {W : Type 0} (libraries : Libraries) (operator : Operator W)
    (store : OpenDalArchiveStore) where
  abbrev pub read_result : W × ReadOutcome → W × StoreResult Bytes
  read_result (w, body bytes) = (w, ok bytes)
  read_result (w, read_timed_out) = (w, err operation_timeout_error)
  read_result (w, read_failed error) = (w, err (object_error error))

  unfoldable pub read_object : Text → Call W Bytes
  read_object key w = read_result (operator.read key w)

  -- An object that is there already is no error of the write.
  abbrev write_error : WriteOutcome → Option StoreError
  write_error written = none
  write_error condition_not_match = none
  write_error (write_failed error) = some (object_error error)
  write_error write_timed_out = some operation_timeout_error

  -- What is read back decides: a write that reported an error may have succeeded.
  abbrev pub verified : Bytes → Option StoreError → W × StoreResult Bytes → W × StoreResult Bytes
  verified expected error (w, ok uploaded) =
      if text_eq uploaded expected
      then (w, ok uploaded)
      else (w, err (other (codes "immutable archive object already exists with different content")))
  verified expected (some error) (w, err _) = (w, err error)
  verified expected none (w, err error) = (w, err error)

  abbrev pub after_write : Text → Bytes → W × WriteOutcome → W × StoreResult Bytes
  after_write key expected (w, outcome) =
      verified expected (write_error outcome) (read_object key w)

  unfoldable pub create_object_verified : Text → Bytes → Call W Bytes
  unfolding read_object
  create_object_verified key expected w =
      after_write key expected (operator.write_if_not_exists key expected w)

  -- The two uploads of `write_records`, with their checks.
  unfoldable pub upload_payload : ArchiveManifest → Bytes → Call W (Unit {0})
  unfolding create_object_verified
  upload_payload manifest payload = do
    uploaded ← create_object_verified manifest.payload_key payload
    pure_call (verify_payload libraries manifest uploaded)
    records ← pure_call (deserialize libraries store.format uploaded)
    count ← pure_call (try_u64 (codes "archive record count exceeds u64") (length records))
    pure_call (
        refuse_if (not (count == manifest.record_count))
          (codes "uploaded archive record count does not match manifest"))

  unfoldable pub upload_manifest : ArchiveManifest → Bytes → Text → Call W Text
  unfolding create_object_verified
  upload_manifest manifest manifest_body manifest_key = do
    uploaded ← create_object_verified manifest_key manifest_body
    found ← pure_call (
        map_err (codes "archive manifest deserialization: ")
          (libraries.manifest_from_slice uploaded))
    pure_call (validate found)
    pure_call (
        refuse_if (not (manifest_eq found manifest))
          (codes "uploaded archive manifest does not match the intended manifest"))
    pure_call (ok manifest_key)

  unfoldable pub write_records : BucketId → Option ℕ → List Record → Call W Text
  unfolding upload_payload upload_manifest sha256 content_payload_key content_manifest_key
  write_records b generation records = do
    pure_call (validate_records b records)
    payload ← pure_call (serialize libraries store.format records)
    manifest ← pure_call (
        manifest_new libraries b generation store.format
          (content_payload_key store b generation (sha256 libraries payload)) records payload)
    manifest_body ←
        pure_call
          (map_err (codes "archive manifest serialization: ") (libraries.manifest_to_vec manifest))
    upload_payload manifest payload
    upload_manifest manifest manifest_body
        (content_manifest_key store b generation (sha256 libraries manifest_body))

  unfoldable pub read_manifest_records : BucketId → ArchiveManifest → Call W (List Record)
  unfolding read_object
  read_manifest_records expected_bucket manifest = do
    pure_call (validate manifest)
    pure_call (
        refuse_if (not (eqb bucket_order manifest.bucket expected_bucket))
          (codes "archive manifest does not match the requested bucket"))
    payload ← read_object manifest.payload_key
    pure_call (verify_payload libraries manifest payload)
    records ← pure_call (deserialize libraries manifest.format payload)
    count ← pure_call (try_u64 (codes "archive record count exceeds u64") (length records))
    pure_call (
        refuse_if (not (count == manifest.record_count))
          (codes "archive record count does not match manifest"))
    pure_call (validate_records expected_bucket records)
    pure_call (ok records)

  -- The checksum of a key that carries one.
  abbrev pub check_digest : Bytes → Option Text → StoreResult (Unit {0})
  check_digest object none = ok tt
  check_digest object (some expected) =
      refuse_if (not (text_eq (sha256 libraries object) expected))
        (codes "archive manifest checksum does not match its object key")

  unfoldable pub get_bucket : BucketId → Text → Call W (List Record)
  unfolding read_manifest_records read_object manifest_digest
  get_bucket b object_key = do
    object ← read_object object_key
    expected ← pure_call (manifest_digest object_key)
    pure_call (check_digest object expected)
    manifest ← pure_call (
        map_err (codes "archive manifest deserialization: ") (libraries.manifest_from_slice object))
    records ← read_manifest_records b manifest
    -- The size is reported to the tracing span.
    _ ← pure_call (try_u64 (codes "archive manifest exceeds u64 bytes") (length object))
    pure_call (ok records)

  abbrev pub opendal : ArchiveStore W
  opendal = record {
    put_bucket = λ b records. write_records b none records;
    put_bucket_generation = λ b generation records. write_records b (some generation) records;
    get_bucket = get_bucket;
  }
