-- ===== src/Tests/Objects.antt =====
-- The archive on an object store: a map of objects, a digest that is the length of its input, and
-- codecs that know one list of records and its manifest.
use pulpitum.Base.{
  ℕ, ◌%◌, ◌≡◌, ◌⊎◌, ◌↔◌, refl, true, false, Option, none, some, List, [], ◌∷◌, arith, length, Map,
  get, put, All, IsSorted, if◌then◌else◌, ltb,
}
use pulpitum.Base.Text.{Text, Bytes, text_order, codes}
use pulpitum.Domain.Model.{BucketId, Record, key_order, record_key}
use pulpitum.Archive.Port.{StoreError, StoreResult, ok, err, Belongs}
use pulpitum.Object.Port.{
  Answer, answer, refused, Operator, WriteOutcome, written, condition_not_match, ReadOutcome, body,
  read_failed, IsDigest,
}
use pulpitum.Object.Config.{
  OpenDalArchiveStore, S3ArchiveConfig, json, with_operator, config_new, s3_config, service,
}
use pulpitum.Object.Keys.{encode_path_segment, content_payload_key, content_manifest_key}
use pulpitum.Object.Columns.{Parquet}
use pulpitum.Object.Manifest.{ArchiveManifest, Libraries, supported_clustering_key}
use pulpitum.Object.Adapter.{write_records, get_bucket}
use pulpitum.Object.Evidence.{get_bucket-IsSorted}
use pulpitum.Object.Errors.{IsUsable, IsBuilt, s3_config_iff}
use pulpitum.Tests.Samples.{first_day, record_at}

abbrev pub World : Type 0
World = Map Text Bytes

abbrev pub once : Text → Bytes → World → Option Bytes → World × WriteOutcome
once key content w none = (put text_order key content w, written)
once key content w (some old) = (w, condition_not_match)

abbrev pub found : Option Bytes → ReadOutcome
found none = read_failed (codes "not found")
found (some content) = body content

abbrev pub objects : Operator World
objects = record {
  write_if_not_exists = λ key content w. once key content w (get text_order key w);
  read = λ key w. (w, found (get text_order key w));
}

abbrev pub digest : Bytes → Bytes
digest x =
    length x % 256
    ∷ 0
    ∷ 0
    ∷ 0
    ∷ 0
    ∷ 0
    ∷ 0
    ∷ 0
    ∷ 0
    ∷ 0
    ∷ 0
    ∷ 0
    ∷ 0
    ∷ 0
    ∷ 0
    ∷ 0
    ∷ 0
    ∷ 0
    ∷ 0
    ∷ 0
    ∷ 0
    ∷ 0
    ∷ 0
    ∷ 0
    ∷ 0
    ∷ 0
    ∷ 0
    ∷ 0
    ∷ 0
    ∷ 0
    ∷ 0
    ∷ 0
    ∷ []

pub digest-IsDigest : IsDigest digest
digest-IsDigest = record { size = λ x. refl; is_bytes = λ x. ground arith }

abbrev pub store : OpenDalArchiveStore
store = record {
  bucket = codes "archives";
  prefix = codes "a";
  format = json;
  operation_timeout = 30000000000;
}

abbrev pub two_records : List Record
two_records = record_at 5 ∷ record_at 7 ∷ []

abbrev pub payload : Bytes
payload = 5 ∷ 7 ∷ []

abbrev pub manifest : ArchiveManifest
manifest = record {
  version = 4;
  format = json;
  schema_version = 2;
  bucket = first_day;
  generation = some 1;
  payload_key = content_payload_key store first_day (some 1) (encode_path_segment (digest payload));
  record_count = 2;
  payload_bytes = 2;
  sha256 = encode_path_segment (digest payload);
  clustering_key = supported_clustering_key;
}

abbrev pub columns : Parquet
columns = record {
  try_new = λ fields rows column. refused [];
  zstd_level = λ level. refused [];
  write = λ level size batch. refused [];
  read = λ size content. refused [];
}

abbrev libraries : Libraries
libraries = record {
  records_to_vec = λ rs. answer payload;
  records_from_slice = λ content. answer two_records;
  manifest_to_vec = λ m. answer (1 ∷ 2 ∷ 3 ∷ []);
  manifest_from_slice = λ content. answer manifest;
  columns = columns;
  digest = digest;
}

abbrev key : Text
key = content_manifest_key store first_day (some 1) (encode_path_segment (digest (1 ∷ 2 ∷ 3 ∷ [])))

abbrev after : World
after = (write_records libraries objects store first_day (some 1) two_records []).0

read_back : (get_bucket libraries objects store first_day key after).1 ≡ ok two_records
unfolding get_bucket get write_records pulpitum.Object.Manifest.validate_records
    pulpitum.Archive.Port.belongs pulpitum.Base.cmp_list pulpitum.Domain.Model.contains key_order
    pulpitum.Object.Manifest.serialize pulpitum.Object.Manifest.manifest_new put
    pulpitum.Object.Manifest.verify_payload pulpitum.Object.Manifest.deserialize
    pulpitum.Object.Manifest.validate pulpitum.Object.Manifest.manifest_eq
    pulpitum.Domain.Model.bucket_order
read_back = refl

get_bucket-IsSorted_example :
    All (Belongs first_day) two_records × IsSorted key_order record_key two_records
get_bucket-IsSorted_example =
    get_bucket-IsSorted libraries objects store first_day key after two_records read_back

abbrev config : S3ArchiveConfig
config = record (config_new (codes "archives") (codes "/a/")) {
  access_key_id = some (codes "id");
  secret_access_key = some (codes "secret");
}

s3_config_iff_example :
    ((s3_config {O = ℕ} (λ calls. answer (length calls)) config
        ≡ ok (3, with_operator (codes "archives") (codes "/a/")))
      ↔ (IsUsable config × (◌≡◌ {A = Answer ℕ} (answer (length (service config))) (answer 3))))
    × (((e : StoreError) × (s3_config {O = ℕ} (λ calls. answer (length calls)) config ≡ err e))
        ⊎ IsBuilt
            (λ calls. answer (length calls))
            config
            (s3_config (λ calls. answer (length calls)) config))
unfolding config_new
s3_config_iff_example = s3_config_iff (λ calls. answer (length calls)) config 3
