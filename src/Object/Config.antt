-- ===== src/Object/Config.antt =====
-- `S3ArchiveConfig`, the checks of `s3_config` and the setters of `OpenDalArchiveStore` of
-- src/adapters/opendal_store.rs. The S3 service of OpenDAL is a parameter.
use pulpitum.Base.{
  ℕ, Bool, true, false, ◌&&◌, not, Option, none, some, List, [], ◌∷◌, ◌++◌, ◌==◌, if◌then◌else◌,
}
use pulpitum.Base.Text.{Text, codes, is_blank}
use pulpitum.Archive.Port.{StoreError, other, StoreResult, ok, err}
use pulpitum.Object.Port.{Answer, answer, refused}

pub data S3ServerSideEncryption : Type 0 where
  s3_managed aws_managed_kms : S3ServerSideEncryption
  customer_managed_kms : Text → S3ServerSideEncryption

pub record S3ArchiveConfig : Type 0 where
  pub endpoint : Option Text
  pub bucket : Text
  pub region : Option Text
  pub access_key_id : Option Text
  pub secret_access_key : Option Text
  pub session_token : Option Text
  pub prefix : Text
  pub allow_http : Bool
  pub server_side_encryption : Option S3ServerSideEncryption

-- `S3ArchiveConfig::new`.
unfoldable pub config_new : Text → Text → S3ArchiveConfig
config_new bucket prefix = record {
  endpoint = none;
  bucket = bucket;
  region = none;
  access_key_id = none;
  secret_access_key = none;
  session_token = none;
  prefix = prefix;
  allow_http = false;
  server_side_encryption = none;
}

unfoldable pub starts_with : Text → Text → Bool
starts_with [] text = true
starts_with (p ∷ prefix) [] = false
starts_with (p ∷ prefix) (c ∷ text) = p == c && starts_with prefix text

abbrev pub is_some {ℓ} : {A : Type ℓ} → Option A → Bool
is_some none = false
is_some (some a) = true

abbrev pub bool_ne : Bool → Bool → Bool
bool_ne true b = not b
bool_ne false b = b

abbrev pub is_http : Option Text → Bool
is_http none = false
is_http (some endpoint) = starts_with (codes "http://") endpoint

-- The checks of `s3_config`, in their order.
unfoldable pub check_config : S3ArchiveConfig → StoreResult (Unit {0})
check_config config =
    if is_blank config.bucket
    then err (other (codes "S3 archive bucket is required"))
    else if is_http config.endpoint && not config.allow_http
    then err (
        other (
          codes
            "S3 archive endpoint must use HTTPS unless allow_http is explicitly enabled for development"))
    else if bool_ne (is_some config.access_key_id) (is_some config.secret_access_key)
    then err (other (codes "S3 access key and secret key must be configured together"))
    else if is_some config.session_token && not (is_some config.access_key_id)
    then err (other (codes "an explicit S3 session token requires explicit access and secret keys"))
    else ok tt

-- `trim_matches('/')`: the slashes at the start, then those at the end.
unfoldable pub trim_start : Text → Text
trim_start [] = []
trim_start (c ∷ text) = if c == b'/' then trim_start text else c ∷ text

abbrev pub without_slash : ℕ → Text → Text
without_slash c [] = if c == b'/' then [] else c ∷ []
without_slash c (d ∷ rest) = c ∷ d ∷ rest

unfoldable pub trim_end : Text → Text
trim_end [] = []
trim_end (c ∷ text) = without_slash c (trim_end text)

pub data ArchiveFormat : Type 0 where
  json parquet : ArchiveFormat

-- `OpenDalArchiveStore`, apart from its operator; `bucket` serves telemetry only.
pub record OpenDalArchiveStore : Type 0 where
  pub bucket : Text
  pub prefix : Text
  pub format : ArchiveFormat
  pub operation_timeout : ℕ

-- Durations are in nanoseconds.
abbrev pub default_operation_timeout : ℕ
default_operation_timeout = 30000000000

unfoldable pub with_operator : Text → Text → OpenDalArchiveStore
unfolding trim_start trim_end
with_operator bucket prefix = record {
  bucket = bucket;
  prefix = trim_end (trim_start prefix);
  format = json;
  operation_timeout = default_operation_timeout;
}

unfoldable pub with_format : OpenDalArchiveStore → ArchiveFormat → OpenDalArchiveStore
with_format store format = record store { format = format }

unfoldable pub with_operation_timeout : OpenDalArchiveStore → ℕ → StoreResult OpenDalArchiveStore
with_operation_timeout store timeout =
    if timeout == 0
    then err (other (codes "object-store operation timeout must be greater than zero"))
    else ok (record store { operation_timeout = timeout })

abbrev pub object_error : Text → StoreError
object_error error = other (codes "object store: " ++ error)

-- The calls that `s3_config` makes on the builder of OpenDAL's S3 service, in their order.
pub data ServiceCall : Type 0 where
  call_bucket call_endpoint call_region : Text → ServiceCall
  call_access_key_id call_secret_access_key call_session_token : Text → ServiceCall
  call_sse_with_s3_key call_sse_with_aws_managed_kms_key : ServiceCall
  call_sse_with_customer_managed_kms_key : Text → ServiceCall

abbrev when_some : (Text → ServiceCall) → Option Text → List ServiceCall
when_some setter none = []
when_some setter (some text) = setter text ∷ []

abbrev static_keys : Option Text → Option Text → List ServiceCall
static_keys (some access_key) (some secret_key) =
    call_access_key_id access_key ∷ call_secret_access_key secret_key ∷ []
static_keys _ _ = []

abbrev encryption : Option S3ServerSideEncryption → List ServiceCall
encryption none = []
encryption (some s3_managed) = call_sse_with_s3_key ∷ []
encryption (some aws_managed_kms) = call_sse_with_aws_managed_kms_key ∷ []
encryption (some (customer_managed_kms key_id)) = call_sse_with_customer_managed_kms_key key_id ∷ []

unfoldable pub service : S3ArchiveConfig → List ServiceCall
service config =
    call_bucket config.bucket ∷ when_some call_endpoint config.endpoint
    ++ when_some call_region config.region
    ++ static_keys config.access_key_id config.secret_access_key
    ++ when_some call_session_token config.session_token
    ++ encryption config.server_side_encryption

-- `s3_config`: `Operator::new` on the service that the calls build is a parameter.
module _ {O : Type 0} (new_operator : List ServiceCall → Answer O) where
  abbrev pub built : S3ArchiveConfig → Answer O → StoreResult (O × OpenDalArchiveStore)
  built config (refused error) = err (object_error error)
  built config (answer operator) = ok (operator, with_operator config.bucket config.prefix)

  abbrev pub checked :
      S3ArchiveConfig → StoreResult (Unit {0}) → StoreResult (O × OpenDalArchiveStore)
  checked config (err e) = err e
  checked config (ok _) = built config (new_operator (service config))

  unfoldable pub s3_config : S3ArchiveConfig → StoreResult (O × OpenDalArchiveStore)
  s3_config config = checked config (check_config config)

  -- `OpenDalArchiveStore::s3`: a local endpoint with static keys.
  unfoldable pub s3 : Text → Text → Text → Text → Text → StoreResult (O × OpenDalArchiveStore)
  unfolding config_new
  s3 endpoint bucket access_key secret_key prefix = s3_config (record (config_new bucket prefix) {
    endpoint = some endpoint;
    region = some (codes "us-east-1");
    access_key_id = some access_key;
    secret_access_key = some secret_key;
    allow_http = true;
  })
