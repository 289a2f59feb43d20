-- ===== src/Archive/Memory.antt =====
-- `InMemoryArchiveStore` of src/ports/storage.rs.
use pulpitum.Base.{
  ℕ, ◌+◌, ◌/◌, ◌%◌, ◌≡◌, refl, false, not, Option, none, some, List, [], ◌∷◌, ◌++◌, arith, ltb, any,
  if◌then◌else◌, Map, get, put, get-put_self, All,
}
use pulpitum.Base.Text.{Text, Bytes, text_order, codes, decimal}
use pulpitum.Domain.Model.{BucketId, Record}
use pulpitum.Archive.Port.{other, StoreResult, ok, err, ArchiveStore, belongs, Belongs, IsFaithful}

abbrev pub Objects : Type 0
Objects = Map Text (List Record)

-- `HEX[digit]`.
abbrev hex_digit : ℕ → ℕ
hex_digit d = if ltb d 10 then b'0' + d else 87 + d

-- Two digits for each byte: the high half first.
unfoldable pub partition_key_path_component : Bytes → Text
partition_key_path_component [] = []
partition_key_path_component (byte ∷ rest) =
    hex_digit (byte / 16) ∷ hex_digit (byte % 16) ∷ partition_key_path_component rest

abbrev pub bucket_path : BucketId → Text
bucket_path b =
    codes "archives/"
    ++ (b.table_id
        ++ (codes "/" ++ (partition_key_path_component b.partition_key ++ (codes "/" ++ b.key))))

unfoldable pub object_path : BucketId → Text
unfolding partition_key_path_component
object_path b = bucket_path b ++ codes "/data.json"

unfoldable pub generation_path : BucketId → ℕ → Text
unfolding partition_key_path_component decimal
generation_path b g = bucket_path b ++ (codes "/generation-" ++ (decimal g ++ codes "/data.json"))

unfoldable pub put_bucket : BucketId → List Record → Objects → Objects × StoreResult Text
put_bucket b records objects =
    let key = object_path b in (put text_order key records objects, ok key)

unfoldable pub put_bucket_generation :
    BucketId → ℕ → List Record → Objects → Objects × StoreResult Text
put_bucket_generation b g records objects =
    let key = generation_path b g in (put text_order key records objects, ok key)

-- The `ok_or_else` of `get_bucket`, and its check of the records.
abbrev pub checked_object : BucketId → Text → Option (List Record) → StoreResult (List Record)
checked_object b key none = err (other (codes "archive object not found: " ++ key))
checked_object b key (some records) =
    if any (λ r. not (belongs b r)) records
    then err (other (codes "archive records do not match the requested bucket"))
    else ok records

unfoldable pub get_bucket : BucketId → Text → Objects → Objects × StoreResult (List Record)
get_bucket b key objects = (objects, checked_object b key (get text_order key objects))

abbrev pub in_memory : ArchiveStore Objects
in_memory = record {
  put_bucket = put_bucket;
  put_bucket_generation = put_bucket_generation;
  get_bucket = get_bucket;
}

none-foreign :
    (b : BucketId) (rs : List Record) → All (Belongs b) rs → any (λ r. not (belongs b r)) rs ≡ false
none-foreign b [] h = refl
none-foreign b (r ∷ rs) h = ground (arith, none-foreign b rs h.1)

-- A read succeeds only with the stored records, and only if each of them belongs to the bucket.
pub get_bucket_ok :
    (b : BucketId) (key : Text) (objects : Objects) (rs : List Record)
    → (get_bucket b key objects).1 ≡ ok rs
    → (get text_order key objects ≡ some rs) × (any (λ r. not (belongs b r)) rs ≡ false)
unfolding get_bucket
get_bucket_ok b key objects rs h = ground arith

pub stored_read :
    (b : BucketId) (key : Text) (rs : List Record) (objects : Objects)
    → All (Belongs b) rs
    → (get_bucket b key (put text_order key rs objects)).1 ≡ ok rs
unfolding get_bucket
stored_read b key rs objects h = rw (get-put_self text_order key rs objects, none-foreign b rs h)

-- What was stored for a bucket is read back under the key that was returned.
pub in_memory-IsFaithful : IsFaithful in_memory
unfolding put_bucket_generation
in_memory-IsFaithful = record {
  read_back = λ b g rs objects key done own.
      let same : generation_path b g ≡ key = ground arith in
      rw (← same) (stored_read b (generation_path b g) rs objects own);
}
