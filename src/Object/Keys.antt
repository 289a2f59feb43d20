-- ===== src/Object/Keys.antt =====
-- The object keys of src/adapters/opendal_store.rs: the directory of a bucket, the keys that carry
-- the checksum of their content, and `manifest_digest`, which reads it back from a key.
use pulpitum.Base.{
  ℕ, zero, suc, ◌+◌, ◌*◌, ◌/◌, ◌%◌, ◌<◌, ◌≡◌, refl, ap, Bool, true, false, ◌&&◌, ◌||◌, not, Option,
  none, some, List, [], ◌∷◌, ◌++◌, arith, ltb, leb, ◌==◌, if◌then◌else◌, any, All, length,
  length-append, eqb_iff, eqb_refl, Bool-cases, inl, inr,
}
use pulpitum.Base.Text.{Text, Bytes, text_eq, text_order, codes, decimal}
use pulpitum.Domain.Model.{BucketId}
use pulpitum.Archive.Port.{other, StoreResult, ok, err}
use pulpitum.Object.Config.{ArchiveFormat, json, parquet, OpenDalArchiveStore}

abbrev hex_digit : ℕ → ℕ
hex_digit d = if ltb d 10 then b'0' + d else 87 + d

-- `format!("{byte:02x}")` for each byte.
unfoldable pub encode_path_segment : Bytes → Text
encode_path_segment [] = []
encode_path_segment (byte ∷ rest) =
    hex_digit (byte / 16) ∷ hex_digit (byte % 16) ∷ encode_path_segment rest

-- `ArchiveFormat::extension`, which is also its `Display`.
unfoldable pub extension : ArchiveFormat → Text
extension json = codes "json"
extension parquet = codes "parquet"

unfoldable pub bucket_prefix : OpenDalArchiveStore → BucketId → Text
unfolding encode_path_segment
bucket_prefix store b =
    store.prefix
    ++ (b'/'
        ∷ (encode_path_segment b.table_id
            ++ (b'/'
                ∷ (encode_path_segment b.partition_key ++ (b'/' ∷ encode_path_segment b.key)))))

unfoldable pub object_directory : OpenDalArchiveStore → BucketId → Option ℕ → Text
unfolding bucket_prefix decimal
object_directory store b (some generation) =
    bucket_prefix store b ++ (codes "/generation-" ++ decimal generation)
object_directory store b none = bucket_prefix store b

unfoldable pub content_payload_key : OpenDalArchiveStore → BucketId → Option ℕ → Text → Text
unfolding object_directory extension
content_payload_key store b generation digest =
    object_directory store b generation
    ++ (codes "/records-" ++ (digest ++ (codes "." ++ extension store.format)))

unfoldable pub content_manifest_key : OpenDalArchiveStore → BucketId → Option ℕ → Text → Text
unfolding object_directory
content_manifest_key store b generation digest =
    object_directory store b generation ++ (codes "/manifest-" ++ (digest ++ codes ".json"))

abbrev is_slash : ℕ → Bool
is_slash c = c == b'/'

-- `rsplit('/').next()`: what follows the last slash.
unfoldable pub filename : Text → Text
filename [] = []
filename (c ∷ rest) =
    let after = filename rest in
    if any is_slash rest then after else if is_slash c then rest else c ∷ rest

unfoldable pub strip_prefix : Text → Text → Option Text
strip_prefix [] text = some text
strip_prefix (p ∷ prefix) [] = none
strip_prefix (p ∷ prefix) (c ∷ text) = if p == c then strip_prefix prefix text else none

abbrev with_front : ℕ → Option Text → Option Text
with_front c none = none
with_front c (some text) = some (c ∷ text)

unfoldable pub strip_suffix : Text → Text → Option Text
strip_suffix suffix [] = if text_eq [] suffix then some [] else none
strip_suffix suffix (c ∷ text) =
    let rest = strip_suffix suffix text in
    if text_eq (c ∷ text) suffix then some [] else with_front c rest

abbrev pub is_ascii_hexdigit : ℕ → Bool
is_ascii_hexdigit c =
    (leb b'0' c && leb c b'9') || (leb b'a' c && leb c b'f') || (leb b'A' c && leb c b'F')

abbrev pub DigestResult : Type 0
DigestResult = StoreResult (Option Text)

-- A text of 64 code points that is not of 64 bytes is not ASCII, so it is refused as well.
abbrev checked_digest : Option Text → DigestResult
checked_digest none = ok none
checked_digest (some digest) =
    if not (length digest == 64) || any (λ c. not (is_ascii_hexdigit c)) digest
    then err (other (codes "archive manifest object key contains an invalid checksum"))
    else ok (some digest)

abbrev suffix_stripped : Option Text → Option Text
suffix_stripped none = none
suffix_stripped (some name) = strip_suffix (codes ".json") name

unfoldable pub manifest_digest : Text → DigestResult
unfolding filename strip_prefix strip_suffix
manifest_digest object_key =
    checked_digest (suffix_stripped (strip_prefix (codes "manifest-") (filename object_key)))

any-append : (p : ℕ → Bool) (xs ys : Text) → any p (xs ++ ys) ≡ (any p xs || any p ys)
any-append p [] ys = refl
any-append p (x ∷ xs) ys = ground (arith, any-append p xs ys)

no-slash_append :
    (xs ys : Text)
    → any is_slash xs ≡ false
    → any is_slash ys ≡ false
    → any is_slash (xs ++ ys) ≡ false
no-slash_append xs ys h k = ground (arith, any-append is_slash xs ys)

filename_flat : (text : Text) → any is_slash text ≡ false → filename text ≡ text
unfolding filename
filename_flat [] h = refl
filename_flat (c ∷ rest) h = ground arith

pub filename-append :
    (dir name : Text) → any is_slash name ≡ false → filename (dir ++ (b'/' ∷ name)) ≡ name
unfolding filename
filename-append [] name h = ground (arith, filename_flat name h)
filename-append (c ∷ dir) name h =
    ground (arith, filename-append dir name h, any-append is_slash dir (b'/' ∷ name))

longer : (c : ℕ) (xs suffix : Text) → text_eq (c ∷ (xs ++ suffix)) suffix ≡ false
longer c xs suffix = elim (Bool-cases (text_eq (c ∷ (xs ++ suffix)) suffix)) [
  | inr e ↦ e
  | inl e ↦
      let same : (c ∷ (xs ++ suffix)) ≡ suffix = (eqb_iff text_order _ suffix).0 e in
      let size : suc (length (xs ++ suffix)) ≡ length suffix = ap length same in
      absurd (omega (arith, length-append xs suffix))
]

strip_suffix-append : (text suffix : Text) → strip_suffix suffix (text ++ suffix) ≡ some text
unfolding strip_suffix pulpitum.Base.cmp_list
strip_suffix-append [] [] = refl
strip_suffix-append [] (c ∷ suffix) = rw (eqb_refl text_order (c ∷ suffix)) refl
strip_suffix-append (c ∷ text) suffix =
    rw (longer c text suffix, strip_suffix-append text suffix) refl

-- The texts that `encode_path_segment` makes.
pub record IsHex (text : Text) (n : ℕ) : Type 0 where
  pub size : length text ≡ n
  pub digits : any (λ c. not (is_ascii_hexdigit c)) text ≡ false
  pub flat : any is_slash text ≡ false

pub encode_path_segment-IsHex :
    (bytes : Bytes)
    → All (λ byte. ltb byte 256 ≡ true) bytes
    → IsHex (encode_path_segment bytes) (2 * length bytes)
unfolding encode_path_segment
encode_path_segment-IsHex [] h = record { size = omega arith; digits = refl; flat = refl }
encode_path_segment-IsHex (byte ∷ rest) h =
    let tail : IsHex (encode_path_segment rest) (2 * length rest) =
      encode_path_segment-IsHex rest h.1 in
    let high : byte / 16 < 16 = ground (arith, h.0) in
    let low : byte % 16 < 16 = ground arith in
    record {
      size = ground (arith, tail.size);
      digits = ground (arith, tail.digits);
      flat = ground (arith, tail.flat);
    }

hex_name :
    (digest : Text)
    → IsHex digest 64
    → any is_slash (codes "manifest-" ++ (digest ++ codes ".json")) ≡ false
hex_name digest hex =
    no-slash_append (codes "manifest-") (digest ++ codes ".json") refl
      (no-slash_append digest (codes ".json") hex.flat refl)

-- The checksum that the key of a manifest carries is read back from it.
pub manifest_digest-content_manifest_key :
    (store : OpenDalArchiveStore) (b : BucketId) (generation : Option ℕ) (digest : Text)
    → IsHex digest 64
    → manifest_digest (content_manifest_key store b generation digest) ≡ ok (some digest)
unfolding manifest_digest content_manifest_key
manifest_digest-content_manifest_key store b generation digest hex =
    rw
      (
        filename-append (object_directory store b generation) _ (hex_name digest hex),
        strip_suffix-append digest (codes ".json"),
        hex.size,
        hex.digits,
      )
      refl
