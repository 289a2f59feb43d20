-- ===== src/Object/Evidence.antt =====
-- What a read may return after a write, whatever the object store did with the objects: the
-- checksums of src/adapters/opendal_store.rs.
use pulpitum.Base.{
  ℕ, ◌*◌, ◌≡◌, ◌≢◌, subst, ◌⊎◌, true, false, Option, List, All, arith, eqb_iff, any,
}
use pulpitum.Base.{not, IsSorted, IsLower-mono, less, [], ◌∷◌}
use pulpitum.Base.Text.{Text, Bytes, text_order}
use pulpitum.Domain.Model.{BucketId, Record, bucket_order, key_order, record_key}
use pulpitum.Archive.Port.{ok, belongs, Belongs}
use pulpitum.Object.Port.{Operator, IsDigest}
use pulpitum.Object.Config.{OpenDalArchiveStore, ArchiveFormat}
use pulpitum.Object.Keys.{IsHex, encode_path_segment-IsHex}
use pulpitum.Object.Manifest.{
  ArchiveManifest, Libraries, manifest_eq, validate_records, any_descent, sha256, serialize,
  deserialize,
}
use pulpitum.Object.Adapter.{get_bucket}
use pulpitum.Object.Outcomes.{IsWritten, IsRead, get_bucket-IsRead}

-- The fields of a manifest that decide what is read.
pub manifest_eq_fields :
    (a b : ArchiveManifest)
    → manifest_eq a b ≡ true
    → (a.bucket ≡ b.bucket) × (a.format ≡ b.format) × (a.sha256 ≡ b.sha256)
unfolding manifest_eq
manifest_eq_fields a b h = (
  (eqb_iff bucket_order a.bucket b.bucket).0 (ground arith),
  ground arith,
  (eqb_iff text_order a.sha256 b.sha256).0 (ground arith),
)

module _ (libraries : Libraries) where
  -- Two byte strings that differ and have one SHA-256 checksum.
  abbrev pub Collide : Bytes → Bytes → Type 0
  Collide x y = (x ≢ y) × (sha256 libraries x ≡ sha256 libraries y)

  -- What was serialized in a format reads back.
  abbrev pub RoundTrips : ArchiveFormat → List Record → Type 0
  RoundTrips format rs =
      (payload : Bytes)
      → serialize libraries format rs ≡ ok payload
      → deserialize libraries format payload ≡ ok rs

  pub sha256-IsHex : IsDigest libraries.digest → (x : Bytes) → IsHex (sha256 libraries x) 64
  unfolding sha256
  sha256-IsHex d x =
      subst (λ n. IsHex (sha256 libraries x) (2 * n)) (d.size x)
        (encode_path_segment-IsHex (libraries.digest x) (d.is_bytes x))

  module _ {W : Type 0} (operator : Operator W) (store : OpenDalArchiveStore) where
    -- The read was for the written bucket and returns the written records, or the object or the
    -- payload that it fetched is another one than that written, with the same checksum.
    abbrev pub Evident :
        {b b' : BucketId} {generation : Option ℕ} {rs rs' : List Record} {key : Text} {w : W}
        → IsWritten libraries operator store b generation rs key
        → IsRead libraries operator store b' key rs' w
        → Type 0
    Evident {b} {b'} {generation} {rs} {rs'} written read =
        ((b' ≡ b) × (rs' ≡ rs))
        ⊎ (Collide read.object written.manifest_body ⊎ Collide read.payload written.payload)

All-Belongs :
    (b : BucketId) (rs : List Record) → any (λ r. not (belongs b r)) rs ≡ false → All (Belongs b) rs
All-Belongs b [] h = tt
All-Belongs b (r ∷ rs) h = ground (arith, All-Belongs b rs)

descent-IsSorted : (rs : List Record) → any_descent rs ≡ false → IsSorted key_order record_key rs
unfolding any_descent
descent-IsSorted [] h = tt
descent-IsSorted (a ∷ []) h = (tt, tt)
descent-IsSorted (a ∷ b ∷ rest) h =
    let le : less key_order (record_key b) (record_key a) ≡ false = ground arith in
    let later : IsSorted key_order record_key (b ∷ rest) =
      descent-IsSorted (b ∷ rest) (ground arith) in
    ((le, IsLower-mono key_order record_key a b rest le later.0), later)

-- Accepted records each belong to the bucket and are in clustering order.
pub validate_records_ok :
    (b : BucketId) (rs : List Record)
    → validate_records b rs ≡ ok tt
    → All (Belongs b) rs × IsSorted key_order record_key rs
unfolding validate_records
validate_records_ok b rs h = (All-Belongs b rs (ground arith), descent-IsSorted rs (ground arith))

-- A read that succeeds returns only records that belong to the bucket it was asked for, in
-- clustering order, whatever the object store and the codecs did.
pub get_bucket-IsSorted :
    {W : Type 0} (libraries : Libraries) (operator : Operator W) (store : OpenDalArchiveStore)
    (b : BucketId) (key : Text) (w : W) (rs : List Record)
    → (get_bucket libraries operator store b key w).1 ≡ ok rs
    → All (Belongs b) rs × IsSorted key_order record_key rs
get_bucket-IsSorted libraries operator store b key w rs h =
    validate_records_ok b rs (get_bucket-IsRead libraries operator store b key w rs h).valid
