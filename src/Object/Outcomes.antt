-- ===== src/Object/Outcomes.antt =====
-- What a write or a read of the object store has checked when it succeeds: the calls of
-- `write_records` and `get_bucket` of src/adapters/opendal_store.rs, read back from their result.
use pulpitum.Base.{
  subst, ℕ, ◌≡◌, refl, Bool, true, false, not, Option, none, some, List, arith, ◌==◌, length, eqb,
  eqb_iff,
}
use pulpitum.Base.Text.{Text, Bytes, text_eq, text_order, codes}
use pulpitum.Domain.Model.{BucketId, Record, bucket_order}
use pulpitum.Archive.Port.{StoreError, StoreResult, ok, err}
use pulpitum.Object.Port.{Answer, answer, refused, Operator, WriteOutcome, next_call-eq-ok}
use pulpitum.Object.Config.{OpenDalArchiveStore}
use pulpitum.Object.Results.{map_err, refuse_if, try_u64}
use pulpitum.Object.Keys.{content_payload_key, content_manifest_key, manifest_digest}
use pulpitum.Object.Manifest.{
  ArchiveManifest, Libraries, manifest_eq, validate, validate_records, sha256, serialize,
  deserialize, manifest_new, verify_payload,
}
use pulpitum.Object.Adapter.{
  read_object, read_manifest_records, verified, after_write, create_object_verified, upload_payload,
  upload_manifest, write_records, get_bucket, check_digest,
}

module _ {W : Type 0} (libraries : Libraries) (operator : Operator W)
    (store : OpenDalArchiveStore) where
  -- What a write that returned `key` has done.
  pub record IsWritten (b : BucketId) (generation : Option ℕ) (rs : List Record) (key : Text)
      : Type 0 where
    pub payload : Bytes
    pub manifest : ArchiveManifest
    pub manifest_body : Bytes
    pub found : ArchiveManifest
    pub valid : validate_records b rs ≡ ok tt
    pub serialized : serialize libraries store.format rs ≡ ok payload
    pub described :
        manifest_new libraries b generation store.format
          (content_payload_key store b generation (sha256 libraries payload))
          rs
          payload
        ≡ ok manifest
    pub encoded : libraries.manifest_to_vec manifest ≡ answer manifest_body
    pub decoded : libraries.manifest_from_slice manifest_body ≡ answer found
    pub same : manifest_eq found manifest ≡ true
    pub keyed : key ≡ content_manifest_key store b generation (sha256 libraries manifest_body)

  -- What a read in the world `w` that returned `rs` has fetched and checked.
  pub record IsRead (b : BucketId) (key : Text) (rs : List Record) (w : W) : Type 0 where
    pub object : Bytes
    pub expected : Option Text
    pub manifest : ArchiveManifest
    pub payload : Bytes
    pub fetched : (read_object libraries operator store key w).1 ≡ ok object
    pub fetched_payload :
        (read_object libraries operator store manifest.payload_key
          ((read_object libraries operator store key w).0)).1
        ≡ ok payload
    pub named : manifest_digest key ≡ ok expected
    pub intact : check_digest libraries operator store object expected ≡ ok tt
    pub decoded : libraries.manifest_from_slice object ≡ answer manifest
    pub own : eqb bucket_order manifest.bucket b ≡ true
    pub verified : verify_payload libraries manifest payload ≡ ok tt
    pub deserialized : deserialize libraries manifest.format payload ≡ ok rs
    pub valid : validate_records b rs ≡ ok tt

  pub map_err-eq-ok :
      {A : Type 0} (context : Text) (a : Answer A) {x : A} → map_err context a ≡ ok x → a ≡ answer x
  map_err-eq-ok context (answer y) h = ground arith
  map_err-eq-ok context (refused e) h = cc

  pub refuse_if-eq-ok :
      (test : Bool) (message : Text) {u : Unit {0}} → refuse_if test message ≡ ok u → test ≡ false
  refuse_if-eq-ok true message h = cc
  refuse_if-eq-ok false message h = refl

  pub not-false : (t : Bool) → not t ≡ false → t ≡ true
  not-false true h = refl
  not-false false h = cc

  verified_ok :
      (expected : Bytes) (error : Option StoreError) (r : W × StoreResult Bytes) {u : Bytes}
      → (verified libraries operator store expected error r).1 ≡ ok u
      → u ≡ expected
  verified_ok expected error (w, ok uploaded) h =
      ground (arith, (eqb_iff text_order uploaded expected).0)
  verified_ok expected (some e) (w, err _) h = cc
  verified_ok expected none (w, err _) h = cc

  after_write_ok :
      (key : Text) (expected : Bytes) (out : W × WriteOutcome) {u : Bytes}
      → (after_write libraries operator store key expected out).1 ≡ ok u
      → u ≡ expected
  after_write_ok key expected (w, outcome) h = verified_ok expected _ _ h

  -- A body that was uploaded is the body that was to be.
  pub create_object_verified_ok :
      (key : Text) (expected : Bytes) (w : W) {u : Bytes}
      → (create_object_verified libraries operator store key expected w).1 ≡ ok u
      → u ≡ expected
  unfolding create_object_verified
  create_object_verified_ok key expected w h =
      after_write_ok key expected (operator.write_if_not_exists key expected w) h

  pub upload_manifest_ok :
      (m : ArchiveManifest) (manifest_body : Bytes) (at : Text) (w : W) {key : Text}
      → (upload_manifest libraries operator store m manifest_body at w).1 ≡ ok key
      → (found : ArchiveManifest) × (libraries.manifest_from_slice manifest_body ≡ answer found)
        × (validate found ≡ ok tt)
        × (manifest_eq found m ≡ true)
        × (key ≡ at)
  unfolding upload_manifest
  upload_manifest_ok m manifest_body at w h =
      let (uploaded, created, h1) =
        next_call-eq-ok (create_object_verified libraries operator store at manifest_body w) _ h in
      let w1 : W = (create_object_verified libraries operator store at manifest_body w).0 in
      let (found, decoded, h2) =
        next_call-eq-ok
          (
            w1,
            map_err (codes "archive manifest deserialization: ")
                (libraries.manifest_from_slice uploaded),
          )
          _ h1 in
      let (_, validated, h3) = next_call-eq-ok (w1, validate found) _ h2 in
      let (_, same, h4) =
        next_call-eq-ok
          (
            w1,
            refuse_if (not (manifest_eq found m))
                (codes "uploaded archive manifest does not match the intended manifest"),
          )
          _ h3 in
      let body_same : uploaded ≡ manifest_body =
        create_object_verified_ok at manifest_body w created in
      let read : libraries.manifest_from_slice uploaded ≡ answer found =
        map_err-eq-ok (codes "archive manifest deserialization: ")
          (libraries.manifest_from_slice uploaded) decoded in
      (
        found,
        subst (λ u. libraries.manifest_from_slice u ≡ answer found) body_same read,
        validated,
        not-false _ (
            refuse_if-eq-ok (not (manifest_eq found m))
              (codes "uploaded archive manifest does not match the intended manifest") same),
        ground (arith, h4),
      )

  pub write_records-IsWritten :
      (b : BucketId) (generation : Option ℕ) (rs : List Record) (w : W) (key : Text)
      → (write_records libraries operator store b generation rs w).1 ≡ ok key
      → IsWritten b generation rs key
  unfolding write_records
  write_records-IsWritten b generation rs w key h =
      let (_, valid, h1) = next_call-eq-ok (w, validate_records b rs) _ h in
      let (payload, serialized, h2) =
        next_call-eq-ok (w, serialize libraries store.format rs) _ h1 in
      let payload_key : Text = content_payload_key store b generation (sha256 libraries payload) in
      let (m, described, h3) =
        next_call-eq-ok (w, manifest_new libraries b generation store.format payload_key rs payload)
          _ h2 in
      let (manifest_body, encoded, h4) =
        next_call-eq-ok
          (w, map_err (codes "archive manifest serialization: ") (libraries.manifest_to_vec m)) _
          h3 in
      let (_, _, h5) = next_call-eq-ok (upload_payload libraries operator store m payload w) _ h4 in
      let (found, decoded, _, same, keyed) =
        upload_manifest_ok m manifest_body
          (content_manifest_key store b generation (sha256 libraries manifest_body))
          ((upload_payload libraries operator store m payload w).0) h5 in
      record {
        payload = payload;
        manifest = m;
        manifest_body = manifest_body;
        found = found;
        valid = valid;
        serialized = serialized;
        described = described;
        encoded =
            map_err-eq-ok (codes "archive manifest serialization: ") (libraries.manifest_to_vec m)
              encoded;
        decoded = decoded;
        same = same;
        keyed = keyed;
      }

  pub check_digest_ok :
      (object : Bytes) (expected : Text) {u : Unit {0}}
      → check_digest libraries operator store object (some expected) ≡ ok u
      → sha256 libraries object ≡ expected
  check_digest_ok object expected h = (eqb_iff text_order (sha256 libraries object) expected).0 (
      not-false _ (
        refuse_if-eq-ok (not (text_eq (sha256 libraries object) expected))
          (codes "archive manifest checksum does not match its object key") h))

  read_manifest_records_ok :
      (b : BucketId) (m : ArchiveManifest) (w : W) {rs : List Record}
      → (read_manifest_records libraries operator store b m w).1 ≡ ok rs
      → (payload : Bytes) × ((read_object libraries operator store m.payload_key w).1 ≡ ok payload)
        × (eqb bucket_order m.bucket b ≡ true)
        × (verify_payload libraries m payload ≡ ok tt)
        × (deserialize libraries m.format payload ≡ ok rs)
        × (validate_records b rs ≡ ok tt)
  unfolding read_manifest_records
  read_manifest_records_ok b m w {rs} h =
      let (_, _, h1) = next_call-eq-ok (w, validate m) _ h in
      let other_bucket : Bool = not (eqb bucket_order m.bucket b) in
      let message : Text = codes "archive manifest does not match the requested bucket" in
      let (_, own, h2) = next_call-eq-ok (w, refuse_if other_bucket message) _ h1 in
      let (payload, fetched, h3) =
        next_call-eq-ok (read_object libraries operator store m.payload_key w) _ h2 in
      let w1 : W = (read_object libraries operator store m.payload_key w).0 in
      let (_, checked, h4) = next_call-eq-ok (w1, verify_payload libraries m payload) _ h3 in
      let (rs', deserialized, h5) =
        next_call-eq-ok (w1, deserialize libraries m.format payload) _ h4 in
      let (count, _, h6) =
        next_call-eq-ok (w1, try_u64 (codes "archive record count exceeds u64") (length rs')) _
          h5 in
      let (_, _, h7) =
        next_call-eq-ok
          (
            w1,
            refuse_if (not (count == m.record_count))
                (codes "archive record count does not match manifest"),
          )
          _ h6 in
      let (_, valid, h8) = next_call-eq-ok (w1, validate_records b rs') _ h7 in
      let same : rs' ≡ rs = ground (arith, h8) in
      (
        payload,
        fetched,
        not-false _ (refuse_if-eq-ok other_bucket message own),
        checked,
        subst (λ l. deserialize libraries m.format payload ≡ ok l) same deserialized,
        subst (λ l. validate_records b l ≡ ok tt) same valid,
      )

  pub get_bucket-IsRead :
      (b : BucketId) (key : Text) (w : W) (rs : List Record)
      → (get_bucket libraries operator store b key w).1 ≡ ok rs
      → IsRead b key rs w
  unfolding get_bucket
  get_bucket-IsRead b key w rs h =
      let (object, fetched, h1) =
        next_call-eq-ok (read_object libraries operator store key w) _ h in
      let w1 : W = (read_object libraries operator store key w).0 in
      let (expected, named, h2) = next_call-eq-ok (w1, manifest_digest key) _ h1 in
      let (_, intact, h3) =
        next_call-eq-ok (w1, check_digest libraries operator store object expected) _ h2 in
      let context : Text = codes "archive manifest deserialization: " in
      let (m, decoded, h4) =
        next_call-eq-ok (w1, map_err context (libraries.manifest_from_slice object)) _ h3 in
      let (rs', got, h5) =
        next_call-eq-ok (read_manifest_records libraries operator store b m w1) _ h4 in
      let w2 : W = (read_manifest_records libraries operator store b m w1).0 in
      let (_, _, h6) =
        next_call-eq-ok (w2, try_u64 (codes "archive manifest exceeds u64 bytes") (length object)) _
          h5 in
      let same : rs' ≡ rs = ground (arith, h6) in
      let (payload, fetched_payload, own, checked, deserialized, valid) =
        read_manifest_records_ok b m w1 got in
      record {
        object = object;
        expected = expected;
        manifest = m;
        payload = payload;
        fetched = fetched;
        fetched_payload = fetched_payload;
        named = named;
        intact = intact;
        decoded = map_err-eq-ok context (libraries.manifest_from_slice object) decoded;
        own = own;
        verified = checked;
        deserialized = subst (λ l. deserialize libraries m.format payload ≡ ok l) same deserialized;
        valid = subst (λ l. validate_records b l ≡ ok tt) same valid;
      }
