-- ===== src/Object/Faithful.antt =====
-- The interface of an archive store, filled by `OpenDalArchiveStore` of
-- src/adapters/opendal_store.rs on an object store that keeps its objects.
use pulpitum.Base.{
  ℕ, ◌≤◌, ◌≡◌, refl, sym, subst, ◌∙◌, true, Option, some, List, arith, ◌==◌, length, eqb, eqb_iff,
  eqb_refl, leb, le→leb,
}
use pulpitum.Base.Text.{Text, Bytes, text_order, codes}
use pulpitum.Domain.Model.{BucketId, Record, bucket_order}
use pulpitum.Archive.Port.{StoreResult, ok, err, IsFaithful}
use pulpitum.Object.Port.{
  answer, Operator, body, IsDigest, pure_call, ◌>>=◌, next_call, next_call-eq-ok, next_call-ok,
}
use pulpitum.Object.Config.{OpenDalArchiveStore, ArchiveFormat}
use pulpitum.Object.Results.{map_err, try_u64, u64_max}
use pulpitum.Object.Keys.{
  content_payload_key, content_manifest_key, manifest_digest, manifest_digest-content_manifest_key,
}
use pulpitum.Object.Manifest.{
  ArchiveManifest, Libraries, validate, validate_records, sha256, serialize, deserialize,
  manifest_new, verify_payload,
}
use pulpitum.Object.Adapter.{
  upload_payload, upload_manifest, write_records, read_manifest_records, get_bucket, opendal,
}
use pulpitum.Object.Outcomes.{map_err-eq-ok}
use pulpitum.Object.Evidence.{RoundTrips, sha256-IsHex}
use pulpitum.Object.Durable.{
  IsDurable, manifest_eq_iff, read_object_ok, create-Stored, upload_manifest_world,
  upload_payload_ok, upload_manifest_valid, write_world,
}

module _ {W : Type 0} (libraries : Libraries) (operator : Operator W)
    (store : OpenDalArchiveStore) where
  abbrev Stored : W → Text → Bytes → Type 0
  Stored w k b = (operator.read k w).1 ≡ body b

  module _ (durable : IsDurable operator) where
    described_fields :
        (b : BucketId) (generation : Option ℕ) (format : ArchiveFormat) (at : Text)
        (rs : List Record) (payload : Bytes) (m : ArchiveManifest)
        → manifest_new libraries b generation format at rs payload ≡ ok m
        → (m.bucket ≡ b)
          × (m.format ≡ format)
          × (m.payload_key ≡ at)
          × (m.record_count ≡ length rs)
          × (leb (length rs) u64_max ≡ true)
    unfolding manifest_new
    described_fields b generation format at rs payload m h = (
      ground (arith, h),
      ground (arith, h),
      ground (arith, h),
      ground (arith, h),
      ground (arith, h),
    )

    -- A read of a manifest whose payload is stored.
    read_manifest_records_done :
        (b : BucketId) (m : ArchiveManifest) (payload : Bytes) (rs : List Record) (w : W)
        → validate m ≡ ok tt
        → eqb bucket_order m.bucket b ≡ true
        → Stored w m.payload_key payload
        → verify_payload libraries m payload ≡ ok tt
        → deserialize libraries m.format payload ≡ ok rs
        → try_u64 (codes "archive record count exceeds u64") (length rs) ≡ ok (length rs)
        → (length rs == m.record_count) ≡ true
        → validate_records b rs ≡ ok tt
        → (read_manifest_records libraries operator store b m w).1 ≡ ok rs
    unfolding read_manifest_records
    read_manifest_records_done b m payload rs w valid own stored checked decoded small count
          sorted =
        rw
          (
            valid,
            own,
            read_object_ok libraries operator store m.payload_key payload w stored,
            checked,
            decoded,
            small,
            count,
            sorted,
          )
          refl

    get_bucket_done :
        (b : BucketId) (key : Text) (m : ArchiveManifest) (manifest_body : Bytes) (rs : List Record)
        (w : W)
        → Stored w key manifest_body
        → manifest_digest key ≡ ok (some (sha256 libraries manifest_body))
        → libraries.manifest_from_slice manifest_body ≡ answer m
        → (read_manifest_records libraries operator store b m (operator.read key w).0).1 ≡ ok rs
        → try_u64 (codes "archive manifest exceeds u64 bytes") (length manifest_body)
          ≡ ok (length manifest_body)
        → (get_bucket libraries operator store b key w).1 ≡ ok rs
    unfolding get_bucket
    get_bucket_done b key m manifest_body rs w stored named decoded got small =
        rw
          (
            read_object_ok libraries operator store key manifest_body w stored,
            named,
            eqb_refl text_order (sha256 libraries manifest_body),
            decoded,
          )
          (last (read_manifest_records libraries operator store b m (operator.read key w).0) got)
      where
        last :
            (r : W × StoreResult (List Record))
            → r.1 ≡ ok rs
            → (next_call r (λ records.
                pure_call
                  (try_u64 (codes "archive manifest exceeds u64 bytes") (length manifest_body))
                >>= λ _. pure_call (ok records))).1
              ≡ ok rs
        last (w', ok xs) h = rw small h
        last (w', err e) h = cc

    upload_then_get :
        (b : BucketId) (generation : Option ℕ) (rs : List Record) (payload : Bytes)
        (m : ArchiveManifest) (manifest_body : Bytes) (at key : Text) (w : W)
        → validate_records b rs ≡ ok tt
        → deserialize libraries store.format payload ≡ ok rs
        → manifest_new libraries b generation store.format
            (content_payload_key store b generation (sha256 libraries payload))
            rs
            payload
          ≡ ok m
        → length manifest_body ≤ u64_max
        → Stored w m.payload_key payload
        → verify_payload libraries m payload ≡ ok tt
        → manifest_digest at ≡ ok (some (sha256 libraries manifest_body))
        → (upload_manifest libraries operator store m manifest_body at w).1 ≡ ok key
        → (key ≡ at)
          × ((get_bucket libraries operator store b at
                (upload_manifest libraries operator store m manifest_body at w).0).1
              ≡ ok rs)
    upload_then_get b generation rs payload m manifest_body at key w valid decoded described small
          stored checked named up =
        let (made, (found, from, validated, same, keyed)) =
          upload_manifest_valid libraries operator store durable m manifest_body at w up in
        let w' : W = (upload_manifest libraries operator store m manifest_body at w).0 in
        let is : found ≡ m = manifest_eq_iff found m same in
        let (own, format, _, count, fits) =
          described_fields b generation store.format _ rs payload m described in
        let kept : Stored w' m.payload_key payload =
          subst (λ x. Stored x m.payload_key payload)
            (sym (upload_manifest_world libraries operator store durable m manifest_body at w))
            (create-Stored libraries operator store durable at m.payload_key manifest_body payload w
              stored) in
        let records : (read_manifest_records libraries operator store b m (operator.read at w').0).1
            ≡ ok rs =
          read_manifest_records_done b m payload rs (operator.read at w').0
            (subst (λ x. validate x ≡ ok tt) is validated) ((eqb_iff bucket_order m.bucket b).1 own)
            (durable.read_keeps m.payload_key at payload w' kept) checked
            (subst (λ f. deserialize libraries f payload ≡ ok rs) (sym format) decoded)
            (rw fits refl) (ground (arith, count)) valid in
        (
          keyed,
          get_bucket_done b at m manifest_body rs w' made named
              (subst (λ x. libraries.manifest_from_slice manifest_body ≡ answer x) is from) records
              (rw (le→leb (length manifest_body) u64_max small) refl),
        )

    write_then_get :
        (b : BucketId) (generation : Option ℕ) (rs : List Record) (w : W) (key : Text)
        → IsDigest libraries.digest
        → RoundTrips libraries store.format rs
        → ((m : ArchiveManifest) (bytes : Bytes)
            → libraries.manifest_to_vec m ≡ answer bytes
            → length bytes ≤ u64_max)
        → (write_records libraries operator store b generation rs w).1 ≡ ok key
        → (get_bucket libraries operator store b key
            (write_records libraries operator store b generation rs w).0).1
          ≡ ok rs
    unfolding write_records
    write_then_get b generation rs w key d codec small h =
        let (_, valid, h1) = next_call-eq-ok (w, validate_records b rs) _ h in
        let (payload, serialized, h2) =
          next_call-eq-ok (w, serialize libraries store.format rs) _ h1 in
        let payload_key : Text =
          content_payload_key store b generation (sha256 libraries payload) in
        let (m, described, h3) =
          next_call-eq-ok
            (w, manifest_new libraries b generation store.format payload_key rs payload) _ h2 in
        let context : Text = codes "archive manifest serialization: " in
        let (manifest_body, encoded, h4) =
          next_call-eq-ok (w, map_err context (libraries.manifest_to_vec m)) _ h3 in
        let vec : libraries.manifest_to_vec m ≡ answer manifest_body =
          map_err-eq-ok libraries operator store context (libraries.manifest_to_vec m) encoded in
        let uploaded : W × StoreResult (Unit {0}) =
          upload_payload libraries operator store m payload w in
        let at : Text = content_manifest_key store b generation (sha256 libraries manifest_body) in
        let (_, up, h5) = next_call-eq-ok uploaded _ h4 in
        let world : write_records libraries operator store b generation rs w
            ≡ upload_manifest libraries operator store m manifest_body at uploaded.0 =
          write_world libraries operator store durable b generation rs w payload m manifest_body
            valid serialized described vec
          ∙ next_call-ok uploaded (λ _. upload_manifest libraries operator store m manifest_body at)
              up in
        let (stored, checked) = upload_payload_ok libraries operator store durable m payload w up in
        let (keyed, got) =
          upload_then_get b generation rs payload m manifest_body at key uploaded.0 valid
            (codec payload serialized) described (small m manifest_body vec) stored checked
            (manifest_digest-content_manifest_key store b generation
              (sha256 libraries manifest_body) (sha256-IsHex libraries d manifest_body))
            h5 in
        subst
          (λ k.
            (get_bucket libraries operator store b k
              (write_records libraries operator store b generation rs w).0).1
            ≡ ok rs)
          (sym keyed)
          (subst (λ x. (get_bucket libraries operator store b at x.0).1 ≡ ok rs) (sym world) got)

    -- On an object store that keeps its objects and answers what it answered before, the archive
    -- is faithful: what was written for a bucket is read back under the key that was returned. So
    -- every theorem on cutovers over a faithful archive holds of it. SHA-256 gives 32 bytes,
    -- records that were serialized read back, and a manifest is no longer than `u64` can count.
    pub opendal-IsFaithful :
        IsDigest libraries.digest
        → ((rs : List Record) → RoundTrips libraries store.format rs)
        → ((m : ArchiveManifest) (bytes : Bytes)
            → libraries.manifest_to_vec m ≡ answer bytes
            → length bytes ≤ u64_max)
        → IsFaithful (opendal libraries operator store)
    opendal-IsFaithful d codec small = record {
      read_back = λ b g rs w key put own. write_then_get b (some g) rs w key d (codec rs) small put;
    }
