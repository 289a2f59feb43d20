-- ===== src/Object/Durable.antt =====
-- `OpenDalArchiveStore` of src/adapters/opendal_store.rs on an object store that keeps its objects.
use pulpitum.Base.{
  ℕ, ◌≡◌, refl, sym, subst, ◌∙◌, inl, inr, true, not, Option, none, some, List, [], ◌∷◌, arith,
  length, eqb_iff, Bool-cases,
}
use pulpitum.Base.Text.{Text, Bytes, text_eq, text_order, codes}
use pulpitum.Domain.Model.{BucketId, Record, bucket_order}
use pulpitum.Archive.Port.{StoreError, StoreResult, ok, err}
use pulpitum.Object.Port.{
  answer, Operator, WriteOutcome, ReadOutcome, body, read_timed_out, read_failed, Call, next_call,
  next_call-eq-ok,
}
use pulpitum.Object.Config.{OpenDalArchiveStore}
use pulpitum.Object.Results.{map_err, refuse_if, try_u64}
use pulpitum.Object.Keys.{content_payload_key, content_manifest_key}
use pulpitum.Object.Manifest.{
  ArchiveManifest, Libraries, manifest_eq, validate, validate_records, sha256, serialize,
  deserialize, manifest_new, verify_payload, texts_eq,
}
use pulpitum.Object.Adapter.{
  read_result, read_object, after_write, verified, create_object_verified, upload_payload,
  upload_manifest, write_records,
}
use pulpitum.Object.Outcomes.{create_object_verified_ok, upload_manifest_ok}

-- An object that was read once stays as it is and can be read again: it is written under the
-- condition that there is none, and nobody deletes it.
pub record IsDurable {W : Type 0} (operator : Operator W) : Type 0 where
  pub read_keeps :
      (k j : Text) (b : Bytes) (w : W)
      → (operator.read k w).1 ≡ body b
      → (operator.read k (operator.read j w).0).1 ≡ body b
  pub write_keeps :
      (k j : Text) (b c : Bytes) (w : W)
      → (operator.read k w).1 ≡ body b
      → (operator.read k (operator.write_if_not_exists j c w).0).1 ≡ body b

-- The world after a chain whose rest leaves the world alone.
pub world_of :
    {W A B : Type 0} (m : W × StoreResult A) (f : A → Call W B)
    → ((a : A) → (f a m.0).0 ≡ m.0)
    → (next_call m f).0 ≡ m.0
world_of (w, ok a) f h = h a
world_of (w, err e) f h = refl

texts_eq_iff : (a b : List Text) → texts_eq a b ≡ true → a ≡ b
texts_eq_iff [] [] h = refl
texts_eq_iff [] (y ∷ ys) h = cc
texts_eq_iff (x ∷ xs) [] h = cc
texts_eq_iff (x ∷ xs) (y ∷ ys) h = ground (arith, h, (eqb_iff text_order x y).0, texts_eq_iff xs ys)

-- The derived equality of manifests is equality.
pub manifest_eq_iff : (a b : ArchiveManifest) → manifest_eq a b ≡ true → a ≡ b
unfolding manifest_eq
manifest_eq_iff a b h =
    let bucket : a.bucket ≡ b.bucket =
      (eqb_iff bucket_order a.bucket b.bucket).0 (ground (arith, h)) in
    let key : a.payload_key ≡ b.payload_key =
      (eqb_iff text_order a.payload_key b.payload_key).0 (ground (arith, h)) in
    let sum : a.sha256 ≡ b.sha256 = (eqb_iff text_order a.sha256 b.sha256).0 (ground (arith, h)) in
    let cluster : a.clustering_key ≡ b.clustering_key =
      texts_eq_iff a.clustering_key b.clustering_key (ground (arith, h)) in
    ground (arith, h, bucket, key, sum, cluster)

module _ {W : Type 0} (libraries : Libraries) (operator : Operator W)
    (store : OpenDalArchiveStore) where
  abbrev pub Stored : W → Text → Bytes → Type 0
  Stored w k b = (operator.read k w).1 ≡ body b

  read_result_ok :
      (r : W × ReadOutcome) (b : Bytes)
      → r.1 ≡ body b
      → read_result libraries operator store r ≡ (r.0, ok b)
  read_result_ok (w, body c) b h = ground (arith, h)
  read_result_ok (w, read_timed_out) b h = cc
  read_result_ok (w, read_failed e) b h = cc

  pub read_object_ok :
      (k : Text) (b : Bytes) (w : W)
      → Stored w k b
      → read_object libraries operator store k w ≡ ((operator.read k w).0, ok b)
  unfolding read_object
  read_object_ok k b w h = read_result_ok (operator.read k w) b h

  read_result_world : (r : W × ReadOutcome) → (read_result libraries operator store r).0 ≡ r.0
  read_result_world (w, body c) = refl
  read_result_world (w, read_timed_out) = refl
  read_result_world (w, read_failed e) = refl

  verified_world :
      (expected : Bytes) (error : Option StoreError) (r : W × StoreResult Bytes)
      → (verified libraries operator store expected error r).0 ≡ r.0
  verified_world expected error (w, ok u) = elim (Bool-cases (text_eq u expected)) [
    | inl y ↦ rw y refl
    | inr n ↦ rw n refl
  ]
  verified_world expected (some e) (w, err x) = refl
  verified_world expected none (w, err x) = refl

  read_result_body :
      (r : W × ReadOutcome) {b : Bytes}
      → (read_result libraries operator store r).1 ≡ ok b
      → r.1 ≡ body b
  read_result_body (w, body c) h = ground (arith, h)
  read_result_body (w, read_timed_out) h = cc
  read_result_body (w, read_failed e) h = cc

  verified_read :
      (expected : Bytes) (error : Option StoreError) (r : W × StoreResult Bytes) {u : Bytes}
      → (verified libraries operator store expected error r).1 ≡ ok u
      → r.1 ≡ ok u
  verified_read expected error (w, ok x) h = ground (arith, h)
  verified_read expected (some e) (w, err x) h = cc
  verified_read expected none (w, err x) h = cc

  module _ (durable : IsDurable operator) where
    -- What was stored stays, and what was created is stored.
    after_write-Stored :
        (k j : Text) (b c : Bytes) (out : W × WriteOutcome)
        → Stored out.0 j c
        → Stored (after_write libraries operator store k b out).0 j c
    unfolding read_object
    after_write-Stored k j b c (w, outcome) h =
        let world : (after_write libraries operator store k b (w, outcome)).0
            ≡ (operator.read k w).0 =
          verified_world b _ (read_object libraries operator store k w)
          ∙ read_result_world (operator.read k w) in
        subst (λ x. Stored x j c) (sym world) (durable.read_keeps j k c w h)

    pub create-Stored :
        (k j : Text) (b c : Bytes) (w : W)
        → Stored w j c
        → Stored (create_object_verified libraries operator store k b w).0 j c
    unfolding create_object_verified
    create-Stored k j b c w h =
        after_write-Stored k j b c (operator.write_if_not_exists k b w)
          (durable.write_keeps j k c b w h)

    after_write_made :
        (k : Text) (b : Bytes) (out : W × WriteOutcome) {u : Bytes}
        → (after_write libraries operator store k b out).1 ≡ ok u
        → Stored (after_write libraries operator store k b out).0 k u
    unfolding read_object
    after_write_made k b (w, outcome) {u} h =
        after_write-Stored k k b u (w, outcome)
          (read_result_body (operator.read k w)
            (verified_read b _ (read_object libraries operator store k w) h))

    create_made :
        (k : Text) (b : Bytes) (w : W) {u : Bytes}
        → (create_object_verified libraries operator store k b w).1 ≡ ok u
        → Stored (create_object_verified libraries operator store k b w).0 k b
    unfolding create_object_verified
    create_made k b w {u} h =
        subst (Stored (create_object_verified libraries operator store k b w).0 k)
          (create_object_verified_ok libraries operator store k b w h)
          (after_write_made k b (operator.write_if_not_exists k b w) h)

    upload_payload_world :
        (m : ArchiveManifest) (payload : Bytes) (w : W)
        → (upload_payload libraries operator store m payload w).0
          ≡ (create_object_verified libraries operator store m.payload_key payload w).0
    unfolding upload_payload
    upload_payload_world m payload w =
        world_of (create_object_verified libraries operator store m.payload_key payload w) _ (λ u.
          world_of (_, verify_payload libraries m u) _
            (λ _.
              world_of (_, deserialize libraries store.format u) _
                (λ rs.
                  world_of (_, try_u64 (codes "archive record count exceeds u64") (length rs)) _
                    (λ n. refl))))

    pub upload_manifest_world :
        (m : ArchiveManifest) (manifest_body : Bytes) (at : Text) (w : W)
        → (upload_manifest libraries operator store m manifest_body at w).0
          ≡ (create_object_verified libraries operator store at manifest_body w).0
    unfolding upload_manifest
    upload_manifest_world m manifest_body at w =
        world_of (create_object_verified libraries operator store at manifest_body w) _ (λ u.
          world_of
            (
              _,
              map_err (codes "archive manifest deserialization: ")
                  (libraries.manifest_from_slice u),
            )
            _
            (λ found.
              world_of (_, validate found) _
                (λ _.
                  world_of
                    (
                      _,
                      refuse_if (not (manifest_eq found m))
                          (codes "uploaded archive manifest does not match the intended manifest"),
                    )
                    _ (λ _. refl))))

    -- What the two uploads have checked and stored.
    pub upload_payload_ok :
        (m : ArchiveManifest) (payload : Bytes) (w : W)
        → (upload_payload libraries operator store m payload w).1 ≡ ok tt
        → Stored (upload_payload libraries operator store m payload w).0 m.payload_key payload
          × (verify_payload libraries m payload ≡ ok tt)
    unfolding upload_payload
    upload_payload_ok m payload w h =
        let c : W × StoreResult Bytes =
          create_object_verified libraries operator store m.payload_key payload w in
        let (u, created, h1) = next_call-eq-ok c _ h in
        let (_, checked, h2) = next_call-eq-ok (c.0, verify_payload libraries m u) _ h1 in
        (
          subst (λ x. Stored x m.payload_key payload) (sym (upload_payload_world m payload w))
              (create_made m.payload_key payload w created),
          subst (λ x. verify_payload libraries m x ≡ ok tt)
              (create_object_verified_ok libraries operator store m.payload_key payload w created)
              checked,
        )

    pub upload_manifest_valid :
        (m : ArchiveManifest) (manifest_body : Bytes) (at : Text) (w : W) {key : Text}
        → (upload_manifest libraries operator store m manifest_body at w).1 ≡ ok key
        → Stored (upload_manifest libraries operator store m manifest_body at w).0 at manifest_body
          × ((found : ArchiveManifest) × (libraries.manifest_from_slice manifest_body
                ≡ answer found)
              × (validate found ≡ ok tt)
              × (manifest_eq found m ≡ true)
              × (key ≡ at))
    unfolding upload_manifest
    upload_manifest_valid m manifest_body at w h =
        let c : W × StoreResult Bytes =
          create_object_verified libraries operator store at manifest_body w in
        let (u, created, _) = next_call-eq-ok c _ h in
        (
          subst (λ x. Stored x at manifest_body) (sym (upload_manifest_world m manifest_body at w))
              (create_made at manifest_body w created),
          upload_manifest_ok libraries operator store m manifest_body at w h,
        )

    pub write_world :
        (b : BucketId) (generation : Option ℕ) (rs : List Record) (w : W) (payload : Bytes)
        (m : ArchiveManifest) (manifest_body : Bytes)
        → validate_records b rs ≡ ok tt
        → serialize libraries store.format rs ≡ ok payload
        → manifest_new libraries b generation store.format
            (content_payload_key store b generation (sha256 libraries payload))
            rs
            payload
          ≡ ok m
        → libraries.manifest_to_vec m ≡ answer manifest_body
        → write_records libraries operator store b generation rs w
          ≡ next_call (upload_payload libraries operator store m payload w) (λ _.
            upload_manifest libraries operator store m manifest_body
              (content_manifest_key store b generation (sha256 libraries manifest_body)))
    unfolding write_records
    write_world b generation rs w payload m manifest_body valid serialized described encoded =
        rw (valid, serialized, described, encoded) refl
