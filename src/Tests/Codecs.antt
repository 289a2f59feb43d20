-- ===== src/Tests/Codecs.antt =====
-- A codec of records by lengths, and a map of objects as a durable object store.
use pulpitum.Base.{
  ℕ, zero, suc, ◌+◌, ◌≤◌, ◌≡◌, refl, ap, sym, subst, Bool, true, false, Option, none, some, List,
  [], ◌∷◌, ◌++◌, arith, length, take, drop, Map, get, put, get-put, length-append, eqb, eqb_iff,
  Bool-cases, inl, inr,
}
use pulpitum.Base.Text.{Text, Bytes, text_order}
use pulpitum.Domain.Model.{Record}
use pulpitum.Archive.Port.{StoreResult, ok, IsFaithful}
use pulpitum.Object.Port.{Answer, answer, refused, body}
use pulpitum.Object.Config.{json}
use pulpitum.Object.Manifest.{ArchiveManifest, Libraries, serialize, deserialize}
use pulpitum.Object.Adapter.{opendal, write_records}
use pulpitum.Object.Evidence.{RoundTrips}
use pulpitum.Object.Durable.{IsDurable}
use pulpitum.Object.Faithful.{opendal-IsFaithful}
use pulpitum.Object.Results.{u64_max}
use pulpitum.Object.Keys.{encode_path_segment, content_payload_key, content_manifest_key}
use pulpitum.Tests.Samples.{first_day}
use pulpitum.Tests.Objects.{
  two_records, World, objects, digest, digest-IsDigest, store, columns, manifest, once,
}

encode : List Record → Bytes
encode [] = []
encode (r ∷ rs) =
    r.event_time
    ∷ length r.partition_key
    ∷ (r.partition_key
        ++ (length r.sort_key ∷ (r.sort_key ++ (length r.value ∷ (r.value ++ encode rs)))))

abbrev field : {A : Type 0} → Bytes → (Bytes → Bytes → Option A) → Option A
field [] k = none
field (n ∷ b) k = k (take n b) (drop n b)

abbrev more : Record → Option (List Record) → Option (List Record)
more r none = none
more r (some rs) = some (r ∷ rs)

decode : ℕ → Bytes → Option (List Record)
decode zero b = none
decode (suc n) [] = some []
decode (suc n) (t ∷ b) = field b (λ p b1. field b1 (λ s b2. field b2 (λ v rest.
    more (record { partition_key = p; event_time = t; sort_key = s; value = v }) (decode n rest))))

take-length : (xs ys : Bytes) → take (length xs) (xs ++ ys) ≡ xs
take-length [] ys = refl
take-length (x ∷ xs) ys = ap (x ∷◌) (take-length xs ys)

drop-length : (xs ys : Bytes) → drop (length xs) (xs ++ ys) ≡ ys
drop-length [] ys = refl
drop-length (x ∷ xs) ys = drop-length xs ys

decode-encode : (n : ℕ) (rs : List Record) → length rs ≤ n → decode (suc n) (encode rs) ≡ some rs
unfolding decode encode
decode-encode n [] h = refl
decode-encode zero (r ∷ rs) h = absurd (omega arith)
decode-encode (suc n) (r ∷ rs) h =
    rw
      (
        take-length r.partition_key
            (length r.sort_key ∷ (r.sort_key ++ (length r.value ∷ (r.value ++ encode rs)))),
        drop-length r.partition_key
            (length r.sort_key ∷ (r.sort_key ++ (length r.value ∷ (r.value ++ encode rs)))),
        take-length r.sort_key (length r.value ∷ (r.value ++ encode rs)),
        drop-length r.sort_key (length r.value ∷ (r.value ++ encode rs)),
        take-length r.value (encode rs),
        drop-length r.value (encode rs),
        decode-encode n rs (omega arith),
      )
      refl

length-encode : (rs : List Record) → length rs ≤ length (encode rs)
unfolding encode
length-encode [] = omega arith
length-encode (r ∷ rs) =
    let one : length rs ≤ length (encode rs) = length-encode rs in
    let e1 : _ = length-append r.value (encode rs) in
    let e2 : _ = length-append r.sort_key (length r.value ∷ (r.value ++ encode rs)) in
    let e3 : _ =
      length-append r.partition_key
        (length r.sort_key ∷ (r.sort_key ++ (length r.value ∷ (r.value ++ encode rs)))) in
    omega (arith, one, e1, e2, e3)

abbrev answered : Option (List Record) → Answer (List Record)
answered none = refused []
answered (some rs) = answer rs

-- The manifest of the two records, under generation 1.
abbrev described : ArchiveManifest
described = record manifest {
  payload_key =
      content_payload_key store first_day (some 1)
        (encode_path_segment (digest (encode two_records)));
  payload_bytes = length (encode two_records);
  sha256 = encode_path_segment (digest (encode two_records));
}

abbrev libraries : Libraries
libraries = record {
  records_to_vec = λ rs. answer (encode rs);
  records_from_slice = λ content. answered (decode (suc (length content)) content);
  manifest_to_vec = λ m. answer (1 ∷ 2 ∷ 3 ∷ []);
  manifest_from_slice = λ content. answer described;
  columns = columns;
  digest = digest;
}

codec : (rs : List Record) → RoundTrips libraries json rs
unfolding serialize deserialize
codec rs payload h =
    let same : encode rs ≡ payload = ground (arith, h) in
    rw (← same, decode-encode (length (encode rs)) rs (length-encode rs)) refl

kept :
    (k j : Text) (b c : Bytes) (w : World) (old : Option Bytes)
    → get text_order j w ≡ old
    → (objects.read k w).1 ≡ body b
    → (objects.read k (once j c w old).0).1 ≡ body b
kept k j b c w (some old) there h = h
kept k j b c w none missing h = elim (Bool-cases (eqb text_order j k)) [
  | inr differ ↦ rw (get-put text_order k j c w, differ) h
  | inl same ↦
      let e : j ≡ k = (eqb_iff text_order j k).0 same in
      let gone : get text_order k w ≡ none = rw (← e) missing in absurd (ground (arith, h, gone))
]

objects-IsDurable : IsDurable objects
objects-IsDurable = record {
  read_keeps = λ k j b w h. h;
  write_keeps = λ k j b c w h. kept k j b c w (get text_order j w) refl h;
}

stored :
    (write_records libraries objects store first_day (some 1) two_records []).1
    ≡ ok (
        content_manifest_key store first_day
          (some 1)
          (encode_path_segment (digest (1 ∷ 2 ∷ 3 ∷ []))))
unfolding write_records pulpitum.Object.Manifest.validate_records pulpitum.Archive.Port.belongs
    pulpitum.Base.cmp_list pulpitum.Domain.Model.contains pulpitum.Domain.Model.key_order serialize
    pulpitum.Object.Manifest.manifest_new encode get put pulpitum.Object.Manifest.verify_payload
    deserialize decode pulpitum.Object.Manifest.validate pulpitum.Object.Manifest.manifest_eq
    pulpitum.Domain.Model.bucket_order content_manifest_key encode_path_segment content_payload_key
    pulpitum.Object.Keys.object_directory pulpitum.Object.Manifest.sha256
stored = refl

opendal-IsFaithful_example : IsFaithful (opendal libraries objects store)
opendal-IsFaithful_example =
    opendal-IsFaithful libraries objects store objects-IsDurable digest-IsDigest codec (λ m bytes h.
      let e : (1 ∷ 2 ∷ 3 ∷ []) ≡ bytes = ground (arith, h) in
      subst (λ l. length l ≤ u64_max) e (omega arith))
