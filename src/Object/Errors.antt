-- ===== src/Object/Errors.antt =====
-- Which configurations `s3_config` of src/adapters/opendal_store.rs refuses.
use pulpitum.Base.{
  ℕ, ◌≡◌, ◌↔◌, ◌⊎◌, inl, inr, refl, true, false, arith, Bool, Option, none, some, List, [], ◌∷◌,
  ◌++◌, ap, ◌∙◌, ◌&&◌, not, Bool-cases,
}
use pulpitum.Base.Text.{Text, is_blank, is_whitespace, codes}
use pulpitum.Archive.Port.{StoreError, StoreResult, ok, err}
use pulpitum.Object.Port.{Answer, answer, refused}
use pulpitum.Object.Config.{
  S3ArchiveConfig, OpenDalArchiveStore, ServiceCall, check_config, is_some, is_http, bool_ne,
  starts_with, s3_config, with_operator, built, checked, service,
}

-- The text has a character other than white space.
abbrev pub HasText : Text → Type 0
HasText text =
    (before after : Text) × (c : ℕ) × (text ≡ before ++ c ∷ after) × (is_whitespace c ≡ false)

-- A configuration that may be built: a bucket, no `http://` endpoint unless HTTP is allowed, both
-- static keys or neither, and a session token only with the keys.
pub record IsUsable (config : S3ArchiveConfig) : Type 0 where
  pub bucket : HasText config.bucket
  pub endpoint :
      (config.allow_http ≡ true)
      ⊎ (¬ ((rest : Text) × (config.endpoint ≡ some (codes "http://" ++ rest))))
  pub keys :
      ((config.access_key_id ≡ none) × (config.secret_access_key ≡ none))
      ⊎ ((access_key secret_key : Text) × (config.access_key_id ≡ some access_key)
          × (config.secret_access_key ≡ some secret_key))
  pub token :
      (config.session_token ≡ none)
      ⊎ ((access_key : Text) × (config.access_key_id ≡ some access_key))

blank_iff : (text : Text) → (is_blank text ≡ false) ↔ HasText text
unfolding is_blank
blank_iff text = (forward text, λ h. back text h.0 h.1 h.2 h.3 h.4)
  where
    forward : (text : Text) → is_blank text ≡ false → HasText text
    forward [] h = cc
    forward (c ∷ rest) h = elim (Bool-cases (is_whitespace c)) [
      | inr n ↦ ([], rest, c, refl, n)
      | inl y ↦
          let (before, after, d, split, dark) = forward rest (rw y at h) in
          (c ∷ before, after, d, ap (c ∷◌) split, dark)
    ]

    back :
        (text before after : Text) (c : ℕ)
        → text ≡ before ++ c ∷ after
        → is_whitespace c ≡ false
        → is_blank text ≡ false
    back text [] after c e h = rw (e, h) refl
    back text (d ∷ before) after c e h = elim (Bool-cases (is_whitespace d)) [
      | inr n ↦ rw (e, n) refl
      | inl y ↦ rw (e, y) (back (before ++ c ∷ after) before after c refl h)
    ]

starts_with-append : (p rest : Text) → starts_with p (p ++ rest) ≡ true
unfolding starts_with
starts_with-append [] rest = refl
starts_with-append (c ∷ p) rest = ground (arith, starts_with-append p rest)

starts_with_rest : (p text : Text) → starts_with p text ≡ true → (rest : Text) × (text ≡ p ++ rest)
unfolding starts_with
starts_with_rest [] text h = (text, refl)
starts_with_rest (c ∷ p) [] h = cc
starts_with_rest (c ∷ p) (d ∷ text) h =
    let (rest, split) = starts_with_rest p text (ground (arith, h)) in
    let same : d ≡ c = ground (arith, h) in (rest, ap (λ k. k ∷ text) same ∙ ap (c ∷◌) split)

abbrev IsOpen : Option Text → Bool → Type 0
IsOpen endpoint allow =
    (allow ≡ true) ⊎ (¬ ((rest : Text) × (endpoint ≡ some (codes "http://" ++ rest))))

endpoint_from :
    (endpoint : Option Text) (allow : Bool)
    → (is_http endpoint && not allow) ≡ false
    → IsOpen endpoint allow
endpoint_from endpoint true h = inl refl
endpoint_from endpoint false h = inr (λ x.
    let plain : is_http endpoint ≡ true =
      ap is_http x.1 ∙ starts_with-append (codes "http://") x.0 in
    ground (arith, plain, h))

http_rest :
    (endpoint : Option Text)
    → is_http endpoint ≡ true
    → (rest : Text) × (endpoint ≡ some (codes "http://" ++ rest))
http_rest none h = cc
http_rest (some text) h =
    let (rest, split) = starts_with_rest (codes "http://") text h in (rest, ap some split)

endpoint_to :
    (endpoint : Option Text) (allow : Bool)
    → IsOpen endpoint allow
    → (is_http endpoint && not allow) ≡ false
endpoint_to endpoint allow (inl a) = ground (arith, a)
endpoint_to endpoint allow (inr n) = elim (Bool-cases (is_http endpoint)) [
  | inr f ↦ ground (arith, f)
  | inl t ↦ absurd (n (http_rest endpoint t))
]

abbrev IsPaired : Option Text → Option Text → Type 0
IsPaired a b =
    ((a ≡ none) × (b ≡ none))
    ⊎ ((access_key secret_key : Text) × (a ≡ some access_key) × (b ≡ some secret_key))

keys_from : (a b : Option Text) → bool_ne (is_some a) (is_some b) ≡ false → IsPaired a b
keys_from none none h = inl (refl, refl)
keys_from none (some b) h = cc
keys_from (some a) none h = cc
keys_from (some a) (some b) h = inr (a, b, refl, refl)

keys_to : (a b : Option Text) → IsPaired a b → bool_ne (is_some a) (is_some b) ≡ false
keys_to a b (inl (x, y)) = rw (x, y) refl
keys_to a b (inr (j, k, x, y)) = rw (x, y) refl

abbrev IsKeyed : Option Text → Option Text → Type 0
IsKeyed token a = (token ≡ none) ⊎ ((access_key : Text) × (a ≡ some access_key))

token_from : (token a : Option Text) → (is_some token && not (is_some a)) ≡ false → IsKeyed token a
token_from none a h = inl refl
token_from (some t) none h = cc
token_from (some t) (some a) h = inr (a, refl)

token_to : (token a : Option Text) → IsKeyed token a → (is_some token && not (is_some a)) ≡ false
token_to token a (inl x) = rw x refl
token_to token a (inr (k, x)) = ground (arith, ap is_some x)

check_config-IsUsable : (config : S3ArchiveConfig) → (check_config config ≡ ok tt) ↔ IsUsable config
unfolding check_config
check_config-IsUsable config = (
  λ h. record {
    bucket = (blank_iff config.bucket).0 (ground (arith, h));
    endpoint = endpoint_from config.endpoint config.allow_http (ground (arith, h));
    keys = keys_from config.access_key_id config.secret_access_key (ground (arith, h));
    token = token_from config.session_token config.access_key_id (ground (arith, h));
  },
  λ u. ground (
    arith,
    (blank_iff config.bucket).1 u.bucket,
    endpoint_to config.endpoint config.allow_http u.endpoint,
    keys_to config.access_key_id config.secret_access_key u.keys,
    token_to config.session_token config.access_key_id u.token,
  ),
)

module _ {O : Type 0} (new_operator : List ServiceCall → Answer O) where
  abbrev pub IsBuilt : S3ArchiveConfig → StoreResult (O × OpenDalArchiveStore) → Type 0
  IsBuilt config r = (operator : O) × (r ≡ ok (operator, with_operator config.bucket config.prefix))

  built-IsBuilt :
      (config : S3ArchiveConfig) (a : Answer O)
      → ((e : StoreError) × (built new_operator config a ≡ err e))
        ⊎ IsBuilt config (built new_operator config a)
  built-IsBuilt config (answer o) = inr (o, refl)
  built-IsBuilt config (refused e) = inl (_, refl)

  checked-IsBuilt :
      (config : S3ArchiveConfig) (r : StoreResult (Unit {0}))
      → ((e : StoreError) × (checked new_operator config r ≡ err e))
        ⊎ IsBuilt config (checked new_operator config r)
  checked-IsBuilt config (ok _) = built-IsBuilt config (new_operator (service config))
  checked-IsBuilt config (err e) = inl (e, refl)

  built_ok :
      (config : S3ArchiveConfig) (a : Answer O) (operator : O)
      → built new_operator config a ≡ ok (operator, with_operator config.bucket config.prefix)
      → a ≡ answer operator
  built_ok config (answer o) operator h = ground arith
  built_ok config (refused e) operator h = cc

  checked_ok :
      (config : S3ArchiveConfig) (r : StoreResult (Unit {0})) (operator : O)
      → checked new_operator config r ≡ ok (operator, with_operator config.bucket config.prefix)
      → (r ≡ ok tt) × (new_operator (service config) ≡ answer operator)
  checked_ok config (ok _) operator h =
      (refl, built_ok config (new_operator (service config)) operator h)
  checked_ok config (err e) operator h = cc

  -- An archive store is built iff the bucket is not blank, the endpoint does not start with
  -- `http://` unless HTTP is allowed, both static keys are given or neither, a session token is
  -- given only with the keys, and the object store library takes the service that these settings
  -- describe; in every other case the result is an error.
  pub s3_config_iff :
      (config : S3ArchiveConfig) (operator : O)
      → ((s3_config new_operator config ≡ ok (operator, with_operator config.bucket config.prefix))
          ↔ (IsUsable config × (new_operator (service config) ≡ answer operator)))
        × (((e : StoreError) × (s3_config new_operator config ≡ err e))
            ⊎ IsBuilt config (s3_config new_operator config))
  unfolding s3_config
  s3_config_iff config operator = (
    (
      λ h.
          let (passed, made) = checked_ok config (check_config config) operator h in
          ((check_config-IsUsable config).0 passed, made),
      λ u. rw ((check_config-IsUsable config).1 u.0, u.1) refl,
    ),
    checked-IsBuilt config (check_config config),
  )
