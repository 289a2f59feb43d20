-- ===== src/Sidecar/Security.antt =====
-- The security configuration of src/bin/sql_sidecar_security.rs, and the startup of a connection.
-- The file system, UTF-8, rustls and pgwire are parameters; an `OsString` is its bytes.
use pulpitum.Base.{
  ℕ, Bool, true, false, ◌&&◌, ◌||◌, not, Option, none, some, List, [], ◌∷◌, ◌==◌, any,
  if◌then◌else◌,
}
use pulpitum.Base.Text.{Text, Bytes, text_eq, codes}
use pulpitum.Object.Port.{Answer, answer, refused}

pub data SecurityConfigError : Type 0 where
  incomplete_secure_configuration : SecurityConfigError
  invalid_name : Text → SecurityConfigError
  read_certificate read_private_key read_password : Text → SecurityConfigError
  invalid_certificate invalid_private_key invalid_tls_identity : SecurityConfigError
  invalid_channel_binding_certificate invalid_crypto_provider : SecurityConfigError
  invalid_password_file : SecurityConfigError

pub data Result {ℓ} (A : Type ℓ) : Type ℓ where
  ok : A → Result A
  err : SecurityConfigError → Result A

infixl 5 ◌>>=◌ ◌>>◌
abbrev pub ◌>>=◌ : {In Out : Type 0} → Result In → (In → Result Out) → Result Out
err problem >>= go = err problem
ok value >>= go = go value

abbrev pub ◌>>◌ : {Out : Type 0} → Result (Unit {0}) → Result Out → Result Out
check >> go = check >>= λ _. go

abbrev pub or_error : {In : Type 0} → SecurityConfigError → Answer In → Result In
or_error problem (answer value) = ok value
or_error problem (refused text) = err problem

abbrev pub or_invalid : {In : Type 0} → SecurityConfigError → Option In → Result In
or_invalid problem none = err problem
or_invalid problem (some value) = ok value

-- `fs::read`, with the text of its error; `OsString::into_string`; `String::from_utf8`;
-- `CertificateDer::pem_slice_iter`, `PrivateKeyDer::from_pem_slice`,
-- `with_safe_default_protocol_versions`, `with_single_cert`, `configure_certificate`; and
-- `gen_salted_password`.
pub record Platform : Type 0 where
  pub read : Bytes → Answer Bytes
  pub into_string : Bytes → Option Text
  pub from_utf8 : Bytes → Option Text
  pub certificates : Bytes → Answer (List Bytes)
  pub private_key : Bytes → Answer Bytes
  pub default_versions : Answer (Unit {0})
  pub single_cert : List Bytes → Bytes → Answer (Unit {0})
  pub channel_binding : Bytes → Answer (Unit {0})
  pub gen_salted_password : Text → Bytes → ℕ → Bytes

-- What `Uuid::new_v4()` gives the credentials.
pub record Random : Type 0 where
  pub salt : Bytes
  pub decoy_salt : Bytes
  pub decoy_password : Text

pub record CredentialSource : Type 0 where
  pub user : Text
  pub database : Text
  pub salt : Bytes
  pub salted_password : Bytes
  pub decoy_salt : Bytes
  pub decoy_salted_password : Bytes

pub record SecureSecurity : Type 0 where
  pub certificates : List Bytes
  pub private_key : Bytes
  pub certificate_pem : Bytes
  pub credentials : CredentialSource

pub data SidecarSecurity : Type 0 where
  insecure : SidecarSecurity
  secure : SecureSecurity → SidecarSecurity

abbrev pub scram_iterations : ℕ
scram_iterations = 4096

abbrev pub last_is : ℕ → Bytes → Bool
last_is c [] = false
last_is c (x ∷ []) = x == c
last_is c (x ∷ y ∷ rest) = last_is c (y ∷ rest)

-- `Vec::pop`, without what it returns.
abbrev pub pop : Bytes → Bytes
pop [] = []
pop (x ∷ []) = []
pop (x ∷ y ∷ rest) = x ∷ pop (y ∷ rest)

-- The line that a password file holds: its end is `\n` or `\r\n`, or is missing.
unfoldable pub strip_line_end : Bytes → Bytes
strip_line_end bytes =
    if last_is b'\n' bytes
    then (let rest = pop bytes in if last_is b'\r' rest then pop rest else rest)
    else bytes

abbrev pub is_forbidden : ℕ → Bool
is_forbidden c = c == b'\n' || c == b'\r' || c == 0

abbrev pub is_empty : Bytes → Bool
is_empty [] = true
is_empty (x ∷ rest) = false

module _ (platform : Platform) where
  unfoldable pub parse_password_file : Bytes → Result Text
  unfolding strip_line_end
  parse_password_file bytes =
      let line = strip_line_end bytes in
      if is_empty line || any is_forbidden line
      then err invalid_password_file
      else or_invalid invalid_password_file (platform.from_utf8 line)

  abbrev configured_text : Text → Text → Option Bytes → Result Text
  configured_text default variable none = ok default
  configured_text default variable (some value) =
      or_invalid (invalid_name variable) (platform.into_string value)

  unfoldable pub configured_name : Option Bytes → Text → Text → Result Text
  configured_name value default variable = do
    name ← configured_text default variable value
    if is_empty name then err (invalid_name variable) else ok name

  -- `CredentialSource::new`.
  unfoldable pub credential_source_new : Random → Text → Text → Text → CredentialSource
  credential_source_new random user database password = record {
    user = user;
    database = database;
    salt = random.salt;
    salted_password = platform.gen_salted_password password random.salt scram_iterations;
    decoy_salt = random.decoy_salt;
    decoy_salted_password =
        platform.gen_salted_password random.decoy_password random.decoy_salt scram_iterations;
  }

  abbrev pub some_certificate : List Bytes → Result (List Bytes)
  some_certificate [] = err invalid_certificate
  some_certificate (c ∷ rest) = ok (c ∷ rest)

  unfoldable pub secure_from_bytes :
      Random → Text → Text → Bytes → Bytes → Bytes → Result SidecarSecurity
  unfolding parse_password_file credential_source_new
  secure_from_bytes random user database certificate_pem key_pem password_bytes = do
    password ← parse_password_file password_bytes
    parsed ← or_error invalid_certificate (platform.certificates certificate_pem)
    certificates ← some_certificate parsed
    private_key ← or_error invalid_private_key (platform.private_key key_pem)
    or_error invalid_crypto_provider platform.default_versions
    or_error invalid_tls_identity (platform.single_cert certificates private_key)
    or_error invalid_channel_binding_certificate (platform.channel_binding certificate_pem)
    ok (
        secure (record {
          certificates = certificates;
          private_key = private_key;
          certificate_pem = certificate_pem;
          credentials = credential_source_new random user database password;
        }))

  abbrev pub read_error : (Text → SecurityConfigError) → Answer Bytes → Result Bytes
  read_error problem (answer bytes) = ok bytes
  read_error problem (refused text) = err (problem text)

  unfoldable pub secure_from_files :
      Random → Bytes → Bytes → Bytes → Option Bytes → Option Bytes → Result SidecarSecurity
  unfolding configured_name secure_from_bytes
  secure_from_files random certificate_path key_path password_path user database = do
    user_name ← configured_name user (codes "pulpitum") (codes "PULPITUM_SQL_USER")
    database_name ← configured_name database (codes "pulpitum") (codes "PULPITUM_SQL_DATABASE")
    certificate_pem ← read_error read_certificate (platform.read certificate_path)
    key_pem ← read_error read_private_key (platform.read key_path)
    password_bytes ← read_error read_password (platform.read password_path)
    secure_from_bytes random user_name database_name certificate_pem key_pem password_bytes

  -- All three paths, or none of them.
  unfoldable pub from_options :
      Random
      → Option Bytes
      → Option Bytes
      → Option Bytes
      → Option Bytes
      → Option Bytes
      → Result SidecarSecurity
  unfolding secure_from_files
  from_options random none none none user database = ok insecure
  from_options random (some certificate) (some key) (some password) user database =
      secure_from_files random certificate key password user database
  from_options random _ _ _ user database = err incomplete_secure_configuration

abbrev names : Option Text → Text → Bool
names none name = false
names (some given) name = text_eq given name

-- The salt and the salted password that SCRAM checks against: for any other login, those of a
-- password that nobody has.
unfoldable pub get_password : CredentialSource → Option Text → Option Text → Bytes × Bytes
get_password source user database =
    if names user source.user && names database source.database
    then (source.salt, source.salted_password)
    else (source.decoy_salt, source.decoy_salted_password)

-- Who handles a message of the startup: nobody, pgwire's handler without authentication, or SCRAM.
pub data Startup : Type 0 where
  tls_required unauthenticated scram : Startup

unfoldable pub on_startup : SidecarSecurity → Bool → Bool → Startup
on_startup insecure is_startup is_secure = unauthenticated
on_startup (secure s) is_startup is_secure =
    if is_startup && not is_secure then tls_required else scram
