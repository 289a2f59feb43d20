-- ===== src/Tests/Logins.antt =====
-- A sidecar whose three files hold what the platform of the test accepts.
use pulpitum.Base.{◌≡◌, ◌↔◌, none, some, [], ◌∷◌}
use pulpitum.Base.Text.{Bytes, codes}
use pulpitum.Object.Port.{answer}
use pulpitum.Sidecar.Security.{
  Platform, Random, SidecarSecurity, ok, err, insecure, from_options, parse_password_file,
}
use pulpitum.Sidecar.Password.{IsLine, Holds, parse_password_file_iff}

abbrev platform : Platform
platform = record {
  read = λ path. answer path;
  into_string = λ name. some name;
  from_utf8 = λ line. some line;
  certificates = λ pem. answer (pem ∷ []);
  private_key = λ pem. answer pem;
  default_versions = answer tt;
  single_cert = λ certificates key. answer tt;
  channel_binding = λ pem. answer tt;
  gen_salted_password = λ password salt iterations. password;
}

abbrev random : Random
random = record { salt = 1 ∷ []; decoy_salt = 2 ∷ []; decoy_password = codes "decoy" }

parse_password_file_iff_example :
    (parse_password_file platform (codes "secret\r\n") ≡ ok (codes "secret")) ↔ (
      (line : Bytes) × IsLine line
      × Holds line (codes "secret\r\n")
      × (some line ≡ some (codes "secret")))
parse_password_file_iff_example =
    parse_password_file_iff platform (codes "secret\r\n") (codes "secret")

abbrev security : SidecarSecurity
security =
    elim (from_options platform random (some (codes "c")) (some (codes "k")) (some (codes "pw\n"))
      none none) [ ok s ↦ s | err e ↦ insecure ]
