-- ===== src/Sidecar/Password.antt =====
-- What `parse_password_file` and `from_options` of src/bin/sql_sidecar_security.rs accept.
use pulpitum.Base.{
  ℕ, ◌≡◌, ◌↔◌, ◌⊎◌, inl, inr, refl, sym, ap, ◌∙◌, true, false, Option, some, [], ◌∷◌, ◌++◌, arith,
  any, append_assoc, Bool-cases,
}
use pulpitum.Base.Text.{Text, Bytes}
use pulpitum.Object.Port.{answer}
use pulpitum.Sidecar.Security.{
  ok, scram_iterations, Platform, SidecarSecurity, SecureSecurity, secure, last_is, pop,
  strip_line_end, is_forbidden, is_empty, parse_password_file,
}

-- One line: not empty, and without line ends and NUL.
abbrev pub IsLine : Bytes → Type 0
IsLine line = (is_empty line ≡ false) × (any is_forbidden line ≡ false)

-- A file that holds the line alone, or with `\n` or `\r\n` after it.
abbrev pub Holds : Bytes → Bytes → Type 0
Holds line bytes =
    (bytes ≡ line) ⊎ ((bytes ≡ line ++ b'\n' ∷ []) ⊎ (bytes ≡ line ++ b'\r' ∷ b'\n' ∷ []))

last_is-append : (c : ℕ) (xs : Bytes) → last_is c (xs ++ c ∷ []) ≡ true
last_is-append c [] = ground arith
last_is-append c (x ∷ []) = ground arith
last_is-append c (x ∷ y ∷ xs) = last_is-append c (y ∷ xs)

pop-append : (c : ℕ) (xs : Bytes) → pop (xs ++ c ∷ []) ≡ xs
pop-append c [] = refl
pop-append c (x ∷ []) = refl
pop-append c (x ∷ y ∷ xs) = ap (x ∷◌) (pop-append c (y ∷ xs))

append-pop : (c : ℕ) (xs : Bytes) → last_is c xs ≡ true → xs ≡ pop xs ++ c ∷ []
append-pop c [] h = cc
append-pop c (x ∷ []) h = ground (arith, h)
append-pop c (x ∷ y ∷ xs) h = ap (x ∷◌) (append-pop c (y ∷ xs) h)

-- The last byte of a line is no line end.
last_is_line :
    (c : ℕ) (xs : Bytes)
    → is_forbidden c ≡ true
    → any is_forbidden xs ≡ false
    → last_is c xs ≡ false
last_is_line c [] bad h = refl
last_is_line c (x ∷ []) bad h = ground (arith, bad, h)
last_is_line c (x ∷ y ∷ xs) bad h = last_is_line c (y ∷ xs) bad (ground (arith, h))

strip_line_end-Holds :
    (line bytes : Bytes) → IsLine line → Holds line bytes → strip_line_end bytes ≡ line
unfolding strip_line_end
strip_line_end-Holds line bytes h (inl e) = rw (e, last_is_line b'\n' line refl h.1) refl
strip_line_end-Holds line bytes h (inr (inl e)) =
    rw (e, last_is-append b'\n' line, pop-append b'\n' line, last_is_line b'\r' line refl h.1) refl
strip_line_end-Holds line bytes h (inr (inr e)) =
    let split : bytes ≡ (line ++ b'\r' ∷ []) ++ b'\n' ∷ [] =
      e ∙ sym (append_assoc line (b'\r' ∷ []) (b'\n' ∷ [])) in
    rw
      (
        split,
        last_is-append b'\n' (line ++ b'\r' ∷ []),
        pop-append b'\n' (line ++ b'\r' ∷ []),
        last_is-append b'\r' line,
        pop-append b'\r' line,
      )
      refl

Holds-strip_line_end : (bytes : Bytes) → Holds (strip_line_end bytes) bytes
unfolding strip_line_end
Holds-strip_line_end bytes = elim (Bool-cases (last_is b'\n' bytes)) [
  | inr n ↦ rw n (inl refl)
  | inl y ↦ rw y (elim (Bool-cases (last_is b'\r' (pop bytes))) [
    | inr m ↦ rw m (inr (inl (append-pop b'\n' bytes y)))
    | inl z ↦ rw z (
        inr (
          inr (
            append-pop b'\n' bytes y
            ∙ (ap (λ l. l ++ b'\n' ∷ []) (append-pop b'\r' (pop bytes) z)
                ∙ append_assoc (pop (pop bytes)) (b'\r' ∷ []) (b'\n' ∷ [])))))
  ])
]

module _ (platform : Platform) where
  -- A password file is accepted iff it is one line of UTF-8 that is not empty and has no other
  -- line end and no NUL, alone or ended by `\n` or `\r\n`; the password is the line without its
  -- end.
  pub parse_password_file_iff :
      (bytes : Bytes) (password : Text)
      → (parse_password_file platform bytes ≡ ok password) ↔ (
          (line : Bytes) × IsLine line
          × Holds line bytes
          × (platform.from_utf8 line ≡ some password))
  unfolding parse_password_file
  parse_password_file_iff bytes password = (
    λ h. (
      strip_line_end bytes,
      (ground (arith, h), ground (arith, h)),
      Holds-strip_line_end bytes,
      ground (arith, h),
    ),
    λ f.
        let (line, is, holds, text) = f in
        rw (strip_line_end-Holds line bytes is holds, is.0, is.1, text) refl,
  )

  -- The three files were given, and the login is that of the password in the third.
  abbrev pub IsLogin : Option Bytes → Option Bytes → Option Bytes → SidecarSecurity → Type 0
  IsLogin certificate key password security =
      (c k p file : Bytes) × (text : Text) × (s : SecureSecurity) × (certificate ≡ some c)
      × (key ≡ some k)
      × (password ≡ some p)
      × (platform.read p ≡ answer file)
      × (parse_password_file platform file ≡ ok text)
      × (security ≡ secure s)
      × (s.credentials.salted_password
          ≡ platform.gen_salted_password text s.credentials.salt scram_iterations)
