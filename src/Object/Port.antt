-- ===== src/Object/Port.antt =====
-- What src/adapters/opendal_store.rs calls: the operations of OpenDAL on a world of objects, with
-- the outcomes that the adapter tells apart, SHA-256, and the calls that chain on such a world.
use pulpitum.Base.{true, arith, ◌≡◌, refl, ltb, All, length}
use pulpitum.Base.Text.{Text, Bytes}
use pulpitum.Archive.Port.{StoreResult, ok, err}

-- What a call of a third-party library returns: `refused` has the text of its error.
pub data Answer {ℓ} (A : Type ℓ) : Type ℓ where
  answer : A → Answer A
  refused : Text → Answer A

-- `write_with(key, body).if_not_exists(true)` under the timeout.
pub data WriteOutcome : Type 0 where
  written condition_not_match write_timed_out : WriteOutcome
  write_failed : Text → WriteOutcome

-- `read(key)` under the timeout.
pub data ReadOutcome : Type 0 where
  body : Bytes → ReadOutcome
  read_timed_out : ReadOutcome
  read_failed : Text → ReadOutcome

-- Nothing is assumed of an operator: a write that fails or times out may have stored its body.
pub record Operator (W : Type 0) : Type 0 where
  pub write_if_not_exists : Text → Bytes → W → W × WriteOutcome
  pub read : Text → W → W × ReadOutcome

-- A digest of 32 bytes.
pub record IsDigest (digest : Bytes → Bytes) : Type 0 where
  pub size : (x : Bytes) → length (digest x) ≡ 32
  pub is_bytes : (x : Bytes) → All (λ byte. ltb byte 256 ≡ true) (digest x)

abbrev pub Call : Type 0 → Type 0 → Type 0
Call W A = W → W × StoreResult A

-- The `?` of the source: an error ends the chain, in the world that the failed call left.
abbrev pub next_call : {W A B : Type 0} → W × StoreResult A → (A → Call W B) → W × StoreResult B
next_call (w, ok a) f = f a w
next_call (w, err e) f = (w, err e)

infixl 5 ◌>>=◌ ◌>>◌
abbrev pub ◌>>=◌ : {W A B : Type 0} → Call W A → (A → Call W B) → Call W B
m >>= f = λ w. next_call (m w) f

abbrev pub ◌>>◌ : {W B : Type 0} → Call W (Unit {0}) → Call W B → Call W B
m >> k = m >>= λ _. k

-- A computation that does not touch the world.
abbrev pub pure_call : {W A : Type 0} → StoreResult A → Call W A
pure_call r w = (w, r)

-- A chain that succeeds has run its first call to success.
pub next_call-eq-ok :
    {W A B : Type 0} (m : W × StoreResult A) (f : A → Call W B) {b : B}
    → (next_call m f).1 ≡ ok b
    → (a : A) × (m.1 ≡ ok a) × ((f a m.0).1 ≡ ok b)
next_call-eq-ok (w, ok a) f h = (a, refl, h)
next_call-eq-ok (w, err e) f h = cc

-- The chain goes on from where its first call ended.
pub next_call-ok :
    {W A B : Type 0} (m : W × StoreResult A) (f : A → Call W B) {a : A}
    → m.1 ≡ ok a
    → next_call m f ≡ f a m.0
next_call-ok (w, ok a) f h = ground arith
next_call-ok (w, err e) f h = cc
