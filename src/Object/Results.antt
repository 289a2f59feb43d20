-- ===== src/Object/Results.antt =====
-- Chains of fallible computations of src/adapters/opendal_store.rs that touch no object, and the
-- answers of the libraries it calls.
use pulpitum.Base.{ℕ, Bool, ◌++◌, leb, if◌then◌else◌}
use pulpitum.Base.Text.{Text}
use pulpitum.Archive.Port.{other, StoreResult, ok, err}
use pulpitum.Object.Port.{Answer, answer, refused}

infixl 5 ◌>>=◌ ◌>>◌
abbrev pub ◌>>=◌ :
    {Value Next : Type 0} → StoreResult Value → (Value → StoreResult Next) → StoreResult Next
err error >>= rest = err error
ok value >>= rest = rest value

abbrev pub ◌>>◌ : {B : Type 0} → StoreResult (Unit {0}) → StoreResult B → StoreResult B
check >> rest = check >>= λ _. rest

-- `if test { return Err(StoreError::Other(message)) }`.
abbrev pub refuse_if : Bool → Text → StoreResult (Unit {0})
refuse_if test message = if test then err (other message) else ok tt

-- `map_err(|error| StoreError::Other(format!("{context}: {error}")))`.
abbrev pub map_err : {A : Type 0} → Text → Answer A → StoreResult A
map_err context (answer a) = ok a
map_err context (refused error) = err (other (context ++ error))

abbrev pub u64_max : ℕ
u64_max = 18446744073709551615

-- `u64::try_from(n)`, with the message of its error.
abbrev pub try_u64 : Text → ℕ → StoreResult ℕ
try_u64 message n = if leb n u64_max then ok n else err (other message)
