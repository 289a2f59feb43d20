-- ===== src/Recovery/Config.antt =====
-- `ArchiveRecoveryConfig` and its `validate`, the errors and the outcome of
-- src/application/durable_archive_recovery.rs.
use pulpitum.Base.{ℕ, ◌≡◌, ◌<◌, ◌↔◌, ◌||◌, ◌==◌, leb, if◌then◌else◌, arith}
use pulpitum.Domain.Model.{DateTime}
use pulpitum.Store.State.{Duration, DurableBucketStoreError}
use pulpitum.Archive.Coordinator.{DurableArchiveError}

pub record ArchiveRecoveryConfig : Type 0 where
  pub eligible_before : DateTime
  pub scan_limit : ℕ
  pub lease_for : Duration
  pub lease_renewal_interval : Duration
  pub retry_backoff : Duration

pub data ArchiveRecoveryError : Type 0 where
  invalid_config : ArchiveRecoveryError
  durable_store : DurableBucketStoreError → ArchiveRecoveryError
  archive : DurableArchiveError → ArchiveRecoveryError

pub data RecoveryResult {ℓ} (A : Type ℓ) : Type ℓ where
  ok : A → RecoveryResult A
  err : ArchiveRecoveryError → RecoveryResult A

pub record ArchiveRecoveryOutcome : Type 0 where
  pub discovered : ℕ
  pub claimed : ℕ
  pub completed : ℕ
  pub deferred : ℕ

unfoldable pub validate_config : ArchiveRecoveryConfig → RecoveryResult (Unit {0})
validate_config c =
    if c.scan_limit == 0
      || (c.lease_for == 0
          || (c.lease_renewal_interval == 0
              || (leb c.lease_for c.lease_renewal_interval || c.retry_backoff == 0)))
    then err invalid_config
    else ok tt

-- What a configuration must be.
pub record IsUsable (c : ArchiveRecoveryConfig) : Type 0 where
  pub scans : 0 < c.scan_limit
  pub renews : 0 < c.lease_renewal_interval
  pub in_time : c.lease_renewal_interval < c.lease_for
  pub waits : 0 < c.retry_backoff

-- A configuration is accepted iff it scans, renews its lease before the lease ends, and waits
-- before a retry.
pub validate_config_iff : (c : ArchiveRecoveryConfig) → (validate_config c ≡ ok tt) ↔ IsUsable c
unfolding validate_config
validate_config_iff c = (
  λ h. record {
    scans = ground arith;
    renews = ground arith;
    in_time = ground arith;
    waits = ground arith;
  },
  λ i. ground (arith, i.scans, i.renews, i.in_time, i.waits),
)
