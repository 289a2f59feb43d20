-- ===== src/Tests/Recoveries.antt =====
-- A recovery cycle on the in-memory archive, the cache in front of it, and a configuration.
use pulpitum.Base.{ℕ, []}
use pulpitum.Archive.Port.{IsFaithful}
use pulpitum.Archive.Memory.{in_memory, in_memory-IsFaithful}
use pulpitum.Recovery.Config.{ArchiveRecoveryConfig}
use pulpitum.Recovery.Runner.{Steps, run_once}
use pulpitum.Recovery.Accounts.{Balanced, run_once-Balanced}
use pulpitum.Cache.State.{Limits}
use pulpitum.Cache.Adapter.{cached, cached-IsFaithful}
use pulpitum.Tests.Samples.{call, written, empty_world}

abbrev config : ArchiveRecoveryConfig
config = record {
  eligible_before = 24;
  scan_limit = 5;
  lease_for = 300;
  lease_renewal_interval = 100;
  retry_backoff = 60;
}

abbrev steps : ℕ → Steps
steps n = record {
  claim = call [];
  read = call [];
  upload = call [];
  publish = call [];
  check = call [];
  delete = call [];
  defer = call [];
}

run_once-Balanced_example :
    Balanced in_memory config steps (run_once in_memory config steps (call written) empty_world)
run_once-Balanced_example = run_once-Balanced in_memory config steps (call written) empty_world

abbrev limits : Limits
limits = record { max_bytes = 4096; max_entries = 2; record_size = 80 }

cached-IsFaithful_example : IsFaithful (cached in_memory limits)
cached-IsFaithful_example = cached-IsFaithful in_memory limits in_memory-IsFaithful
