-- ===== src/Tests/Cutovers.antt =====
-- A cutover of one bucket with two records, on the in-memory archive.
use pulpitum.Base.{ℕ, ◌≡◌, ◌≢◌, arith, refl, List, [], ◌∷◌, All, none, take}
use pulpitum.Store.Memory.{entry_of, select}
use pulpitum.Archive.Port.{StoreResult, Belongs}
use pulpitum.Archive.Memory.{in_memory, put_bucket_generation, get_bucket, in_memory-IsFaithful}
use pulpitum.Archive.Generations.{upload_all, get_bucket-upload_all}
use pulpitum.Archive.Coordinator.{ArchiveResult, found, archive_bucket}
use pulpitum.Archive.Cutover.{IsArchived, archive_bucket_ok}
use pulpitum.Table.Read.{TableResult, read_bucket, cutover_transparent}
use pulpitum.Tests.Samples.{
  first_day, record_at, lease, calls, empty_world, outcome, whole_day, object_key,
}

day_records :
    (entry_of first_day (found calls.begin empty_world)).records ≡ record_at 5 ∷ record_at 7 ∷ []
unfolding pulpitum.Base.get pulpitum.Base.put pulpitum.Base.cmp_list pulpitum.Base.sort_by
    pulpitum.Domain.Model.bucket_order pulpitum.Domain.Model.key_order
    pulpitum.Domain.Model.contains pulpitum.Store.History.run pulpitum.Store.History.apply
    pulpitum.Store.Memory.append pulpitum.Store.Memory.on_entry pulpitum.Store.Memory.append_entry
day_records = refl

belong : All (Belongs first_day) (entry_of first_day (found calls.begin empty_world)).records
unfolding pulpitum.Base.get pulpitum.Base.put pulpitum.Base.cmp_list pulpitum.Base.sort_by
    pulpitum.Domain.Model.bucket_order pulpitum.Domain.Model.key_order
    pulpitum.Domain.Model.contains pulpitum.Store.History.run pulpitum.Store.History.apply
    pulpitum.Store.Memory.append pulpitum.Store.Memory.on_entry pulpitum.Store.Memory.append_entry
    pulpitum.Archive.Port.belongs
belong = (refl, (refl, tt))

archives : (archive_bucket in_memory calls first_day lease empty_world).1 ≡ ArchiveResult.ok outcome
unfolding pulpitum.Base.get pulpitum.Base.put pulpitum.Base.cmp_list pulpitum.Base.sort_by
    pulpitum.Domain.Model.bucket_order pulpitum.Domain.Model.key_order
    pulpitum.Domain.Model.contains pulpitum.Store.History.run pulpitum.Store.History.apply
    pulpitum.Store.Memory.append pulpitum.Store.Memory.on_entry pulpitum.Store.Memory.append_entry
    pulpitum.Store.Memory.on_existing pulpitum.Store.Memory.begin_archive
    pulpitum.Store.Memory.begin_entry pulpitum.Store.State.lease_deadline
    pulpitum.Store.State.next_generation pulpitum.Store.Memory.snapshot
    pulpitum.Store.State.validate_archive_session pulpitum.Store.State.validate_active_session
    pulpitum.Store.State.lease_expired pulpitum.Store.State.attempt_due
    pulpitum.Store.Memory.publish_archive pulpitum.Store.Memory.publish_entry
    pulpitum.Store.Memory.delete_hot_bucket pulpitum.Store.Memory.delete_entry
    pulpitum.Store.Memory.renew_archive_lease pulpitum.Store.Memory.renew_entry
    pulpitum.Archive.Coordinator.archive_bucket pulpitum.Archive.Coordinator.archive_claimed_bucket
    pulpitum.Archive.Coordinator.upload_snapshot pulpitum.Archive.Coordinator.publish_uploaded
    pulpitum.Archive.Coordinator.delete_published pulpitum.Archive.Memory.put_bucket_generation
    pulpitum.Archive.Memory.generation_path pulpitum.Archive.Memory.partition_key_path_component
    pulpitum.Base.Text.decimal
archives = refl

archive_bucket_ok_example :
    IsArchived in_memory first_day
      (entry_of first_day (found calls.begin empty_world)).records
      outcome
      (archive_bucket in_memory calls first_day lease empty_world).0
archive_bucket_ok_example =
    archive_bucket_ok in_memory calls first_day lease empty_world outcome in_memory-IsFaithful
      belong archives

cutover_transparent_example :
    (read_bucket in_memory first_day whole_day none 1
      (archive_bucket in_memory calls first_day lease empty_world).0).1
    ≡ TableResult.ok (
        take 1 (select whole_day none (entry_of first_day (found calls.begin empty_world)).records))
unfolding pulpitum.Base.get
cutover_transparent_example =
    cutover_transparent in_memory calls first_day lease empty_world outcome whole_day none 1
      in_memory-IsFaithful belong (record { sorted = tt; emptied = λ k h. refl }) archives

one_record : All (Belongs first_day) (record_at 5 ∷ [])
unfolding pulpitum.Domain.Model.contains pulpitum.Archive.Port.belongs pulpitum.Base.cmp_list
one_record = (refl, tt)

other_generation : ◌≢◌ {A = ℕ} 1 2
other_generation h = ground (arith, h)

-- The key of the first upload.
first_key : (put_bucket_generation first_day 1 (record_at 5 ∷ []) []).1 ≡ StoreResult.ok object_key
unfolding put_bucket_generation pulpitum.Archive.Memory.generation_path
    pulpitum.Archive.Memory.partition_key_path_component pulpitum.Base.Text.decimal
first_key = refl

get_bucket-upload_all_example :
    (get_bucket first_day object_key (
      upload_all first_day
        ((2, record_at 9 ∷ []) ∷ [])
        (put_bucket_generation first_day 1 (record_at 5 ∷ []) []).0)).1
    ≡ StoreResult.ok (record_at 5 ∷ [])
get_bucket-upload_all_example =
    get_bucket-upload_all first_day 1 (record_at 5 ∷ []) ((2, record_at 9 ∷ []) ∷ []) [] object_key
      one_record (other_generation, tt) first_key
