-- ===== src/Tests/Histories.antt =====
-- Histories of the in-memory store: writes, a cutover, a take-over by a later owner, discovery.
use mathlib.Core.List.{Mem}
use pulpitum.Base.{
  ◌≡◌, refl, false, ◌≤◌, inl, inr, List, [], ◌∷◌, All, length, arith, none, some, true,
}
use pulpitum.Store.State.{archived, hot, ok}
use pulpitum.Store.Memory.{
  Entry, find, entry_of, snapshot, publish_archive, append, claim_archive, begin_archive,
  delete_hot_bucket,
}
use pulpitum.Store.History.{
  Operation, appends, begins, renews, publishes, deletes, claims_archive, run, apply, apply-Step,
}
use pulpitum.Store.Lifecycle.{Step}
use pulpitum.Store.Fencing.{run_generation, run_route, publish-snapshot, RoutesTo}
use pulpitum.Store.Superseded.{IsFenced, claim_fences}
use pulpitum.Store.Invariant.{IsOrdered, run-IsOrdered, Holds, append-Holds}
use pulpitum.Store.Ownership.{IsOwned, run-IsOwned}
use pulpitum.Store.State.{cutover, lease_deadline}
use pulpitum.Store.Discovery.{discover_archive_work}
use pulpitum.Store.Claims.{IsMap, IsEligible, IsTaken, claim_work, discover-IsTaken}
use pulpitum.Store.Due.{discover_complete}
use pulpitum.Tests.Samples.{
  first_day, record_at, lease, env, late_env, session, later_session, object_key, written, scan,
  written_store, begun_store, published_store,
}

abbrev meanwhile : List Operation
meanwhile = renews env session lease ∷ appends first_day (record_at 9) ∷ []

reads : snapshot env session begun_store ≡ ok (record_at 5 ∷ record_at 7 ∷ [])
unfolding pulpitum.Base.get pulpitum.Base.put pulpitum.Base.cmp_list pulpitum.Base.sort_by
    pulpitum.Domain.Model.bucket_order pulpitum.Domain.Model.key_order
    pulpitum.Domain.Model.contains pulpitum.Store.History.run pulpitum.Store.History.apply
    pulpitum.Store.Memory.append pulpitum.Store.Memory.on_entry pulpitum.Store.Memory.append_entry
    pulpitum.Store.Memory.on_existing pulpitum.Store.Memory.begin_archive
    pulpitum.Store.Memory.begin_entry pulpitum.Store.State.lease_deadline
    pulpitum.Store.State.next_generation pulpitum.Store.Memory.snapshot
    pulpitum.Store.State.validate_archive_session pulpitum.Store.State.validate_active_session
    pulpitum.Store.State.lease_expired pulpitum.Store.State.attempt_due
    pulpitum.Store.Memory.publish_archive pulpitum.Store.Memory.publish_entry
    pulpitum.Store.Memory.delete_hot_bucket pulpitum.Store.Memory.delete_entry
    pulpitum.Store.Memory.renew_archive_lease pulpitum.Store.Memory.renew_entry
reads = refl

publication : (publish_archive env session object_key (run meanwhile begun_store)).1 ≡ ok tt
unfolding pulpitum.Base.get pulpitum.Base.put pulpitum.Base.cmp_list pulpitum.Base.sort_by
    pulpitum.Domain.Model.bucket_order pulpitum.Domain.Model.key_order
    pulpitum.Domain.Model.contains pulpitum.Store.History.run pulpitum.Store.History.apply
    pulpitum.Store.Memory.append pulpitum.Store.Memory.on_entry pulpitum.Store.Memory.append_entry
    pulpitum.Store.Memory.on_existing pulpitum.Store.Memory.begin_archive
    pulpitum.Store.Memory.begin_entry pulpitum.Store.State.lease_deadline
    pulpitum.Store.State.next_generation pulpitum.Store.Memory.snapshot
    pulpitum.Store.State.validate_archive_session pulpitum.Store.State.validate_active_session
    pulpitum.Store.State.lease_expired pulpitum.Store.State.attempt_due
    pulpitum.Store.Memory.publish_archive pulpitum.Store.Memory.publish_entry
    pulpitum.Store.Memory.delete_hot_bucket pulpitum.Store.Memory.delete_entry
    pulpitum.Store.Memory.renew_archive_lease pulpitum.Store.Memory.renew_entry
publication = refl

publish-snapshot_example :
    let e' =
      entry_of first_day (publish_archive env session object_key (run meanwhile begun_store)).0 in
    (e'.state ≡ archived object_key false) × (e'.records ≡ record_at 5 ∷ record_at 7 ∷ [])
publish-snapshot_example =
    publish-snapshot env env session object_key meanwhile begun_store
      (record_at 5 ∷ record_at 7 ∷ []) reads publication

earlier : session.generation ≤ (entry_of first_day begun_store).generation
unfolding pulpitum.Base.get pulpitum.Base.put pulpitum.Base.cmp_list pulpitum.Base.sort_by
    pulpitum.Domain.Model.bucket_order pulpitum.Domain.Model.key_order
    pulpitum.Domain.Model.contains pulpitum.Store.History.run pulpitum.Store.History.apply
    pulpitum.Store.Memory.append pulpitum.Store.Memory.on_entry pulpitum.Store.Memory.append_entry
    pulpitum.Store.Memory.on_existing pulpitum.Store.Memory.begin_archive
    pulpitum.Store.Memory.begin_entry pulpitum.Store.State.lease_deadline
    pulpitum.Store.State.next_generation pulpitum.Store.Memory.snapshot
    pulpitum.Store.State.validate_archive_session pulpitum.Store.State.validate_active_session
    pulpitum.Store.State.lease_expired pulpitum.Store.State.attempt_due
    pulpitum.Store.Memory.publish_archive pulpitum.Store.Memory.publish_entry
    pulpitum.Store.Memory.delete_hot_bucket pulpitum.Store.Memory.delete_entry
    pulpitum.Store.Memory.renew_archive_lease pulpitum.Store.Memory.renew_entry
earlier = omega arith

takes_over : (claim_archive late_env first_day lease begun_store).1 ≡ ok (some later_session)
unfolding pulpitum.Base.get pulpitum.Base.put pulpitum.Base.cmp_list pulpitum.Base.sort_by
    pulpitum.Domain.Model.bucket_order pulpitum.Domain.Model.key_order
    pulpitum.Domain.Model.contains pulpitum.Store.History.run pulpitum.Store.History.apply
    pulpitum.Store.Memory.append pulpitum.Store.Memory.on_entry pulpitum.Store.Memory.append_entry
    pulpitum.Store.Memory.on_existing pulpitum.Store.Memory.begin_archive
    pulpitum.Store.Memory.begin_entry pulpitum.Store.State.lease_deadline
    pulpitum.Store.State.next_generation pulpitum.Store.Memory.snapshot
    pulpitum.Store.State.validate_archive_session pulpitum.Store.State.validate_active_session
    pulpitum.Store.State.lease_expired pulpitum.Store.State.attempt_due
    pulpitum.Store.Memory.publish_archive pulpitum.Store.Memory.publish_entry
    pulpitum.Store.Memory.delete_hot_bucket pulpitum.Store.Memory.delete_entry
    pulpitum.Store.Memory.renew_archive_lease pulpitum.Store.Memory.renew_entry
    pulpitum.Store.Memory.claim_archive pulpitum.Store.Memory.claim_archive_entry
    pulpitum.Store.Memory.claimable
takes_over = refl

claim_fences_example :
    IsFenced late_env session (run meanwhile (claim_archive late_env first_day lease begun_store).0)
claim_fences_example =
    claim_fences late_env late_env first_day lease begun_store session later_session meanwhile refl
      earlier takes_over

accepted : (append first_day (record_at 3) written_store).1 ≡ ok tt
unfolding pulpitum.Base.get pulpitum.Base.put pulpitum.Base.cmp_list pulpitum.Base.sort_by
    pulpitum.Domain.Model.bucket_order pulpitum.Domain.Model.key_order
    pulpitum.Domain.Model.contains pulpitum.Store.History.run pulpitum.Store.History.apply
    pulpitum.Store.Memory.append pulpitum.Store.Memory.on_entry pulpitum.Store.Memory.append_entry
    pulpitum.Store.Memory.on_existing pulpitum.Store.Memory.begin_archive
    pulpitum.Store.Memory.begin_entry pulpitum.Store.State.lease_deadline
    pulpitum.Store.State.next_generation pulpitum.Store.Memory.snapshot
    pulpitum.Store.State.validate_archive_session pulpitum.Store.State.validate_active_session
    pulpitum.Store.State.lease_expired pulpitum.Store.State.attempt_due
    pulpitum.Store.Memory.publish_archive pulpitum.Store.Memory.publish_entry
    pulpitum.Store.Memory.delete_hot_bucket pulpitum.Store.Memory.delete_entry
    pulpitum.Store.Memory.renew_archive_lease pulpitum.Store.Memory.renew_entry
accepted = refl

append-Holds_example : Holds (record_at 3) (
    entry_of first_day
      (run (begins env first_day lease ∷ []) (append first_day (record_at 3) written_store).0))
append-Holds_example =
    append-Holds first_day (record_at 3) written_store (begins env first_day lease ∷ []) accepted

routed_to : (entry_of first_day published_store).state ≡ archived object_key false
unfolding pulpitum.Base.get pulpitum.Base.put pulpitum.Base.cmp_list pulpitum.Base.sort_by
    pulpitum.Domain.Model.bucket_order pulpitum.Domain.Model.key_order
    pulpitum.Domain.Model.contains pulpitum.Store.History.run pulpitum.Store.History.apply
    pulpitum.Store.Memory.append pulpitum.Store.Memory.on_entry pulpitum.Store.Memory.append_entry
    pulpitum.Store.Memory.on_existing pulpitum.Store.Memory.begin_archive
    pulpitum.Store.Memory.begin_entry pulpitum.Store.State.lease_deadline
    pulpitum.Store.State.next_generation pulpitum.Store.Memory.snapshot
    pulpitum.Store.State.validate_archive_session pulpitum.Store.State.validate_active_session
    pulpitum.Store.State.lease_expired pulpitum.Store.State.attempt_due
    pulpitum.Store.Memory.publish_archive pulpitum.Store.Memory.publish_entry
    pulpitum.Store.Memory.delete_hot_bucket pulpitum.Store.Memory.delete_entry
    pulpitum.Store.Memory.renew_archive_lease pulpitum.Store.Memory.renew_entry
routed_to = refl

run_route_example :
    RoutesTo object_key (entry_of first_day (run (deletes env session ∷ meanwhile) published_store))
run_route_example =
    run_route first_day object_key (deletes env session ∷ meanwhile) published_store (inl routed_to)

run_generation_example :
    (entry_of first_day written_store).generation
    ≤ (entry_of first_day (run (begins env first_day lease ∷ meanwhile) written_store)).generation
run_generation_example =
    run_generation first_day (begins env first_day lease ∷ meanwhile) written_store

apply-Step_example :
    Step
      (entry_of first_day begun_store)
      (entry_of first_day (apply (publishes env session object_key) begun_store))
apply-Step_example = apply-Step first_day (publishes env session object_key) begun_store

run-IsOrdered_example : IsOrdered (entry_of first_day (run written []))
run-IsOrdered_example = run-IsOrdered first_day written

run-IsOwned_example :
    IsOwned (entry_of first_day (run (claims_archive env first_day lease ∷ []) []))
run-IsOwned_example = run-IsOwned first_day (claims_archive env first_day lease ∷ [])

one_bucket : length written_store ≤ 10
unfolding pulpitum.Base.get pulpitum.Base.put pulpitum.Base.cmp_list pulpitum.Base.sort_by
    pulpitum.Domain.Model.bucket_order pulpitum.Domain.Model.key_order
    pulpitum.Domain.Model.contains pulpitum.Store.History.run pulpitum.Store.History.apply
    pulpitum.Store.Memory.append pulpitum.Store.Memory.on_entry pulpitum.Store.Memory.append_entry
    pulpitum.Store.Memory.on_existing pulpitum.Store.Memory.begin_archive
    pulpitum.Store.Memory.begin_entry pulpitum.Store.State.lease_deadline
    pulpitum.Store.State.next_generation pulpitum.Store.Memory.snapshot
    pulpitum.Store.State.validate_archive_session pulpitum.Store.State.validate_active_session
    pulpitum.Store.State.lease_expired pulpitum.Store.State.attempt_due
    pulpitum.Store.Memory.publish_archive pulpitum.Store.Memory.publish_entry
    pulpitum.Store.Memory.delete_hot_bucket pulpitum.Store.Memory.delete_entry
    pulpitum.Store.Memory.renew_archive_lease pulpitum.Store.Memory.renew_entry
one_bucket = omega arith

one_entry : IsMap written_store
unfolding pulpitum.Base.get pulpitum.Base.put pulpitum.Base.cmp_list pulpitum.Base.sort_by
    pulpitum.Domain.Model.bucket_order pulpitum.Domain.Model.key_order
    pulpitum.Domain.Model.contains pulpitum.Store.History.run pulpitum.Store.History.apply
    pulpitum.Store.Memory.append pulpitum.Store.Memory.on_entry pulpitum.Store.Memory.append_entry
    pulpitum.Store.Memory.on_existing pulpitum.Store.Memory.begin_archive
    pulpitum.Store.Memory.begin_entry pulpitum.Store.State.lease_deadline
    pulpitum.Store.State.next_generation pulpitum.Store.Memory.snapshot
    pulpitum.Store.State.validate_archive_session pulpitum.Store.State.validate_active_session
    pulpitum.Store.State.lease_expired pulpitum.Store.State.attempt_due
    pulpitum.Store.Memory.publish_archive pulpitum.Store.Memory.publish_entry
    pulpitum.Store.Memory.delete_hot_bucket pulpitum.Store.Memory.delete_entry
    pulpitum.Store.Memory.renew_archive_lease pulpitum.Store.Memory.renew_entry
    pulpitum.Store.Memory.claim_archive pulpitum.Store.Memory.claim_archive_entry
    pulpitum.Store.Memory.claimable
one_entry = (refl, tt)

lease_ends : lease_deadline env env.second lease ≡ ok 310
unfolding pulpitum.Base.get pulpitum.Base.put pulpitum.Base.cmp_list pulpitum.Base.sort_by
    pulpitum.Domain.Model.bucket_order pulpitum.Domain.Model.key_order
    pulpitum.Domain.Model.contains pulpitum.Store.History.run pulpitum.Store.History.apply
    pulpitum.Store.Memory.append pulpitum.Store.Memory.on_entry pulpitum.Store.Memory.append_entry
    pulpitum.Store.Memory.on_existing pulpitum.Store.Memory.begin_archive
    pulpitum.Store.Memory.begin_entry pulpitum.Store.State.lease_deadline
    pulpitum.Store.State.next_generation pulpitum.Store.Memory.snapshot
    pulpitum.Store.State.validate_archive_session pulpitum.Store.State.validate_active_session
    pulpitum.Store.State.lease_expired pulpitum.Store.State.attempt_due
    pulpitum.Store.Memory.publish_archive pulpitum.Store.Memory.publish_entry
    pulpitum.Store.Memory.delete_hot_bucket pulpitum.Store.Memory.delete_entry
    pulpitum.Store.Memory.renew_archive_lease pulpitum.Store.Memory.renew_entry
    pulpitum.Store.Memory.claim_archive pulpitum.Store.Memory.claim_archive_entry
    pulpitum.Store.Memory.claimable
lease_ends = refl

takes_cutover : (claim_work env lease (cutover first_day) written_store).1 ≡ ok (some session)
unfolding pulpitum.Base.get pulpitum.Base.put pulpitum.Base.cmp_list pulpitum.Base.sort_by
    pulpitum.Domain.Model.bucket_order pulpitum.Domain.Model.key_order
    pulpitum.Domain.Model.contains pulpitum.Store.History.run pulpitum.Store.History.apply
    pulpitum.Store.Memory.append pulpitum.Store.Memory.on_entry pulpitum.Store.Memory.append_entry
    pulpitum.Store.Memory.on_existing pulpitum.Store.Memory.begin_archive
    pulpitum.Store.Memory.begin_entry pulpitum.Store.State.lease_deadline
    pulpitum.Store.State.next_generation pulpitum.Store.Memory.snapshot
    pulpitum.Store.State.validate_archive_session pulpitum.Store.State.validate_active_session
    pulpitum.Store.State.lease_expired pulpitum.Store.State.attempt_due
    pulpitum.Store.Memory.publish_archive pulpitum.Store.Memory.publish_entry
    pulpitum.Store.Memory.delete_hot_bucket pulpitum.Store.Memory.delete_entry
    pulpitum.Store.Memory.renew_archive_lease pulpitum.Store.Memory.renew_entry
    pulpitum.Store.Memory.claim_archive pulpitum.Store.Memory.claim_archive_entry
    pulpitum.Store.Memory.claimable
takes_cutover = refl

has_entry : find first_day written_store ≡ some (entry_of first_day written_store)
unfolding pulpitum.Base.get pulpitum.Base.put pulpitum.Base.cmp_list pulpitum.Base.sort_by
    pulpitum.Domain.Model.bucket_order pulpitum.Domain.Model.key_order
    pulpitum.Domain.Model.contains pulpitum.Store.History.run pulpitum.Store.History.apply
    pulpitum.Store.Memory.append pulpitum.Store.Memory.on_entry pulpitum.Store.Memory.append_entry
    pulpitum.Store.Memory.on_existing pulpitum.Store.Memory.begin_archive
    pulpitum.Store.Memory.begin_entry pulpitum.Store.State.lease_deadline
    pulpitum.Store.State.next_generation pulpitum.Store.Memory.snapshot
    pulpitum.Store.State.validate_archive_session pulpitum.Store.State.validate_active_session
    pulpitum.Store.State.lease_expired pulpitum.Store.State.attempt_due
    pulpitum.Store.Memory.publish_archive pulpitum.Store.Memory.publish_entry
    pulpitum.Store.Memory.delete_hot_bucket pulpitum.Store.Memory.delete_entry
    pulpitum.Store.Memory.renew_archive_lease pulpitum.Store.Memory.renew_entry
    pulpitum.Store.Memory.claim_archive pulpitum.Store.Memory.claim_archive_entry
    pulpitum.Store.Memory.claimable
has_entry = refl

discover-IsTaken_example :
    (length (discover_archive_work env scan written_store) ≤ 10)
    × All
        (λ w. IsEligible 24 w × IsTaken env lease written_store w)
        (discover_archive_work env scan written_store)
discover-IsTaken_example = discover-IsTaken env scan lease 310 written_store one_entry lease_ends

discover_complete_example : Mem (cutover first_day) (discover_archive_work env scan written_store)
discover_complete_example =
    discover_complete env scan lease written_store (cutover first_day)
      (entry_of first_day written_store) session one_bucket has_entry (omega arith) takes_cutover
