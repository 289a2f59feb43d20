-- ===== src/Cockroach/Sound.antt =====
-- The route cache of src/adapters/cockroach_durable.rs among the transactions of other clients: a
-- cached route never goes stale, and the cache stays within its bound.
use pulpitum.Base.{ℕ, Option, List, [], ◌∷◌}
use pulpitum.Base.Text.{Text}
use pulpitum.Domain.Model.{BucketId, Cursor, TimeRange}
use pulpitum.Cockroach.Tables.{Tables}
use pulpitum.Cockroach.Operations.{Client, invalidate}
use pulpitum.Cockroach.Reads.{ReadCall, read_range}
use pulpitum.Cockroach.History.{Commit, IsOwn, apply}
use pulpitum.Cockroach.Checks.{IsChecked}
use pulpitum.Cockroach.Routing.{IsSound}

-- What a client sees: transactions of anyone, its own reads, and its invalidations.
pub data Event : Type 0 where
  commits : Commit → Event
  reads : ReadCall → BucketId → TimeRange → Option Cursor → ℕ → Event
  invalidates : BucketId → Event

unfoldable pub step : Event → Client → Client
unfolding read_range invalidate apply
step (commits commit) c = record c { tables = apply commit c.tables }
step (reads call b range after limit) c = (read_range call b range after limit c).0
step (invalidates b) c = record c { route_cache = invalidate b c.route_cache }

unfoldable pub play : List Event → Client → Client
unfolding step
play [] c = c
play (e ∷ es) c = play es (step e c)

abbrev pub IsOwnEvent : Event → Type 0
IsOwnEvent (commits commit) = IsOwn commit
IsOwnEvent _ = Unit

abbrev IsRight : Client → Type 0
IsRight c = IsSound c × IsChecked c.tables
