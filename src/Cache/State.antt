-- ===== src/Cache/State.antt =====
-- `CacheState`, `CacheKey`, `CacheEntry`, and the operations on them of
-- src/adapters/immutable_archive_cache.rs. `next_access` counts as a number without wrap-around;
-- `record_size` is `size_of::<Record>()`.
use pulpitum.Base.{
  ℕ, zero, suc, ◌+◌, ◌-◌, min, Bool, ◌||◌, Option, none, some, List, [], ◌∷◌, length, ltb, leb,
  ◌==◌, if◌then◌else◌, Order, pair_order, Map, get, put, remove,
}
use pulpitum.Base.Text.{Text, text_order}
use pulpitum.Domain.Model.{BucketId, Record, bucket_order}

abbrev pub CacheKey : Type 0
CacheKey = BucketId × Text

abbrev pub cache_key_order : Order CacheKey
cache_key_order = pair_order bucket_order text_order

pub record CacheEntry : Type 0 where
  pub records : List Record
  pub estimated_bytes : ℕ
  pub last_access : ℕ

pub record CacheState : Type 0 where
  pub entries : Map CacheKey CacheEntry
  pub used_bytes : ℕ

-- The fields of `ImmutableArchiveCache` that change, and the limits, which do not.
pub record Cache : Type 0 where
  pub state : CacheState
  pub next_access : ℕ

pub record Limits : Type 0 where
  pub max_bytes : ℕ
  pub max_entries : ℕ
  pub record_size : ℕ

abbrev pub empty_cache : Cache
empty_cache = record { state = record { entries = []; used_bytes = 0 }; next_access = 0 }

-- `usize::MAX` on a 64-bit target, and `saturating_add`.
abbrev pub word_max : ℕ
word_max = 18446744073709551615

abbrev pub saturating_add : ℕ → ℕ → ℕ
saturating_add a b = min (a + b) word_max

-- The step of the `fold` of `estimated_records_size`.
abbrev pub add_size : ℕ → ℕ → Record → ℕ
add_size record_size size r =
    saturating_add
      (saturating_add (saturating_add (saturating_add size record_size) (length r.partition_key))
        (length r.sort_key))
      (length r.value)

unfoldable pub fold_size : ℕ → ℕ → List Record → ℕ
fold_size record_size size [] = size
fold_size record_size size (r ∷ rs) = fold_size record_size (add_size record_size size r) rs

unfoldable pub estimated_records_size : ℕ → List Record → ℕ
unfolding fold_size
estimated_records_size record_size records = fold_size record_size 0 records

abbrev pub removed : CacheKey → CacheState → Option CacheEntry → CacheState
removed key st none = st
removed key st (some e) = record {
  entries = remove cache_key_order key st.entries;
  used_bytes = st.used_bytes - e.estimated_bytes;
}

-- `saturating_sub` is the subtraction on ℕ.
unfoldable pub remove_entry : CacheKey → CacheState → CacheState
remove_entry key st = removed key st (get cache_key_order key st.entries)

-- `min_by_key` on `last_access`: the key of the entry, and its access.
abbrev pub older : CacheKey × ℕ → Option (CacheKey × ℕ) → CacheKey × ℕ
older (k, a) none = (k, a)
older (k, a) (some (j, b)) = if leb a b then (k, a) else (j, b)

unfoldable pub oldest : Map CacheKey CacheEntry → Option (CacheKey × ℕ)
oldest [] = none
oldest ((k, e) ∷ m) = some (older (k, e.last_access) (oldest m))

unfoldable pub is_full : Limits → ℕ → CacheState → Bool
is_full limits bytes st =
    leb limits.max_entries (length st.entries)
    || ltb limits.max_bytes (saturating_add st.used_bytes bytes)

abbrev pub evict : CacheState → Option (CacheKey × ℕ) → Option CacheState
evict st none = none
evict st (some (k, a)) = some (remove_entry k st)

abbrev pub evicted : CacheState → Option CacheState → (CacheState → CacheState) → CacheState
evicted st none next = st
evicted st (some st') next = next st'

-- The `while` of `cache`: each round evicts an entry, so as many rounds as entries are enough.
unfoldable pub make_room : ℕ → Limits → ℕ → CacheState → CacheState
unfolding is_full oldest
make_room zero limits bytes st = st
make_room (suc fuel) limits bytes st =
    let rest = evicted st (evict st (oldest st.entries)) (make_room fuel limits bytes) in
    if is_full limits bytes st then rest else st

abbrev pub touched : CacheKey → Cache → Option CacheEntry → Cache × Option (List Record)
touched key c none = (record c { next_access = c.next_access + 1 }, none)
touched key c (some e) = (
  record {
    state = record c.state {
      entries = put cache_key_order key (record e { last_access = c.next_access }) c.state.entries;
    };
    next_access = c.next_access + 1;
  },
  some e.records,
)

unfoldable pub get_cached : BucketId → Text → Cache → Cache × Option (List Record)
get_cached b key c = touched (b, key) c (get cache_key_order (b, key) c.state.entries)

abbrev pub store_entry : CacheKey → CacheEntry → CacheState → CacheState
store_entry key e st = record {
  entries = put cache_key_order key e st.entries;
  used_bytes = saturating_add st.used_bytes e.estimated_bytes;
}

-- `cache`, once the records are known to fit.
unfoldable pub admit : Limits → CacheKey → List Record → ℕ → Cache → Cache
unfolding make_room
admit limits key records bytes c =
    let st = remove_entry key c.state in
    let room = make_room (length st.entries) limits bytes st in
    record {
      state =
          store_entry key
            (record { records = records; estimated_bytes = bytes; last_access = c.next_access })
            room;
      next_access = c.next_access + 1;
    }

unfoldable pub cache : Limits → BucketId → Text → List Record → Cache → Cache
unfolding admit estimated_records_size
cache limits b key records c =
    let bytes = estimated_records_size limits.record_size records in
    if limits.max_bytes == 0 || limits.max_entries == 0
    then c
    else if ltb limits.max_bytes bytes
    then c
    else admit limits (b, key) records bytes c

unfoldable pub invalidate : BucketId → Text → Cache → Cache
invalidate b key c = record c { state = remove_entry (b, key) c.state }
