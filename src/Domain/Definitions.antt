-- ===== src/Domain/Definitions.antt =====
-- The names of the bucket strategies (src/domain/model.rs) and the validation of a table
-- definition (src/domain/schema.rs), against what they promise.
use pulpitum.Base.{
  ◌≡◌, refl, ap, ◌∙◌, ◌↔◌, Bool, true, false, ◌&&◌, not, List, [], ◌∷◌, arith, Bool-cases, inl, inr,
  eqb_iff, eqb_refl, ltb, ◌==◌, ℕ, ◌<◌,
}
use pulpitum.Base.Text.{Text, text_eq, text_order, is_blank, codes}
use pulpitum.Domain.Model.{
  BucketStrategy, calendar_year_utc, calendar_month_utc, calendar_day_utc, strategy, as_str,
  from_str,
}
use pulpitum.Domain.Schema.{
  TableDefinition, ok, required, SortDirection, direction_eq, columns_eq, validate,
  ClusteringColumn,
}

text_same : (a b : Text) → text_eq a b ≡ true → a ≡ b
text_same a b h = (eqb_iff text_order a b).0 h

read_name : (s : BucketStrategy) → from_str (as_str s) ≡ strategy s
unfolding from_str as_str pulpitum.Base.cmp_list
read_name calendar_year_utc = refl
read_name calendar_month_utc = refl
read_name calendar_day_utc = refl

names_only : (value : Text) (s : BucketStrategy) → from_str value ≡ strategy s → value ≡ as_str s
unfolding from_str as_str
names_only value s h = ground (
  arith,
  text_same value (codes "calendar_year_utc"),
  text_same value (codes "calendar_month_utc"),
  text_same value (codes "calendar_day_utc"),
)

-- A text is read as a strategy iff it is the strategy's name: no name stands for two strategies,
-- and no other text is accepted.
pub from_str_iff :
    (value : Text) (s : BucketStrategy) → (from_str value ≡ strategy s) ↔ (value ≡ as_str s)
from_str_iff value s = (names_only value s, λ e. ap from_str e ∙ read_name s)

direction_same : (a b : SortDirection) → direction_eq a b ≡ true → a ≡ b
direction_same a b h = ground arith

columns_same : (xs ys : List ClusteringColumn) → columns_eq xs ys ≡ true → xs ≡ ys
columns_same [] [] h = refl
columns_same [] (d ∷ ds) h = cc
columns_same (c ∷ cs) [] h = cc
columns_same (c ∷ cs) (d ∷ ds) h =
    ground
      (arith, text_same c.field d.field, direction_same c.direction d.direction, columns_same cs ds)

columns_refl : columns_eq required required ≡ true
unfolding pulpitum.Base.cmp_list
columns_refl = refl

-- What a table definition must be.
pub record IsWellFormed (d : TableDefinition) : Type 0 where
  pub named : is_blank d.name ≡ false
  pub identified : is_blank d.table_id ≡ false
  pub by_event_time : d.bucket_time_key ≡ codes "event_time"
  pub window : 0 < d.writable_buckets
  pub clustered : d.clustering_key ≡ required

accepted : (d : TableDefinition) → validate d ≡ ok tt → IsWellFormed d
unfolding validate
accepted d h = record {
  named = ground arith;
  identified = ground arith;
  by_event_time = text_same d.bucket_time_key (codes "event_time") (ground arith);
  window = ground arith;
  clustered = columns_same d.clustering_key required (ground arith);
}

-- `validate` accepts exactly the well-formed definitions: a name and a table ID that are not
-- blank, buckets by `event_time`, a write window that is not empty, and the clustering key
-- `(event_time ascending, sort_key ascending)`.
pub validate_iff : (d : TableDefinition) → (validate d ≡ ok tt) ↔ IsWellFormed d
unfolding validate
validate_iff d = (
  accepted d,
  λ i.
      let time : text_eq d.bucket_time_key (codes "event_time") ≡ true =
        (eqb_iff text_order d.bucket_time_key (codes "event_time")).1 i.by_event_time in
      let columns : columns_eq d.clustering_key required ≡ true = rw i.clustered columns_refl in
      ground (arith, time, columns, i.window, i.named, i.identified),
)
