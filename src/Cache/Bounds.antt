-- ===== src/Cache/Bounds.antt =====
-- The bounds of the cache of src/adapters/immutable_archive_cache.rs.
use pulpitum.Base.{
  ℕ, ◌+◌, ◌-◌, ◌≤◌, ◌≡◌, refl, ◌∙◌, ◌⊎◌, inl, inr, Bool, true, false, none, some, [], ◌∷◌, arith,
  length, min, eqb, Map, get, put, get-put, eqb_sym, Bool-cases,
}
use pulpitum.Base.Text.{Text}
use pulpitum.Cache.State.{CacheKey, cache_key_order, CacheEntry, CacheState, Cache, Limits, is_full}

abbrev pub Entries : Type 0
Entries = Map CacheKey CacheEntry

abbrev pub total : Entries → ℕ
total [] = 0
total ((k, e) ∷ m) = e.estimated_bytes + total m

-- No key stands twice.
abbrev pub Distinct : Entries → Type 0
Distinct [] = Unit
Distinct ((k, e) ∷ m) = (get cache_key_order k m ≡ none) × Distinct m

-- What the operations keep: no key twice, and the bytes counted are those of the entries.
pub record IsCounted (st : CacheState) : Type 0 where
  pub distinct : Distinct st.entries
  pub counted : st.used_bytes ≡ total st.entries

-- The key of the oldest entry is in the map.
abbrev IsIn : Entries → CacheKey × ℕ → Type 0
IsIn m k = (e : CacheEntry) × (get cache_key_order k.0 m ≡ some e)

put_present :
    (k : CacheKey) (e e' : CacheEntry) (m : Entries)
    → get cache_key_order k m ≡ some e
    → e'.estimated_bytes ≡ e.estimated_bytes
    → Distinct m
    → (total (put cache_key_order k e' m) ≡ total m)
      × (length (put cache_key_order k e' m) ≡ length m)
      × Distinct (put cache_key_order k e' m)
unfolding pulpitum.Base.get pulpitum.Base.put
put_present k e e' [] h b d = cc
put_present k e e' ((j, x) ∷ m) h b d = elim (Bool-cases (eqb cache_key_order j k)) [
  | inl t ↦ let same : some x ≡ some e = rw t at h in rw t (ground (arith, b, same), refl, d)
  | inr f ↦
      let (p, q, r) = put_present k e e' m (rw f at h) b d.1 in
      let other : eqb cache_key_order k j ≡ false = eqb_sym cache_key_order k j ∙ f in
      let fresh : get cache_key_order j (put cache_key_order k e' m) ≡ none =
        rw (get-put cache_key_order j k e' m, other) d.0 in
      rw f (omega (arith, p), omega (arith, q), (fresh, r))
]

module _ (limits : Limits) where
  -- The bytes of all entries and their number are within the limits.
  pub record IsBounded (st : CacheState) : Type 0 where
    pub well_counted : IsCounted st
    pub fits : total st.entries ≤ limits.max_bytes
    pub few : length st.entries ≤ limits.max_entries

  abbrev Room : ℕ → CacheState → Type 0
  Room bytes st = (is_full limits bytes st ≡ false) ⊎ (st.entries ≡ [])

  abbrev Made : ℕ → CacheKey → CacheState → Type 0
  Made bytes key st = IsCounted st × (get cache_key_order key st.entries ≡ none) × Room bytes st
