-- ===== src/Store/Invariant.antt =====
-- The well-formedness of a bucket entry of the in-memory store, kept by every history, and the
-- fate of an appended record.
use mathlib.Core.List.{Mem, mem-append_left, mem-append_right, mem-cons_self}
use mathlib.Core.List.Perm
use pulpitum.Base.{
  ◌≡◌, refl, sym, subst, ◌∙◌, ◌⊎◌, inl, inr, true, List, [], ◌∷◌, arith, sort_by-IsSorted,
  sort_by-perm, IsSorted, get, Bool-cases, get-put_self,
}
use pulpitum.Base.Text.{Text}
use pulpitum.Domain.Model.{BucketId, Record, key_order, record_key, bucket_order}
use pulpitum.Store.State.{hot, archived, ok, state_eq}
use pulpitum.Store.Memory.{Entry, Store, entry_of, append_entry, append, on_entry}
use pulpitum.Store.Lifecycle.{
  Step, leased, appended, claimed, cleanup_claimed, reopened, published, cleaned,
}
use pulpitum.Store.History.{Operation, run, run_keeps}

-- Records are in clustering order, and a cleaned bucket has none.
pub record IsOrdered (e : Entry) : Type 0 where
  pub sorted : IsSorted key_order record_key e.records
  pub emptied : (k : Text) → e.state ≡ archived k true → e.records ≡ []

pub Step-IsOrdered : (e e' : Entry) → Step e e' → IsOrdered e → IsOrdered e'
Step-IsOrdered e e' (leased s n r) v = record {
  sorted = subst (IsSorted key_order record_key) (sym r) v.sorted;
  emptied = λ k h. r ∙ v.emptied k (sym s ∙ h);
}
Step-IsOrdered e e' (appended x s s' n r) v = record {
  sorted = subst (IsSorted key_order record_key) (sym r) (sort_by-IsSorted key_order record_key _);
  emptied = λ k h. absurd (ground arith);
}
Step-IsOrdered e e' (claimed s s' n r) v = record {
  sorted = subst (IsSorted key_order record_key) (sym r) v.sorted;
  emptied = λ k h. absurd (ground arith);
}
Step-IsOrdered e e' (cleanup_claimed x s s' n r) v = record {
  sorted = subst (IsSorted key_order record_key) (sym r) v.sorted;
  emptied = λ k h. absurd (ground arith);
}
Step-IsOrdered e e' (reopened s s' n r) v = record {
  sorted = subst (IsSorted key_order record_key) (sym r) v.sorted;
  emptied = λ k h. absurd (ground arith);
}
Step-IsOrdered e e' (published x s s' n r) v = record {
  sorted = subst (IsSorted key_order record_key) (sym r) v.sorted;
  emptied = λ k h. absurd (ground arith);
}
Step-IsOrdered e e' (cleaned x s s' n r) v = record {
  sorted = subst (IsSorted key_order record_key) (sym r) tt;
  emptied = λ k h. r;
}

-- In every history from an empty store, each bucket keeps its records in clustering order, and
-- holds none once its clean-up is recorded.
pub run-IsOrdered : (j : BucketId) (ops : List Operation) → IsOrdered (entry_of j (run ops []))
unfolding get
run-IsOrdered j ops =
    run_keeps IsOrdered Step-IsOrdered j ops [] (record { sorted = tt; emptied = λ k h. refl })

-- The record is in the bucket, or the bucket has been published and cleaned.
abbrev pub Holds : Record → Entry → Type 0
Holds r e = Mem r e.records ⊎ ((k : Text) × (e.state ≡ archived k true))

carry : (r : Record) (xs ys : List Record) → ys ≡ xs → Mem r xs → Mem r ys
carry r xs ys e m = subst (Mem r) (sym e) m

Step-Holds : (r : Record) (e e' : Entry) → Step e e' → Holds r e → Holds r e'
Step-Holds x e e' (leased s n r) (inl m) = inl (carry x _ _ r m)
Step-Holds x e e' (leased s n r) (inr (k, a)) = inr (k, s ∙ a)
Step-Holds x e e' (appended y s s' n r) (inl m) = inl (
    carry x _ _ r
      ((Perm.mem_iff (sort_by-perm key_order record_key _)).1 (mem-append_left (y ∷ []) m)))
Step-Holds x e e' (appended y s s' n r) (inr (k, a)) = absurd (ground arith)
Step-Holds x e e' (claimed s s' n r) (inl m) = inl (carry x _ _ r m)
Step-Holds x e e' (claimed s s' n r) (inr (k, a)) = absurd (ground arith)
Step-Holds x e e' (cleanup_claimed j s s' n r) (inl m) = inl (carry x _ _ r m)
Step-Holds x e e' (cleanup_claimed j s s' n r) (inr (k, a)) = absurd (ground arith)
Step-Holds x e e' (reopened s s' n r) (inl m) = inl (carry x _ _ r m)
Step-Holds x e e' (reopened s s' n r) (inr (k, a)) = absurd (ground arith)
Step-Holds x e e' (published j s s' n r) (inl m) = inl (carry x _ _ r m)
Step-Holds x e e' (published j s s' n r) (inr (k, a)) = absurd (ground arith)
Step-Holds x e e' (cleaned j s s' n r) h = inr (j, s')

append_entry-Holds :
    (r : Record) (e : Entry) → (append_entry r e).1 ≡ ok tt → Mem r (append_entry r e).0.records
unfolding append_entry
append_entry-Holds r e h = elim (Bool-cases (state_eq e.state hot)) [
  | inl t ↦
      rw (t, append_entry)
        ((Perm.mem_iff (sort_by-perm key_order record_key _)).1
          (mem-append_right e.records mem-cons_self))
  | inr f ↦ absurd (ground arith)
]

-- An acknowledged record is never lost: after any further history it is among the records of its
-- bucket, unless the bucket has been published and its hot records cleaned.
pub append-Holds :
    (b : BucketId) (r : Record) (s : Store) (ops : List Operation)
    → (append b r s).1 ≡ ok tt
    → Holds r (entry_of b (run ops (append b r s).0))
unfolding append on_entry
append-Holds b r s ops h = run_keeps (Holds r) (Step-Holds r) b ops _ (
    rw (get-put_self bucket_order b (append_entry r (entry_of b s)).0 s)
      (inl (append_entry-Holds r (entry_of b s) h)))
