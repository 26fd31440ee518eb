-- ===== src/Naming/Columns/Reconcile.antt =====
-- `reconcile_with_existing` of src/dbextractors/core/naming.py: a target is never reordered.
use dbextractors.Base.{
  ◌≡◌, refl, sym, ◌∙◌, append-nil, true, false, not, List, [], ◌∷◌, ◌++◌, arith,
}
use dbextractors.Base.{
  Text, text_Eq, contains, contains-append, beq_refl, NodupList, keep, contains-keep,
  keep-NodupList, keep_every, keep_no, append-NodupList, keep-append,
}
use dbextractors.Naming.Columns.{reconcile_with_existing}

-- The columns of a write: those of the target that are wanted, in the target's order, then those
-- that the target has not.
pub record Reconciled (desired existing out : List Text) : Type 0 where
  pub members : (t : Text) → contains t out ≡ contains t desired
  pub order : keep (λ c. contains c existing) out ≡ keep (λ c. contains c desired) existing

module _ (desired existing : List Text) where
  abbrev old : List Text
  old = keep (λ c. contains c desired) existing

  abbrev new : List Text
  new = keep (λ c. not (contains c old)) desired

  new-IsNew : (t : Text) → contains t new ≡ true → contains t old ≡ false
  new-IsNew t h = ground (arith, contains-keep (λ c. not (contains c old)) t desired)

  appended : Reconciled desired existing (old ++ new)
  appended = record {
    members = λ t. ground (
      arith,
      contains-append t old new,
      contains-keep (λ c. contains c desired) t existing,
      contains-keep (λ c. not (contains c old)) t desired,
    );
    order =
        rw
          (
            keep-append,
            keep_every (λ c. contains c existing) old
                (λ t h. ground (arith, contains-keep (λ c. contains c desired) t existing)),
            keep_no (λ c. contains c existing) new
                (λ t h. ground (
                  arith,
                  contains-keep (λ c. contains c desired) t existing,
                  contains-keep (λ c. not (contains c old)) t desired,
                )),
          )
          (append-nil old);
  }

  appended-NodupList : NodupList desired → NodupList existing → NodupList (old ++ new)
  appended-NodupList d e =
      append-NodupList old new (keep-NodupList (λ c. contains c desired) existing e)
        (keep-NodupList (λ c. not (contains c old)) desired d) new-IsNew

keep_never : (xs : List Text) → keep (λ c. contains c []) xs ≡ []
keep_never [] = refl
keep_never (x ∷ xs) = keep_never xs

-- The reconciled columns are exactly the wanted ones, and the target's own columns among them stand
-- in the target's order.
pub reconcile_with_existing-Reconciled :
    (desired existing : List Text)
    → Reconciled desired existing (reconcile_with_existing desired existing)
unfolding reconcile_with_existing
reconcile_with_existing-Reconciled desired [] = record {
  members = λ t. refl;
  order = keep_never desired;
}
reconcile_with_existing-Reconciled desired (x ∷ existing) = appended desired (x ∷ existing)

-- No column is written twice, where neither the wanted columns nor the target's have one twice.
pub reconcile_with_existing-NodupList :
    (desired existing : List Text)
    → NodupList desired
    → NodupList existing
    → NodupList (reconcile_with_existing desired existing)
unfolding reconcile_with_existing
reconcile_with_existing-NodupList desired [] d e = d
reconcile_with_existing-NodupList desired (x ∷ existing) d e =
    appended-NodupList desired (x ∷ existing) d e

reconcile_fixed :
    (desired out : List Text)
    → ((t : Text) → contains t out ≡ contains t desired)
    → reconcile_with_existing desired out ≡ out
unfolding reconcile_with_existing
reconcile_fixed [] [] h = refl
reconcile_fixed (d ∷ desired) [] h = let e : false ≡ true = h d ∙ rw beq_refl refl in absurd cc
reconcile_fixed desired (x ∷ out) h =
    let kept = keep_every (λ c. contains c desired) (x ∷ out) (λ t k. sym (h t) ∙ k) in
    let none_new = keep_no (λ c. not (contains c (x ∷ out))) desired (λ t k. rw (h t, k) refl) in
    rw (kept, none_new) (append-nil (x ∷ out))

-- The next run writes the columns that this run wrote, in the same order.
pub reconcile_with_existing_stable :
    (desired existing : List Text)
    → reconcile_with_existing desired (reconcile_with_existing desired existing)
      ≡ reconcile_with_existing desired existing
reconcile_with_existing_stable desired existing =
    reconcile_fixed desired (reconcile_with_existing desired existing)
      (reconcile_with_existing-Reconciled desired existing).members

-- The columns are exactly the wanted ones, those of them that the target has in the target's order;
-- and reconciling the wanted columns with these gives these again, in their order.
pub reconcile_with_existing_lem :
    (desired existing : List Text)
    → Reconciled desired existing (reconcile_with_existing desired existing)
      × (reconcile_with_existing desired (reconcile_with_existing desired existing)
          ≡ reconcile_with_existing desired existing)
reconcile_with_existing_lem desired existing = (
  reconcile_with_existing-Reconciled desired existing,
  reconcile_with_existing_stable desired existing,
)
