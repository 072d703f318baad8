-- ===== src/Locking/Loop.antt =====
-- How the updates end
-- (shared/optimistic_locking.py).
use hot_sot.Base.{
  ℕ, zero, suc, ◌+◌, ◌≤◌, ◌<◌, ◌≡◌, refl, ◌∙◌, Bool, true, false, Option, none, some, ◌==◌, arith,
  Option-cases, inl, inr, ◌⊎◌,
}
use hot_sot.Locking.Update.{
  Row, Where, update_values, Database, Answer, updated, not_found, conflict, vanished, explain,
  report, conclude, optimistic_update, Others, again_if_conflict, attempted, update_with_retry,
}

abbrev pub is_conflict : Answer → Bool
is_conflict conflict = true
is_conflict not_found = false
is_conflict vanished = false
is_conflict (updated v) = false

same_version : (v : ℕ) → (v == v) ≡ true
same_version v = ground arith

module _ {S : Type 0} (db : Database S) where
  concluded :
      (w : Where) (p : S × ℕ) (later : S → S)
      → p.1 ≡ 1
      → conclude db w p later ≡ (later p.0, report (db.select (later p.0) w))
  concluded w (s, zero) later h = absurd (omega (arith, h))
  concluded w (s, suc n) later h = refl

  -- An update whose version is the one of the row writes it.
  pub update_written :
      (s : S) (w : Where) (x : ℕ) (old : Row) (later : S → S)
      → db.select s w ≡ some old
      → (t : S) × (db.select t w ≡ some (update_values old.version x))
        × (optimistic_update db s w x old.version later ≡ (later t, report (db.select (later t) w)))
  unfolding optimistic_update
  update_written s w x old later h =
      let (one, written) =
        db.update_current s w old.version (update_values old.version x) old h
          (same_version old.version) in
      (
        (db.update s w old.version (update_values old.version x)).0,
        written,
        concluded w (db.update s w old.version (update_values old.version x)) later one,
      )

  pub update_refused :
      (s : S) (w : Where) (x v : ℕ) (old : Row) (later : S → S)
      → db.select s w ≡ some old
      → (old.version == v) ≡ false
      → optimistic_update db s w x v later ≡ (later s, explain (db.select (later s) w))
  unfolding optimistic_update
  update_refused s w x v old later h stale =
      rw (db.update_stale s w v (update_values v x) old h stale)

  not_again :
      (t : S) (o : Option Row) (rest : S × Answer)
      → is_conflict (again_if_conflict (t, report o) rest).1 ≡ false
  not_again t none rest = refl
  not_again t (some r) rest = refl

  module _ (w : Where) (update_fn : Row → ℕ × ℕ) (others : ℕ → Others S) where
    -- An attempt that reads the row as it is when its UPDATE runs.
    attempted_quiet :
        (n : ℕ) (s : S) (rest : S × Answer)
        → ((r : Row) → (update_fn r).0 ≡ r.version)
        → db.select ((others n).after_read s) w ≡ (others n).read s
        → is_conflict
            (again_if_conflict (attempted db w update_fn others n s ((others n).read s)) rest).1
          ≡ false
    attempted_quiet n s rest honest quiet = elim (Option-cases ((others n).read s)) [
      | inl gone ↦ rw gone refl
      | inr (r, found) ↦
          let (t, written, same) =
            update_written ((others n).after_read s) w (update_fn r).1 r (others n).after_commit
              (quiet ∙ found) in
          rw (found, honest r, same)
            (not_again ((others n).after_commit t) (db.select ((others n).after_commit t) w) rest)
    ]

    rest_quiet :
        (x rest : S × Answer)
        → is_conflict rest.1 ≡ false
        → is_conflict (again_if_conflict x rest).1 ≡ false
    rest_quiet (t, conflict) rest h = h
    rest_quiet (t, not_found) rest h = refl
    rest_quiet (t, vanished) rest h = refl
    rest_quiet (t, updated v) rest h = refl

    split : (a n : ℕ) → a ≤ n → (a ≡ n) ⊎ (a < n)
    split a n h = ground arith

    retry_quiet :
        (left a n : ℕ) (s : S)
        → ((r : Row) → (update_fn r).0 ≡ r.version)
        → a ≤ n
        → n < a + left
        → ((t : S) → db.select ((others n).after_read t) w ≡ (others n).read t)
        → is_conflict (update_with_retry db w update_fn others left a s).1 ≡ false
    unfolding update_with_retry
    retry_quiet zero a n s honest low high quiet = absurd (omega arith)
    retry_quiet (suc left) a n s honest low high quiet =
        let here = attempted db w update_fn others a s ((others a).read s) in
        let rest = update_with_retry db w update_fn others left (suc a) here.0 in
        elim (split a n low) [
          | inl now ↦ attempted_quiet a s rest honest (rw now (quiet s))
          | inr later ↦
              rest_quiet here rest
                (retry_quiet left (suc a) n here.0 honest (omega arith) (omega arith) quiet)
        ]

  -- Where `update_fn` passes on the version it was given, and in one of the allowed attempts the SELECT gives
  -- the row as it still is when the UPDATE runs, the retries do not end in ConcurrentUpdateError.
  pub update_with_retry_quiet :
      (w : Where) (update_fn : Row → ℕ × ℕ) (others : ℕ → Others S) (max_retries n : ℕ) (s : S)
      → ((r : Row) → (update_fn r).0 ≡ r.version)
      → n < max_retries
      → ((t : S) → db.select ((others n).after_read t) w ≡ (others n).read t)
      → is_conflict (update_with_retry db w update_fn others max_retries 0 s).1 ≡ false
  update_with_retry_quiet w update_fn others max_retries n s honest few quiet =
      retry_quiet w update_fn others max_retries 0 n s honest (omega arith) (omega (arith, few))
        quiet
