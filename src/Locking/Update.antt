-- ===== src/Locking/Update.antt =====
-- `optimistic_update` and `optimistic_update_with_retry` of shared/optimistic_locking.py. The database
-- is a parameter with the laws of a conditional UPDATE; what other transactions commit between two
-- statements is an argument.
use hot_sot.Base.{ℕ, zero, suc, ◌≡◌, true, false, Option, none, some, ◌==◌}

pub record Row : Type 0 where
  pub version : ℕ
  pub value : ℕ

-- A WHERE clause on the id and, if one is given, the tenant.
pub record Where : Type 0 where
  pub id : ℕ
  pub tenant : Option ℕ

-- The values of an update: `update_data` with the version set.
abbrev pub update_values : ℕ → ℕ → Row
update_values current_version value = record { version = suc current_version; value = value }

-- A database by its states. `update` is one UPDATE with the version in its WHERE clause, and gives
-- `rowcount`. An id is a primary key, so at most one row meets a clause.
pub record Database (S : Type 0) : Type 0 where
  pub select : S → Where → Option Row
  pub update : S → Where → ℕ → Row → S × ℕ
  pub update_missing :
      (s : S) (w : Where) (v : ℕ) (r : Row) → select s w ≡ none → update s w v r ≡ (s, 0)
  pub update_stale :
      (s : S) (w : Where) (v : ℕ) (r old : Row)
      → select s w ≡ some old
      → (old.version == v) ≡ false
      → update s w v r ≡ (s, 0)
  pub update_current :
      (s : S) (w : Where) (v : ℕ) (r old : Row)
      → select s w ≡ some old
      → (old.version == v) ≡ true
      → ((update s w v r).1 ≡ 1) × (select (update s w v r).0 w ≡ some r)

-- How an update ends; `vanished` is the AttributeError on a record that is gone again.
pub data Answer : Type 0 where
  updated : ℕ → Answer
  not_found conflict vanished : Answer

-- What an attempt meets: what its SELECT gives, which is the row or an instance that the session still holds
-- from an earlier attempt, and what the others commit after its read and after its UPDATE.
pub record Others (S : Type 0) : Type 0 where
  pub read : S → Option Row
  pub after_read : S → S
  pub after_commit : S → S

abbrev pub explain : Option Row → Answer
explain none = not_found
explain (some r) = conflict

abbrev pub report : Option Row → Answer
report none = vanished
report (some r) = updated r.version

abbrev pub again_if_conflict : {S : Type 0} → S × Answer → S × Answer → S × Answer
again_if_conflict (s, conflict) rest = rest
again_if_conflict (s, updated v) rest = (s, updated v)
again_if_conflict (s, not_found) rest = (s, not_found)
again_if_conflict (s, vanished) rest = (s, vanished)

module _ {S : Type 0} (db : Database S) where
  -- After the UPDATE with its rowcount.
  abbrev pub conclude : Where → S × ℕ → (S → S) → S × Answer
  conclude w (s, zero) later = (later s, explain (db.select (later s) w))
  conclude w (s, suc n) later = (later s, report (db.select (later s) w))

  -- `later` is what others commit between the UPDATE and the last SELECT.
  unfoldable pub optimistic_update : S → Where → ℕ → ℕ → (S → S) → S × Answer
  optimistic_update s w value current_version later =
      conclude w (db.update s w current_version (update_values current_version value)) later

  module _ (w : Where) (update_fn : Row → ℕ × ℕ) (others : ℕ → Others S) where
    -- One attempt on the record that it read. `update_fn` gives the version and the new value.
    abbrev pub attempted : ℕ → S → Option Row → S × Answer
    attempted n s none = (s, not_found)
    attempted n s (some r) =
        let (version, value) = update_fn r in
        optimistic_update ((others n).after_read s) w value version (others n).after_commit

    -- The loop, with `left` attempts to go, the next of which is number `n`.
    unfoldable pub update_with_retry : ℕ → ℕ → S → S × Answer
    update_with_retry zero n s = (s, conflict)
    update_with_retry (suc left) n s =
        let here = attempted n s ((others n).read s) in
        let rest = update_with_retry left (suc n) here.0 in again_if_conflict here rest
