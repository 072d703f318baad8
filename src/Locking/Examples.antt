-- ===== src/Locking/Examples.antt =====
-- A database of one row, clients of it, and the theorems on them at concrete inputs.
use hot_sot.Base.{
  ℕ, zero, suc, ◌+◌, ◌≡◌, refl, true, false, Option, none, some, List, [], ◌∷◌, ◌==◌, if◌then◌else◌,
  arith,
}
use hot_sot.Locking.Update.{
  Row, Where, Database, updated, conflict, Others, update_with_retry, optimistic_update,
}
use hot_sot.Locking.Loop.{is_conflict, update_with_retry_quiet}
use hot_sot.Locking.Clients.{Step, reads, writes, World, acts, act, iterate, acts_lose_nothing}

abbrev update_one : Option Row → ℕ → Row → Option Row × ℕ
update_one none v r = (none, 0)
update_one (some old) v r = if old.version == v then (some r, 1) else (some old, 0)

update_one_missing : (s : Option Row) (v : ℕ) (r : Row) → s ≡ none → update_one s v r ≡ (s, 0)
update_one_missing none v r h = refl
update_one_missing (some old) v r h = absurd cc

update_one_stale :
    (s : Option Row) (v : ℕ) (r old : Row)
    → s ≡ some old
    → (old.version == v) ≡ false
    → update_one s v r ≡ (s, 0)
update_one_stale s v r old h stale = rw (h, stale)

update_one_current :
    (s : Option Row) (v : ℕ) (r old : Row)
    → s ≡ some old
    → (old.version == v) ≡ true
    → ((update_one s v r).1 ≡ 1) × ((update_one s v r).0 ≡ some r)
update_one_current s v r old h same = rw (h, same) (refl, refl)

abbrev one_row : Database (Option Row)
one_row = record {
  select = λ s w. s;
  update = λ s w v r. update_one s v r;
  update_missing = λ s w v r h. update_one_missing s v r h;
  update_stale = λ s w v r old h k. update_one_stale s v r old h k;
  update_current = λ s w v r old h k. update_one_current s v r old h k;
}

abbrev row_7 : Where
row_7 = record { id = 7; tenant = none }

abbrev fresh : Row
fresh = record { version = 1; value = 10 }

abbrev world : World (Option Row)
world = record { database = some fresh; last_read = λ c. none; successes = 0 }

abbrev add_5 : ℕ → ℕ
add_5 x = x + 5

-- Two clients read, the first write wins, the second is refused until it has read again.
abbrev race : List Step
race = reads 1 ∷ reads 2 ∷ writes 1 ∷ writes 2 ∷ reads 2 ∷ writes 2 ∷ []

race_end :
    (acts one_row row_7 add_5 world race).database ≡ some (record { version = 3; value = 20 })
unfolding acts act optimistic_update
race_end = refl

acts_lose_nothing_example :
    let end = acts one_row row_7 add_5 world race in
    end.database
    ≡ some (record { version = 1 + end.successes; value = iterate add_5 end.successes 10 })
acts_lose_nothing_example = acts_lose_nothing one_row row_7 add_5 (some fresh) fresh race refl

-- Others write the row in the first attempt and leave it alone in the later ones.
abbrev once_disturbed : ℕ → Others (Option Row)
once_disturbed zero = record {
  read = λ s. s;
  after_read = λ s. some (record { version = 9; value = 3 });
  after_commit = λ s. s;
}
once_disturbed (suc n) = record { read = λ s. s; after_read = λ s. s; after_commit = λ s. s }

second_attempt :
    update_with_retry one_row row_7 (λ r. (r.version, r.value + 5)) once_disturbed 3 0 (some fresh)
    ≡ (some (record { version = 10; value = 8 }), updated 10)
unfolding update_with_retry optimistic_update
second_attempt = refl

-- A session that goes on giving the instance of the first attempt: every attempt ends in a conflict.
abbrev stale : ℕ → Others (Option Row)
stale n = record {
  read = λ s. some fresh;
  after_read = λ s. some (record { version = 9; value = 3 });
  after_commit = λ s. s;
}

never_written :
    update_with_retry one_row row_7 (λ r. (r.version, r.value + 5)) stale 3 0 (some fresh)
    ≡ (some (record { version = 9; value = 3 }), conflict)
unfolding update_with_retry optimistic_update
never_written = refl

update_with_retry_quiet_example :
    is_conflict
      (update_with_retry one_row row_7
        (λ r. (r.version, r.value + 5))
        once_disturbed
        3
        0
        (some fresh)).1
    ≡ false
update_with_retry_quiet_example =
    update_with_retry_quiet one_row row_7 (λ r. (r.version, r.value + 5)) once_disturbed 3 1
      (some fresh) (λ r. refl) (omega arith) (λ t. refl)
