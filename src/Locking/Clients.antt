-- ===== src/Locking/Clients.antt =====
-- Clients of one row that read it and write it back with `optimistic_update`, in any order
-- (shared/optimistic_locking.py).
use hot_sot.Base.{
  ℕ, zero, suc, ◌+◌, ◌≤◌, ◌≡◌, refl, ap, ◌∙◌, Option, none, some, List, [], ◌∷◌, ◌==◌,
  if◌then◌else◌, arith, Bool-cases, inl, inr,
}
use hot_sot.Locking.Update.{
  Row, Where, update_values, Database, Answer, updated, conflict, optimistic_update, report,
  explain,
}
use hot_sot.Locking.Loop.{update_written, update_refused}

-- A client reads the row, or writes the value it computes from what it last read.
pub data Step : Type 0 where
  reads writes : ℕ → Step

-- The database, what each client last read, and how many updates have gone through.
pub record World (S : Type 0) : Type 0 where
  pub database : S
  pub last_read : ℕ → Option Row
  pub successes : ℕ

abbrev pub set_read : ℕ → Option Row → (ℕ → Option Row) → ℕ → Option Row
set_read c r before d = if d == c then r else before d

abbrev pub success : Answer → ℕ
success (updated v) = 1
success _ = 0

same_row : (r q : Row) → r.version ≡ q.version → r.value ≡ q.value → r ≡ q
same_row r q v x = ground arith

one_more : {n : ℕ} → n + 1 ≡ suc n
one_more = omega arith

no_more : {n : ℕ} → n + 0 ≡ n
no_more = omega arith

-- `f` applied to a number of times.
abbrev pub iterate : (ℕ → ℕ) → ℕ → ℕ → ℕ
iterate f zero x = x
iterate f (suc n) x = f (iterate f n x)

module _ {S : Type 0} (db : Database S) (w : Where) (f : ℕ → ℕ) where
  abbrev pub written : World S → Option Row → World S
  written world none = world
  written world (some r) =
      let (t, answer) = optimistic_update db world.database w (f r.value) r.version (λ s. s) in
      record world { database = t; successes = world.successes + success answer }

  unfoldable pub act : World S → Step → World S
  act world (reads c) = record world {
    last_read = set_read c (db.select world.database w) world.last_read;
  }
  act world (writes c) = written world (world.last_read c)

  unfoldable pub acts : World S → List Step → World S
  acts world [] = world
  acts world (a ∷ more) = acts (act world a) more

  -- What a client has read is not newer than the row, and is the row where the versions agree.
  abbrev IsRead : Row → Option Row → Type 0
  IsRead now none = Unit
  IsRead now (some r) = (r.version ≤ now.version) × (r.version ≡ now.version → r.value ≡ now.value)

  -- The row holds the initial one with as many applications of `f` as updates went through.
  abbrev IsCounted : Row → World S → Row → Type 0
  IsCounted start world now =
      (db.select world.database w ≡ some now)
      × (now.version ≡ start.version + world.successes)
      × (now.value ≡ iterate f world.successes start.value)
      × ((c : ℕ) → IsRead now (world.last_read c))

  newer :
      (now : Row) (x : ℕ) (o : Option Row) → IsRead now o → IsRead (update_values now.version x) o
  newer now x none seen = tt
  newer now x (some r) (older, same) = (omega (arith, older), λ e. absurd (omega (arith, older, e)))

  -- Each write either goes through on the value it was computed from, or changes nothing.
  written-IsCounted :
      (start : Row) (world : World S) (now : Row) (o : Option Row)
      → IsRead now o
      → IsCounted start world now
      → (next : Row) × IsCounted start (written world o) next
  written-IsCounted start world now none read inv = (now, inv)
  written-IsCounted start world now (some r) (older, same) (here, v, x, seen) =
      elim (Bool-cases (now.version == r.version)) [
        | inl agree ↦
            let e : r.version ≡ now.version = ground arith in
            let (t, put, done) = update_written db world.database w (f r.value) now (λ s. s) here in
            let went : optimistic_update db world.database w (f r.value) r.version (λ s. s)
                ≡ (t, updated (suc now.version)) =
              ap (λ n. optimistic_update db world.database w (f r.value) n (λ s. s)) e
              ∙ done
              ∙ ap (λ q. (t, report q)) put in
            rw went (
              update_values now.version (f r.value),
              (
                put,
                omega (arith, v),
                rw one_more (ap f (same e ∙ x)),
                λ d. newer now (f r.value) (world.last_read d) (seen d),
              ),
            )
        | inr stale ↦
            let went : optimistic_update db world.database w (f r.value) r.version (λ s. s)
                ≡ (world.database, conflict) =
              update_refused db world.database w (f r.value) r.version now (λ s. s) here stale
              ∙ ap (λ q. (world.database, explain q)) here in
            rw went (now, (here, omega (arith, v), rw no_more x, seen))
      ]

  act-IsCounted :
      (start : Row) (world : World S) (now : Row) (a : Step)
      → IsCounted start world now
      → (next : Row) × IsCounted start (act world a) next
  unfolding act
  act-IsCounted start world now (reads c) (here, v, x, seen) = (
    now,
    (
      here,
      v,
      x,
      λ d. elim (Bool-cases (d == c)) [
        | inl same ↦ rw (same, here) (omega arith, λ e. refl)
        | inr other ↦ rw other (seen d)
      ],
    ),
  )
  act-IsCounted start world now (writes c) (here, v, x, seen) =
      written-IsCounted start world now (world.last_read c) (seen c) (here, v, x, seen)

  acts-IsCounted :
      (start : Row) (world : World S) (now : Row) (more : List Step)
      → IsCounted start world now
      → (next : Row) × IsCounted start (acts world more) next
  unfolding acts
  acts-IsCounted start world now [] inv = (now, inv)
  acts-IsCounted start world now (a ∷ more) inv =
      let (next, inv') = act-IsCounted start world now a inv in
      acts-IsCounted start (act world a) next more inv'

  -- No update is lost: however the clients' reads and writes interleave, from a world in which nobody has
  -- read yet the row ends with each client's change applied once for each of its updates that went
  -- through, and its version has grown by their number.
  pub acts_lose_nothing :
      (s : S) (start : Row) (more : List Step)
      → db.select s w ≡ some start
      → let world = acts (record { database = s; last_read = λ c. none; successes = 0 }) more in
        db.select world.database w
        ≡ some (record {
          version = start.version + world.successes;
          value = iterate f world.successes start.value;
        })
  acts_lose_nothing s start more h =
      let (next, (found, v, x, seen)) =
        acts-IsCounted start (record { database = s; last_read = λ c. none; successes = 0 }) start
          more (h, omega arith, refl, λ c. tt) in
      found ∙ ap some (same_row next _ v x)
