-- ===== src/Kitchen/Examples.antt =====
-- A Redis server of lists, staff in it, and the theorem on them at concrete inputs.
use hot_sot.Base.{ℕ, ◌≡◌, refl, Option, none, some, List, [], ◌∷◌, ◌++◌, ◌==◌, if◌then◌else◌}
use hot_sot.Kitchen.Staff.{
  Redis, up, refuses, breaks, loses, loses_last, assign_staff, register_staff,
}
use hot_sot.Kitchen.Conserved.{
  assign, release, register, effect, effects, Balanced, effects-Balanced,
}

pub record Server : Type 0 where
  pub available : List ℕ
  pub busy : List (ℕ × ℕ)

abbrev pop : Server → Option ℕ × Server
pop s = elim s.available [ [] ↦ (none, s) | m ∷ ms ↦ (some m, record s { available = ms }) ]

abbrev without : ℕ → List (ℕ × ℕ) → List (ℕ × ℕ)
without m [] = []
without m ((j, o) ∷ rest) = let later = without m rest in if m == j then rest else (j, o) ∷ later

pop_empty : (s : Server) → s.available ≡ [] → pop s ≡ (none, s)
pop_empty s h = rw h

pop_first :
    (s : Server) (m : ℕ) (ms : List ℕ)
    → s.available ≡ m ∷ ms
    → (t : Server) × (pop s ≡ (some m, t)) × (t.available ≡ ms)
pop_first s m ms h = (record s { available = ms }, rw h, refl)

abbrev server : Redis Server
server = record {
  lrange = λ s. s.available;
  lpop = pop;
  rpush = λ m s. record s { available = s.available ++ m ∷ [] };
  set_busy = λ m order s. record s { busy = (m, order) ∷ s.busy };
  delete_busy = λ m s. record s { busy = without m s.busy };
  lpop_empty = pop_empty;
  lpop_first = pop_first;
  lrange-rpush = λ m s. refl;
  lrange-set_busy = λ m order s. refl;
  lrange-delete_busy = λ m s. refl;
}

abbrev two : Server
two = record { available = 1 ∷ 2 ∷ []; busy = [] }

-- The first member is popped, and marking it busy raises: nobody gets it, and it is in no list.
lost_member : assign_staff server 70 breaks two ≡ (record { available = 2 ∷ []; busy = [] }, none)
unfolding assign_staff
lost_member = refl

-- Registered twice, a member gets two orders at once.
two_orders :
    (effects server 3
      (register 3 up ∷ register 3 up ∷ assign 70 up ∷ assign 71 up ∷ [])
      (record { available = []; busy = [] })).state
    ≡ record { available = []; busy = (3, 71) ∷ (3, 70) ∷ [] }
unfolding effects effect register_staff assign_staff
two_orders = refl

effects-Balanced_example : Balanced server 1 two (
    effects server 1
      (assign 70 up
        ∷ release 1 up
        ∷ assign 71 breaks
        ∷ assign 72 loses
        ∷ release 1 loses_last
        ∷ assign 73 refuses
        ∷ [])
      two)
effects-Balanced_example =
    effects-Balanced server 1
      (assign 70 up
        ∷ release 1 up
        ∷ assign 71 breaks
        ∷ assign 72 loses
        ∷ release 1 loses_last
        ∷ assign 73 refuses
        ∷ [])
      two
