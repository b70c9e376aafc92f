-- ===== src/Buffer/Growth.antt =====
-- term/history.c: the loop that doubles the capacity.
use vjft.Prelude.{ℕ, zero, suc, ◌+◌, ◌*◌, ◌<◌, ◌≤◌, leb, arith, Bool-cases, inl, inr}
use vjft.Buffer.{grow}

-- With rounds enough the new capacity is above the new size.
pub lt-grow :
    (rounds new_capacity new_size : ℕ)
    → 1 ≤ new_capacity
    → new_size < new_capacity + rounds
    → new_size < grow rounds new_capacity new_size
unfolding grow
lt-grow zero new_capacity new_size some_room enough = omega arith
lt-grow (suc rounds) new_capacity new_size some_room enough =
    elim (Bool-cases (leb new_capacity new_size)) [
      | inl small ↦
          rw (grow, small) (lt-grow rounds (new_capacity * 2) new_size (omega arith) (omega arith))
      | inr large ↦ rw (grow, large) (ground arith)
    ]
