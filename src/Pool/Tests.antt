-- ===== src/Pool/Tests.antt =====
-- Runs of the pool, and the theorems at concrete inputs.
use fossilsafe_t.Prelude.{
  ℕ, ◌≤◌, ◌≡◌, refl, Bool, true, false, some, List, [], ◌∷◌, length, nat_eq, string_eq,
}
use fossilsafe_t.Prelude.Dict.{lookup, insert, remove}
use fossilsafe_t.Pool.{
  ConnectionPool, connection, waits, get_connection, release_connection, empty_pool, reuse_local,
  take_queued, create_if_room, create_connection, keep_local, return_connection, put_back,
  forget_local,
}
use fossilsafe_t.Pool.Bound.{creates, keeps, returns, waited, apply_all, apply_all-bound}
use fossilsafe_t.Pool.Exclusive.{Call, is_in, gets, releases, call_all, call, call_all-exclusive}

abbrev up : ℕ → Bool
up c = true

abbrev down : ℕ → Bool
down c = false

-- Thread 1 takes a connection and releases it, and thread 2 gets the same one.
handed_on :
    (get_connection up 2 (call_all (gets up 1 ∷ releases 1 ∷ []) (empty_pool 1))).0 ≡ connection 0
unfolding get_connection call_all call reuse_local take_queued create_if_room create_connection
    keep_local release_connection return_connection put_back forget_local lookup insert remove
handed_on = refl

-- With the pool's one connection taken, thread 2 has to wait.
must_wait : (get_connection up 2 (get_connection up 1 (empty_pool 1)).1).0 ≡ waits
unfolding get_connection reuse_local take_queued create_if_room create_connection keep_local lookup
    insert
must_wait = refl

apply_all-bound_example :
    length
      (apply_all
        (creates ∷ keeps 1 0 ∷ creates ∷ returns 1 0 ∷ waited 2 ∷ [])
        (empty_pool 1)).all_connections
    ≤ 1
apply_all-bound_example =
    apply_all-bound 1 (creates ∷ keeps 1 0 ∷ creates ∷ returns 1 0 ∷ waited 2 ∷ [])

abbrev full : ConnectionPool
full = record (empty_pool 1) { pool = 0 ∷ []; all_connections = 0 ∷ []; made = 1 }

abbrev two : ℕ
two = 2

abbrev calls : List Call
calls = gets up 1 ∷ releases 1 ∷ gets up 2 ∷ []

call_all-exclusive_example :
    (is_in 0 (call_all calls (empty_pool 1)).pool ≡ false)
    × (lookup 1 (call_all calls (empty_pool 1)).local ≡ some 0 → two ≡ 1)
unfolding get_connection call_all call reuse_local take_queued create_if_room create_connection
    keep_local release_connection return_connection put_back forget_local lookup insert remove
call_all-exclusive_example = call_all-exclusive 1 calls 2 1 0 refl
