-- ===== src/Pool.antt =====
-- backend/database.py: `ConnectionPool`, connections to sqlite that threads take and return. A
-- connection is known by the number of its making. `alive` says which connections still answer
-- `SELECT 1` at the time of the call.
pub mod Bound
pub mod Exclusive
mod Tests
use fossilsafe_t.Prelude.{
  ℕ, zero, suc, ◌+◌, ◌-◌, ◌*◌, ◌/◌, ◌%◌, ◌^◌, ◌≤◌, ◌<◌, String, ◌≡◌, refl, sym, ap, subst, ◌∙◌, ◌≢◌,
  ◌↔◌, ◌⊎◌, inl, inr, Bool, true, false, not, ◌&&◌, ◌||◌, Option, none, some, List, [], ◌∷◌, ◌++◌,
  map, arith, ltb, leb, nat_beq, if◌then◌else◌, nat_beq_iff, Bool-cases, Option-cases, length, take,
  drop, keep, find, last?, length-append, length-keep-le, last?-append, All, All-append, Eq, ◌==◌,
  nat_eq, string_eq, beq_refl, str_iff, is_text, text_truth, truth,
}
use fossilsafe_t.Prelude.Dict.{
  Dict, lookup, insert, remove, contains, lookup-insert, lookup-remove, lookup-insert_self,
  lookup-insert_ne, lookup-remove_self, lookup-remove_ne,
}

pub record ConnectionPool : Type 0 where
  pub pool_size : ℕ
  pub pool : List ℕ
  pub all_connections : List ℕ
  pub local : Dict ℕ ℕ
  pub made : ℕ
  pub closed : Bool

-- `if conn in xs: xs.remove(conn)`
unfoldable pub without : ℕ → List ℕ → List ℕ
without c [] = []
without c (d ∷ ds) = if d == c then ds else d ∷ without c ds

-- `_create_connection`: the new connection's number is the old `made`.
unfoldable pub create_connection : ConnectionPool → ConnectionPool
create_connection p = record p {
  all_connections = p.all_connections ++ p.made ∷ [];
  made = p.made + 1;
}

unfoldable pub drop_dead : ℕ → ConnectionPool → ConnectionPool
drop_dead c p = record p { all_connections = without c p.all_connections }

unfoldable pub keep_local : ℕ → ℕ → ConnectionPool → ConnectionPool
keep_local thread c p = record p { local = insert thread c p.local }

-- The first part of `get_connection`: the thread's own connection, if it has one that answers.
unfoldable pub reuse_local : (ℕ → Bool) → ℕ → ConnectionPool → Option ℕ × ConnectionPool
reuse_local alive thread p = elim (lookup thread p.local) [
  | none ↦ (none, p)
  | some c ↦
      if alive c
      then (some c, p)
      else (none, record (drop_dead c p) { local = remove thread p.local })
]

-- The second part: a connection of the queue, if there is one and it answers.
unfoldable pub take_queued : (ℕ → Bool) → ConnectionPool → Option ℕ × ConnectionPool
take_queued alive p = elim p.pool [
  | [] ↦ (none, p)
  | c ∷ rest ↦
      let p' : ConnectionPool = record p { pool = rest } in
      if alive c then (some c, p') else (none, drop_dead c p')
]

-- The third part, under the lock: a new connection, if there is room.
unfoldable pub create_if_room : ConnectionPool → Option ℕ × ConnectionPool
create_if_room p =
    if ltb (length p.all_connections) p.pool_size
    then (some p.made, create_connection p)
    else (none, p)

pub data Got : Type 0 where
  pool_closed : Got
  connection : ℕ → Got
  waits : Got

unfoldable pub keep_made : ℕ → Option ℕ × ConnectionPool → Got × ConnectionPool
keep_made thread (some c, p) = (connection c, keep_local thread c p)
keep_made thread (none, p) = (waits, p)

-- The third part and the end, after the second.
unfoldable pub or_create : ℕ → Option ℕ × ConnectionPool → Got × ConnectionPool
unfolding keep_made create_if_room
or_create thread (some c, p) = (connection c, keep_local thread c p)
or_create thread (none, p) = keep_made thread (create_if_room p)

-- What follows the first part.
unfoldable pub after_local : (ℕ → Bool) → ℕ → Option ℕ × ConnectionPool → Got × ConnectionPool
unfolding or_create take_queued
after_local alive thread (some c, p) = (connection c, p)
after_local alive thread (none, p) = or_create thread (take_queued alive p)

-- `get_connection` up to the wait for the queue.
unfoldable pub get_connection : (ℕ → Bool) → ℕ → ConnectionPool → Got × ConnectionPool
unfolding after_local reuse_local
get_connection alive thread p =
    if p.closed then (pool_closed, p) else after_local alive thread (reuse_local alive thread p)

-- The end of the wait: the head of the queue, or `none` for the `TimeoutError`.
unfoldable pub end_wait : (ℕ → Bool) → ℕ → ConnectionPool → Option ℕ × ConnectionPool
end_wait alive thread p = elim p.pool [
  | [] ↦ (none, p)
  | c ∷ rest ↦
      let p' : ConnectionPool = record p { pool = rest } in
      if alive c
      then (some c, keep_local thread c p')
      else (some p.made, keep_local thread p.made (create_connection p'))
]

-- `hasattr(self._local, 'conn') and self._local.conn is conn`, then the reference is dropped.
unfoldable pub forget_local : ℕ → ℕ → ConnectionPool → ConnectionPool
forget_local thread c p = elim (lookup thread p.local) [
  | none ↦ p
  | some d ↦ if d == c then record p { local = remove thread p.local } else p
]

unfoldable pub put_back : ℕ → ConnectionPool → ConnectionPool
put_back c p =
    if ltb (length p.pool) p.pool_size then record p { pool = p.pool ++ c ∷ [] } else drop_dead c p

unfoldable pub return_connection : ℕ → ℕ → ConnectionPool → ConnectionPool
return_connection thread c p = if p.closed then p else put_back c (forget_local thread c p)

unfoldable pub close_all : ConnectionPool → ConnectionPool
close_all p = record p { closed = true; all_connections = []; pool = [] }

abbrev pub empty_pool : ℕ → ConnectionPool
empty_pool size = record {
  pool_size = size;
  pool = [];
  all_connections = [];
  local = [];
  made = 0;
  closed = false;
}

-- `Database.release_connection`: the thread's own connection goes back.
unfoldable pub release_connection : ℕ → ConnectionPool → ConnectionPool
unfolding return_connection
release_connection thread p = elim (lookup thread p.local) [
  | none ↦ p
  | some c ↦ return_connection thread c p
]
