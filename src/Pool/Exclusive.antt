-- ===== src/Pool/Exclusive.antt =====
-- Which thread holds which connection.
use fossilsafe_t.Prelude.{
  ℕ, ◌<◌, ◌≡◌, refl, sym, subst, ◌≢◌, ◌⊎◌, inl, inr, Bool, true, false, ◌||◌, Option, none, some,
  List, [], ◌∷◌, ◌++◌, arith, ltb, if◌then◌else◌, Bool-cases, Option-cases, length, ◌==◌, nat_eq,
  string_eq, beq_refl,
}
use fossilsafe_t.Prelude.Dict.{lookup, insert, remove, lookup-insert, lookup-remove}
use fossilsafe_t.Pool.{
  ConnectionPool, create_connection, drop_dead, keep_local, reuse_local, take_queued,
  create_if_room, keep_made, or_create, after_local, get_connection, end_wait, forget_local,
  put_back, return_connection, release_connection, close_all, empty_pool, pool_closed,
}

unfoldable pub is_in : ℕ → List ℕ → Bool
is_in c [] = false
is_in c (d ∷ ds) = d == c || is_in c ds

abbrev pub AreDistinct : List ℕ → Type 0
AreDistinct [] = Unit
AreDistinct (c ∷ cs) = (is_in c cs ≡ false) × AreDistinct cs

-- Two threads never hold one connection, none of theirs waits in the queue, the queue holds
-- each connection once, and all have been made.
pub record IsExclusive (p : ConnectionPool) : Type 0 where
  pub held_once : (t u c : ℕ) → lookup t p.local ≡ some c → lookup u p.local ≡ some c → t ≡ u
  pub held_out : (t c : ℕ) → lookup t p.local ≡ some c → is_in c p.pool ≡ false
  pub queued_once : AreDistinct p.pool
  pub held_made : (t c : ℕ) → lookup t p.local ≡ some c → c < p.made
  pub queued_made : (c : ℕ) → is_in c p.pool ≡ true → c < p.made

is_in-append : (c d : ℕ) (xs : List ℕ) → is_in c (xs ++ d ∷ []) ≡ (is_in c xs || d == c)
unfolding is_in
is_in-append c d [] = ground arith
is_in-append c d (x ∷ xs) = ground (arith, is_in-append c d xs)

append-AreDistinct :
    (c : ℕ) (xs : List ℕ) → AreDistinct xs → is_in c xs ≡ false → AreDistinct (xs ++ c ∷ [])
unfolding is_in
append-AreDistinct c [] d out = (refl, tt)
append-AreDistinct c (x ∷ xs) (once, d) out = (
  ground (arith, is_in-append x c xs, once, out),
  append-AreDistinct c xs d (ground (arith, out)),
)

-- A thread takes a connection that no other thread holds.
keep-IsExclusive :
    (thread c : ℕ) (p : ConnectionPool)
    → IsExclusive p
    → ((t : ℕ) → lookup t p.local ≡ some c → t ≡ thread)
    → is_in c p.pool ≡ false
    → c < p.made
    → IsExclusive (keep_local thread c p)
unfolding keep_local
keep-IsExclusive thread c p h free out made =
    let look : (t : ℕ)
        → lookup t (insert thread c p.local) ≡ (if thread == t then some c else lookup t p.local) =
      λ t. lookup-insert thread t c p.local in
    record {
      held_once =
          λ t u d e f. ground (arith, look t, look u, e, f, free t, free u, h.held_once t u d);
      held_out = λ t d e. ground (arith, look t, e, h.held_out t d, out);
      queued_once = h.queued_once;
      held_made = λ t d e. ground (arith, look t, e, h.held_made t d, made);
      queued_made = h.queued_made;
    }

forget-IsExclusive :
    (thread : ℕ) (p : ConnectionPool)
    → IsExclusive p
    → IsExclusive (record p { local = remove thread p.local })
forget-IsExclusive thread p h =
    let look : (t : ℕ)
        → lookup t (remove thread p.local) ≡ (if thread == t then none else lookup t p.local) =
      λ t. lookup-remove thread t p.local in
    record {
      held_once = λ t u d e f. ground (arith, look t, look u, e, f, h.held_once t u d);
      held_out = λ t d e. ground (arith, look t, e, h.held_out t d);
      queued_once = h.queued_once;
      held_made = λ t d e. ground (arith, look t, e, h.held_made t d);
      queued_made = h.queued_made;
    }

pop-IsExclusive :
    (c : ℕ) (rest : List ℕ) (p : ConnectionPool)
    → IsExclusive p
    → p.pool ≡ c ∷ rest
    → IsExclusive (record p { pool = rest })
      × ((t : ℕ) → lookup t p.local ≢ some c)
      × (is_in c rest ≡ false)
      × (c < p.made)
unfolding is_in
pop-IsExclusive c rest p h e =
    let queue = subst AreDistinct e h.queued_once in
    (
      record {
        held_once = h.held_once;
        held_out = λ t d f. ground (arith, h.held_out t d f, e);
        queued_once = queue.1;
        held_made = h.held_made;
        queued_made = λ d f. ground (arith, h.queued_made d, e, f);
      },
      λ t f. ground (arith, h.held_out t c f, e),
      queue.0,
      ground (arith, h.queued_made c, e),
    )

make-IsExclusive : (p : ConnectionPool) → IsExclusive p → IsExclusive (create_connection p)
unfolding create_connection
make-IsExclusive p h = record {
  held_once = h.held_once;
  held_out = h.held_out;
  queued_once = h.queued_once;
  held_made = λ t c e. omega (arith, h.held_made t c e);
  queued_made = λ c e. omega (arith, h.queued_made c e);
}

drop-IsExclusive : (c : ℕ) (p : ConnectionPool) → IsExclusive p → IsExclusive (drop_dead c p)
unfolding drop_dead
drop-IsExclusive c p h = record {
  held_once = h.held_once;
  held_out = h.held_out;
  queued_once = h.queued_once;
  held_made = h.held_made;
  queued_made = h.queued_made;
}

List-cases : (xs : List ℕ) → (xs ≡ []) ⊎ ((x : ℕ) × (rest : List ℕ) × (xs ≡ x ∷ rest))
List-cases [] = inl refl
List-cases (x ∷ rest) = inr (x, rest, refl)

not_true : (b : Bool) → (b ≡ true → true ≡ false) → b ≡ false
not_true true h = h refl
not_true false h = refl

fresh-IsExclusive :
    (thread : ℕ) (p : ConnectionPool)
    → IsExclusive p
    → IsExclusive (keep_local thread p.made (create_connection p))
unfolding create_connection
fresh-IsExclusive thread p h =
    keep-IsExclusive thread p.made (create_connection p) (make-IsExclusive p h)
      (λ t e. omega (arith, h.held_made t p.made e))
      (not_true (is_in p.made p.pool) (λ e. ground (arith, h.queued_made p.made e))) (omega arith)

if-IsExclusive :
    (b : Bool) (p q : ConnectionPool)
    → IsExclusive p
    → IsExclusive q
    → IsExclusive (if b then p else q)
if-IsExclusive true p q hp hq = hp
if-IsExclusive false p q hp hq = hq

made-IsExclusive :
    (thread : ℕ) (p : ConnectionPool)
    → IsExclusive p
    → IsExclusive (keep_made thread (create_if_room p)).1
unfolding keep_made create_if_room
made-IsExclusive thread p h = choose (ltb (length p.all_connections) p.pool_size)
  where
    choose :
        (b : Bool)
        → IsExclusive
            (keep_made thread (if b then (some p.made, create_connection p) else (none, p))).1
    choose true = fresh-IsExclusive thread p h
    choose false = h

take-IsExclusive :
    (thread c : ℕ) (rest : List ℕ) (p : ConnectionPool)
    → IsExclusive p
    → p.pool ≡ c ∷ rest
    → IsExclusive (keep_local thread c (record p { pool = rest }))
take-IsExclusive thread c rest p h e =
    let (left, free, out, made) = pop-IsExclusive c rest p h e in
    keep-IsExclusive thread c (record p { pool = rest }) left (λ t f. elim (free t f) [ ]) out made

take_queued-empty :
    (alive : ℕ → Bool) (p : ConnectionPool) → p.pool ≡ [] → take_queued alive p ≡ (none, p)
unfolding take_queued
take_queued-empty alive p e = ground (arith, e)

-- What the second part gives for a queue that is not empty.
taken : (ℕ → Bool) → ℕ → List ℕ → ConnectionPool → Option ℕ × ConnectionPool
taken alive c rest p =
    if alive c
    then (some c, record p { pool = rest })
    else (none, drop_dead c (record p { pool = rest }))

take_queued-taken :
    (alive : ℕ → Bool) (c : ℕ) (rest : List ℕ) (p : ConnectionPool)
    → p.pool ≡ c ∷ rest
    → take_queued alive p ≡ taken alive c rest p
unfolding take_queued taken
take_queued-taken alive c rest p e = rw (take_queued, e) refl

queued-IsExclusive :
    (alive : ℕ → Bool) (thread : ℕ) (p : ConnectionPool)
    → IsExclusive p
    → IsExclusive (or_create thread (take_queued alive p)).1
unfolding or_create taken
queued-IsExclusive alive thread p h = elim (List-cases p.pool) [
  | inl e ↦
      subst (λ r. IsExclusive (or_create thread r).1) (sym (take_queued-empty alive p e))
        (made-IsExclusive thread p h)
  | inr (c, rest, e) ↦
      let left = (pop-IsExclusive c rest p h e).0 in
      subst (λ r. IsExclusive (or_create thread r).1) (sym (take_queued-taken alive c rest p e))
        (choose c rest (take-IsExclusive thread c rest p h e)
          (made-IsExclusive thread (drop_dead c (record p { pool = rest }))
            (drop-IsExclusive c (record p { pool = rest }) left))
          (alive c))
]
  where
    choose :
        (c : ℕ) (rest : List ℕ)
        → IsExclusive (keep_local thread c (record p { pool = rest }))
        → IsExclusive (keep_made thread (create_if_room (drop_dead c (record p { pool = rest })))).1
        → (b : Bool)
        → IsExclusive
            (or_create thread (
              if b
              then (some c, record p { pool = rest })
              else (none, drop_dead c (record p { pool = rest })))).1
    choose c rest kept made true = kept
    choose c rest kept made false = made

put_back-IsExclusive :
    (c : ℕ) (p : ConnectionPool)
    → IsExclusive p
    → ((t : ℕ) → lookup t p.local ≢ some c)
    → is_in c p.pool ≡ false
    → c < p.made
    → IsExclusive (put_back c p)
unfolding put_back
put_back-IsExclusive c p h free out made = elim (Bool-cases (ltb (length p.pool) p.pool_size)) [
  | inl e ↦
      rw (put_back, e)
        (record {
          held_once = h.held_once;
          held_out = λ t d f. ground (arith, is_in-append d c p.pool, h.held_out t d f, free t, f);
          queued_once = append-AreDistinct c p.pool h.queued_once out;
          held_made = h.held_made;
          queued_made = λ d f. ground (arith, is_in-append d c p.pool, f, h.queued_made d, made);
        })
  | inr e ↦ rw (put_back, e) (drop-IsExclusive c p h)
]

forget_local-own :
    (thread c : ℕ) (p : ConnectionPool)
    → lookup thread p.local ≡ some c
    → forget_local thread c p ≡ record p { local = remove thread p.local }
unfolding forget_local
forget_local-own thread c p e = rw (forget_local, e, beq_refl {A = ℕ} c) refl

release-IsExclusive :
    (thread : ℕ) (p : ConnectionPool) → IsExclusive p → IsExclusive (release_connection thread p)
unfolding release_connection return_connection forget_local
release-IsExclusive thread p h = elim (Option-cases (lookup thread p.local)) [
  | inl e ↦ rw (release_connection, e) h
  | inr (c, e) ↦
      let left : ConnectionPool = record p { local = remove thread p.local } in
      let free : (t : ℕ) → lookup t left.local ≢ some c =
        λ t f. ground (arith, lookup-remove thread t p.local, f, h.held_once t thread c, e) in
      rw (release_connection, e, return_connection, forget_local-own thread c p e)
        (if-IsExclusive p.closed p (put_back c left) h (
          put_back-IsExclusive c left (forget-IsExclusive thread p h) free (h.held_out thread c e)
            (h.held_made thread c e)))
]

-- A call of a thread; each runs whole, but that a wait for the queue ends in a step of its own.
pub data Call : Type 0 where
  gets : (ℕ → Bool) → ℕ → Call
  ends_wait : (ℕ → Bool) → ℕ → Call
  releases : ℕ → Call
  closes : Call

unfoldable pub call : Call → ConnectionPool → ConnectionPool
call (gets alive thread) p = (get_connection alive thread p).1
call (ends_wait alive thread) p = (end_wait alive thread p).1
call (releases thread) p = release_connection thread p
call closes p = close_all p

unfoldable pub call_all : List Call → ConnectionPool → ConnectionPool
call_all [] p = p
call_all (c ∷ calls) p = call_all calls (call c p)

reuse-IsExclusive :
    (alive : ℕ → Bool) (thread : ℕ) (p : ConnectionPool)
    → IsExclusive p
    → IsExclusive (after_local alive thread (reuse_local alive thread p)).1
unfolding after_local reuse_local drop_dead
reuse-IsExclusive alive thread p h = elim (Option-cases (lookup thread p.local)) [
  | inl e ↦ rw (reuse_local, e) (queued-IsExclusive alive thread p h)
  | inr (c, e) ↦
      let left : ConnectionPool = record (drop_dead c p) { local = remove thread p.local } in
      rw (reuse_local, e)
        (choose c
          (queued-IsExclusive alive thread left
            (forget-IsExclusive thread (drop_dead c p) (drop-IsExclusive c p h)))
          (alive c))
]
  where
    choose :
        (c : ℕ)
        → IsExclusive
            (or_create thread
              (take_queued alive (record (drop_dead c p) { local = remove thread p.local }))).1
        → (b : Bool)
        → IsExclusive
            (after_local alive thread (
              if b
              then (some c, p)
              else (none, record (drop_dead c p) { local = remove thread p.local }))).1
    choose c dropped true = h
    choose c dropped false = dropped

get-IsExclusive :
    (alive : ℕ → Bool) (thread : ℕ) (p : ConnectionPool)
    → IsExclusive p
    → IsExclusive (get_connection alive thread p).1
unfolding get_connection
get-IsExclusive alive thread p h = choose p.closed
  where
    choose :
        (b : Bool)
        → IsExclusive
            (if b
              then (pool_closed, p)
              else after_local alive thread (reuse_local alive thread p)).1
    choose true = h
    choose false = reuse-IsExclusive alive thread p h

end_wait-IsExclusive :
    (alive : ℕ → Bool) (thread : ℕ) (p : ConnectionPool)
    → IsExclusive p
    → IsExclusive (end_wait alive thread p).1
unfolding end_wait
end_wait-IsExclusive alive thread p h = elim (List-cases p.pool) [
  | inl e ↦ ground (arith, e, h)
  | inr (c, rest, e) ↦
      rw (end_wait, e)
        (choose c rest (take-IsExclusive thread c rest p h e)
          (fresh-IsExclusive thread (record p { pool = rest }) (pop-IsExclusive c rest p h e).0)
          (alive c))
]
  where
    choose :
        (c : ℕ) (rest : List ℕ)
        → IsExclusive (keep_local thread c (record p { pool = rest }))
        → IsExclusive (keep_local thread p.made (create_connection (record p { pool = rest })))
        → (b : Bool)
        → let r : Option ℕ × ConnectionPool =
            if b then (some c, keep_local thread c (record p { pool = rest })) else (
              some p.made,
              keep_local thread p.made (create_connection (record p { pool = rest })),
            ) in
          IsExclusive r.1
    choose c rest kept made true = kept
    choose c rest kept made false = made

close-IsExclusive : (p : ConnectionPool) → IsExclusive p → IsExclusive (close_all p)
unfolding close_all is_in
close-IsExclusive p h = record {
  held_once = h.held_once;
  held_out = λ t c e. refl;
  queued_once = tt;
  held_made = h.held_made;
  queued_made = λ c e. ground (arith, e);
}

call-IsExclusive : (c : Call) (p : ConnectionPool) → IsExclusive p → IsExclusive (call c p)
unfolding call
call-IsExclusive (gets alive thread) p h = get-IsExclusive alive thread p h
call-IsExclusive (ends_wait alive thread) p h = end_wait-IsExclusive alive thread p h
call-IsExclusive (releases thread) p h = release-IsExclusive thread p h
call-IsExclusive closes p h = close-IsExclusive p h

call_all-IsExclusive :
    (calls : List Call) (p : ConnectionPool) → IsExclusive p → IsExclusive (call_all calls p)
unfolding call_all
call_all-IsExclusive [] p h = h
call_all-IsExclusive (c ∷ calls) p h =
    call_all-IsExclusive calls (call c p) (call-IsExclusive c p h)

empty-IsExclusive : (size : ℕ) → IsExclusive (empty_pool size)
unfolding lookup is_in
empty-IsExclusive size = record {
  held_once = λ t u c e f. ground (arith, e);
  held_out = λ t c e. ground (arith, e);
  queued_once = tt;
  held_made = λ t c e. ground (arith, e);
  queued_made = λ c e. ground (arith, e);
}

-- From a new pool, through every sequence of calls of the threads, ends of waits, releases and
-- dying connections, no two threads hold one connection, and none that a thread holds stands in
-- the queue.
pub call_all-exclusive :
    (size : ℕ) (calls : List Call) (t u c : ℕ)
    → lookup t (call_all calls (empty_pool size)).local ≡ some c
    → (is_in c (call_all calls (empty_pool size)).pool ≡ false)
      × (lookup u (call_all calls (empty_pool size)).local ≡ some c → t ≡ u)
call_all-exclusive size calls t u c e =
    let h = call_all-IsExclusive calls (empty_pool size) (empty-IsExclusive size) in
    (h.held_out t c e, h.held_once t u c e)
