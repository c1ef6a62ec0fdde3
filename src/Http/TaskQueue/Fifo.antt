-- ===== src/Http/TaskQueue/Fifo.antt =====
-- The linked list stands for a list of clients: queue_push appends, queue_pop takes the first.
use caligo_engine.Base.{
  ℕ, ◌≡◌, ◌≢◌, refl, sym, ap, subst, ◌∙◌, Option, none, some, List, [], ◌∷◌, ◌++◌, All, All-snoc,
  arith,
}
use caligo_engine.Http.TaskQueue.{
  Task, TaskQueue, write, set_next, link_tail, first_task, queue_push, gives, rest_tail, queue_pop,
}

-- A cell of the list: its address and its client.
abbrev pub Cell : Type 0
Cell = ℕ × ℕ

-- The list that starts at a pointer has these cells, at different addresses.
abbrev pub Linked : (ℕ → Option Task) → Option ℕ → List Cell → Type 0
Linked heap from [] = from ≡ none
Linked heap from (x ∷ xs) =
    (from ≡ some x.0)
    × ((next : Option ℕ) × (heap x.0 ≡ some (record { client = x.1; next = next }))
        × All (λ (y : Cell). y.0 ≢ x.0) xs
        × Linked heap next xs)

abbrev pub last_of : List Cell → Option ℕ
last_of [] = none
last_of (x ∷ []) = some x.0
last_of (x ∷ y ∷ xs) = last_of (y ∷ xs)

pub record Holds (q : TaskQueue) (xs : List Cell) : Type 0 where
  pub linked : Linked q.heap q.head xs
  pub ends : q.tail ≡ last_of xs

write_other :
    (heap : ℕ → Option Task) (at j : ℕ) (task : Option Task)
    → j ≢ at
    → write heap at task j ≡ heap j
write_other heap at j task h = ground arith

write_self : (heap : ℕ → Option Task) (at : ℕ) (task : Option Task) → write heap at task at ≡ task
write_self heap at task = ground arith

-- A write elsewhere does not touch the list.
Linked-write :
    (heap : ℕ → Option Task) (at : ℕ) (task : Option Task) (from : Option ℕ) (xs : List Cell)
    → All (λ (y : Cell). y.0 ≢ at) xs
    → Linked heap from xs
    → Linked (write heap at task) from xs
Linked-write heap at task from [] apart v = v
Linked-write heap at task from (x ∷ xs) apart (start, (next, there, distinct, rest)) = (
  start,
  (
    next,
    write_other heap at x.0 task apart.0 ∙ there,
    distinct,
    Linked-write heap at task next xs apart.1 rest,
  ),
)

rest_tail-last_of :
    (heap : ℕ → Option Task) (next tail : Option ℕ) (x : Cell) (xs : List Cell)
    → Linked heap next xs
    → tail ≡ last_of (x ∷ xs)
    → rest_tail next tail ≡ last_of xs
unfolding rest_tail
rest_tail-last_of heap next tail x [] stop e = rw stop refl
rest_tail-last_of heap next tail x (y ∷ ys) (start, more) e = rw start e

-- queue_pop of a queue that stands for a list that is not empty gives the client of the first cell and
-- a queue that stands for the rest.
pub queue_pop-Holds :
    (q : TaskQueue) (x : Cell) (xs : List Cell)
    → Holds q (x ∷ xs)
    → (q' : TaskQueue) × (queue_pop q ≡ gives x.1 q') × Holds q' xs
unfolding queue_pop rest_tail
queue_pop-Holds q x xs v =
    let (start, (next, there, distinct, rest)) = v.linked in
    (
      record { heap = write q.heap x.0 none; head = next; tail = rest_tail next q.tail },
      (rw (start, there, queue_pop) refl),
      record {
        linked = Linked-write q.heap x.0 none next xs distinct rest;
        ends = rest_tail-last_of q.heap next q.tail x xs rest v.ends;
      },
    )

set_next-write :
    (heap : ℕ → Option Task) (at new_task : ℕ) (task : Task)
    → heap at ≡ some task
    → set_next heap at new_task ≡ write heap at (some (record task { next = some new_task }))
unfolding set_next
set_next-write heap at new_task task e = rw (e, set_next)

-- Linking behind the last cell changes no other cell.
link_tail-other :
    (heap : ℕ → Option Task) (new_task j : ℕ) (from : Option ℕ) (x : Cell) (xs : List Cell)
    → All (λ (y : Cell). y.0 ≢ j) (x ∷ xs)
    → Linked heap from (x ∷ xs)
    → link_tail heap (last_of (x ∷ xs)) new_task j ≡ heap j
unfolding link_tail
link_tail-other heap new_task j from x [] apart (start, (next, there, distinct, rest)) =
    rw (set_next-write heap x.0 new_task _ there) (write_other heap x.0 j _ (λ e. apart.0 (sym e)))
link_tail-other heap new_task j from x (y ∷ ys) apart (start, (next, there, distinct, rest)) =
    link_tail-other heap new_task j next y ys apart.1 rest

-- The list with a new cell linked behind its last one.
Linked-append :
    (heap : ℕ → Option Task) (new_task client : ℕ) (from : Option ℕ) (x : Cell) (xs : List Cell)
    → heap new_task ≡ some (record { client = client; next = none })
    → All (λ (y : Cell). y.0 ≢ new_task) (x ∷ xs)
    → Linked heap from (x ∷ xs)
    → Linked
        (link_tail heap (last_of (x ∷ xs)) new_task)
        from
        (x ∷ (xs ++ ((new_task, client) ∷ [])))
unfolding link_tail
Linked-append heap new_task client from x [] new apart (start, (next, there, distinct, rest)) =
    rw (set_next-write heap x.0 new_task _ there) (
      start,
      (
        some new_task,
        write_self heap x.0 _,
        ((λ e. apart.0 (sym e)), tt),
        (refl, (none, write_other heap x.0 new_task _ (λ e. apart.0 (sym e)) ∙ new, tt, refl)),
      ),
    )
Linked-append heap new_task client from x (y ∷ ys) new apart
      (start, (next, there, distinct, rest)) =
    (
      start,
      (
        next,
        link_tail-other heap new_task x.0 next y ys distinct rest ∙ there,
        All-snoc (λ (z : Cell). z.0 ≢ x.0) (new_task, client) (λ e. apart.0 (sym e)) (y ∷ ys)
            distinct,
        Linked-append heap new_task client next y ys new apart.1 rest,
      ),
    )

-- The addresses of the list's cells hold a task, so a free address is none of them.
Linked-free :
    (heap : ℕ → Option Task) (at : ℕ) (from : Option ℕ) (xs : List Cell)
    → heap at ≡ none
    → Linked heap from xs
    → All (λ (y : Cell). y.0 ≢ at) xs
Linked-free heap at from [] free v = tt
Linked-free heap at from (x ∷ xs) free (start, (next, there, distinct, rest)) =
    ((λ e. taken (ap heap e ∙ free)), Linked-free heap at next xs free rest)
  where
    taken : heap x.0 ≢ none
    taken e =
        let cell : Task = record { client = x.1; next = next } in
        let h : some cell ≡ none = sym there ∙ e in cc

last_of-append : (x : Cell) (xs : List Cell) (y : Cell) → last_of (x ∷ (xs ++ (y ∷ []))) ≡ some y.0
last_of-append x [] y = refl
last_of-append x (z ∷ zs) y = last_of-append z zs y

first_task-Linked :
    (heap : ℕ → Option Task) (head tail : Option ℕ) (new_task client : ℕ) (x : Cell)
    (xs : List Cell)
    → tail ≡ last_of (x ∷ xs)
    → head ≡ some x.0
    → ((next : Option ℕ) × (link_tail heap (last_of (x ∷ xs)) new_task x.0
          ≡ some (record { client = x.1; next = next }))
        × All (λ (y : Cell). y.0 ≢ x.0) (xs ++ ((new_task, client) ∷ []))
        × Linked
            (link_tail heap (last_of (x ∷ xs)) new_task)
            next
            (xs ++ ((new_task, client) ∷ [])))
    → Linked
        (link_tail heap tail new_task)
        (first_task head new_task)
        (x ∷ (xs ++ ((new_task, client) ∷ [])))
unfolding first_task
first_task-Linked heap head tail new_task client x xs ends start more =
    subst
      (λ t.
        Linked (link_tail heap t new_task) (first_task head new_task)
          (x ∷ (xs ++ ((new_task, client) ∷ []))))
      (sym ends) (rw (start, first_task) refl, more)

-- queue_push, at a free address, onto a queue that stands for a list gives a queue that stands for
-- the list with the client behind it.
pub queue_push-Holds :
    (q : TaskQueue) (xs : List Cell) (new_task client : ℕ)
    → q.heap new_task ≡ none
    → Holds q xs
    → Holds (queue_push new_task client q) (xs ++ ((new_task, client) ∷ []))
unfolding queue_push first_task link_tail
queue_push-Holds q [] new_task client free v = record {
  linked =
      rw (v.linked, v.ends, first_task, link_tail)
        (refl, (none, write_self q.heap new_task _, tt, refl));
  ends = refl;
}
queue_push-Holds q (x ∷ xs) new_task client free v =
    let apart = Linked-free q.heap new_task q.head (x ∷ xs) free v.linked in
    let cell : Option Task = some (record { client = client; next = none }) in
    let longer =
      Linked-append (write q.heap new_task cell) new_task client q.head x xs
        (write_self q.heap new_task cell) apart
        (Linked-write q.heap new_task cell q.head (x ∷ xs) apart v.linked) in
    record {
      linked = first_task-Linked _ q.head q.tail new_task client x xs v.ends v.linked.0 longer.1;
      ends = sym (last_of-append x xs (new_task, client));
    }
