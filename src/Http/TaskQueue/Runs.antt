-- ===== src/Http/TaskQueue/Runs.antt =====
-- A run of calls of the queue against a first-in first-out list of clients.
use caligo_engine.Base.{ℕ, ◌≡◌, refl, ap, subst, ◌∙◌, Option, none, List, [], ◌∷◌, ◌++◌, map}
use caligo_engine.Http.TaskQueue.{
  Task, TaskQueue, queue_init, queue_push, Popped, waits, dangling, gives, queue_pop,
}
use caligo_engine.Http.TaskQueue.Fifo.{Cell, Holds, queue_push-Holds, queue_pop-Holds}

-- A call of queue_push, with the address that malloc returns and the client, and one of queue_pop.
pub data Call : Type 0 where
  pushes : ℕ → ℕ → Call
  pops : Call

-- What a call of queue_pop answers: it waits, it meets a task that is not there, or it gives a client.
pub data Answer : Type 0 where
  waiting broken : Answer
  client : ℕ → Answer

unfoldable pub after_pop : (TaskQueue → List Answer) → TaskQueue → Popped → List Answer
after_pop rest q waits = waiting ∷ rest q
after_pop rest q dangling = broken ∷ rest q
after_pop rest q (gives c q') = client c ∷ rest q'

-- The answers to the calls of queue_pop in a run.
unfoldable pub answers : List Call → TaskQueue → List Answer
answers [] q = []
answers (pushes new_task c ∷ calls) q = answers calls (queue_push new_task c q)
answers (pops ∷ calls) q = after_pop (answers calls) q (queue_pop q)

-- The same of a list of clients.
unfoldable pub list_answers : List Call → List ℕ → List Answer
list_answers [] clients = []
list_answers (pushes new_task c ∷ calls) clients = list_answers calls (clients ++ c ∷ [])
list_answers (pops ∷ calls) [] = waiting ∷ list_answers calls []
list_answers (pops ∷ calls) (c ∷ clients) = client c ∷ list_answers calls clients

abbrev pub queue_after : TaskQueue → Popped → TaskQueue
queue_after q waits = q
queue_after q dangling = q
queue_after q (gives c q') = q'

-- malloc returns an address that is free.
abbrev pub AreFree : List Call → TaskQueue → Type 0
AreFree [] q = Unit
AreFree (pushes new_task c ∷ calls) q =
    (q.heap new_task ≡ none) × AreFree calls (queue_push new_task c q)
AreFree (pops ∷ calls) q = AreFree calls (queue_after q (queue_pop q))

clients-append :
    (xs : List Cell) (x : Cell)
    → map (λ (y : Cell). y.1) (xs ++ x ∷ []) ≡ map (λ (y : Cell). y.1) xs ++ x.1 ∷ []
clients-append [] x = refl
clients-append (y ∷ xs) x = ap (λ l. y.1 ∷ l) (clients-append xs x)

queue_pop-empty : (q : TaskQueue) → Holds q [] → queue_pop q ≡ waits
unfolding queue_pop
queue_pop-empty q v = rw (v.linked, queue_pop) refl

pub answers-list_answers :
    (calls : List Call) (q : TaskQueue) (xs : List Cell)
    → Holds q xs
    → AreFree calls q
    → answers calls q ≡ list_answers calls (map (λ (y : Cell). y.1) xs)
unfolding answers list_answers after_pop
answers-list_answers [] q xs v free = refl
answers-list_answers (pushes new_task c ∷ calls) q xs v free =
    answers-list_answers calls (queue_push new_task c q) (xs ++ (new_task, c) ∷ [])
      (queue_push-Holds q xs new_task c free.0 v) free.1
    ∙ ap (list_answers calls) (clients-append xs (new_task, c))
answers-list_answers (pops ∷ calls) q [] v free =
    let e = queue_pop-empty q v in
    ap (after_pop (answers calls) q) e
    ∙ ap (λ l. waiting ∷ l)
        (answers-list_answers calls q [] v (subst (λ p. AreFree calls (queue_after q p)) e free))
answers-list_answers (pops ∷ calls) q (x ∷ xs) v free =
    let (q', e, v') = queue_pop-Holds q x xs v in
    ap (after_pop (answers calls) q) e
    ∙ ap (λ l. client x.1 ∷ l)
        (answers-list_answers calls q' xs v' (subst (λ p. AreFree calls (queue_after q p)) e free))

-- Any run of calls on a queue that was just made, where malloc returns free addresses, is answered as by
-- a list of clients to whose end a push puts one and from whose start a pop takes one: no client is
-- lost, doubled or overtaken, and no task that is not there is met.
pub answers-fifo :
    (calls : List Call) (heap : ℕ → Option Task)
    → AreFree calls (queue_init heap)
    → answers calls (queue_init heap) ≡ list_answers calls []
unfolding queue_init
answers-fifo calls heap free =
    answers-list_answers calls (queue_init heap) [] (record { linked = refl; ends = refl }) free
