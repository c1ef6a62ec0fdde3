-- ===== src/Http/TaskQueue.antt =====
-- The task queue of http/server.c, a linked list on the heap. The mutex makes one call one step; a
-- call of queue_pop on an empty queue waits.
pub mod Fifo
pub mod Runs
use caligo_engine.Base.{ℕ, Option, none, some, ◌==◌, if◌then◌else◌}

-- A task holds the address of a client and of the task behind it.
pub record Task : Type 0 where
  pub client : ℕ
  pub next : Option ℕ

pub record TaskQueue : Type 0 where
  pub heap : ℕ → Option Task
  pub head : Option ℕ
  pub tail : Option ℕ

abbrev pub write : (ℕ → Option Task) → ℕ → Option Task → ℕ → Option Task
write heap at task j = if j == at then task else heap j

-- queue_init
unfoldable pub queue_init : (ℕ → Option Task) → TaskQueue
queue_init heap = record { heap = heap; head = none; tail = none }

-- q->tail->next = new_task
unfoldable pub set_next : (ℕ → Option Task) → ℕ → ℕ → ℕ → Option Task
set_next heap at new_task = elim (heap at) [
  | none ↦ heap
  | some task ↦ write heap at (some (record task { next = some new_task }))
]

unfoldable pub link_tail : (ℕ → Option Task) → Option ℕ → ℕ → ℕ → Option Task
link_tail heap none new_task = heap
link_tail heap (some tail) new_task = set_next heap tail new_task

unfoldable pub first_task : Option ℕ → ℕ → Option ℕ
first_task none new_task = some new_task
first_task (some head) new_task = some head

-- queue_push, with the address that malloc returns.
unfoldable pub queue_push : ℕ → ℕ → TaskQueue → TaskQueue
queue_push new_task client q = record {
  heap =
      link_tail (write q.heap new_task (some (record { client = client; next = none }))) q.tail
        new_task;
  head = first_task q.head new_task;
  tail = some new_task;
}

pub data Popped : Type 0 where
  waits dangling : Popped
  gives : ℕ → TaskQueue → Popped

unfoldable pub rest_tail : Option ℕ → Option ℕ → Option ℕ
rest_tail none tail = none
rest_tail (some head) tail = tail

unfoldable pub queue_pop : TaskQueue → Popped
queue_pop q = elim q.head [
  | none ↦ waits
  | some at ↦ elim (q.heap at) [
    | none ↦ dangling
    | some task ↦ gives task.client (record {
      heap = write q.heap at none;
      head = task.next;
      tail = rest_tail task.next q.tail;
    })
  ]
]
