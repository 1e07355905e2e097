-- ===== src/Utils/Queue.antt =====
-- `MPSCQueue` (utils/MPSCQueue.h), whose producers run at the same time as its consumer. A node is
-- named by a number that no node had before. A call of `enqueue` is known by its node: it exchanges
-- the head, and later links the old head to the node.
pub mod Chain
pub mod Fifo
pub mod Destroy
use mysql_connect_pool.Prelude.{
  ℕ, zero, suc, Bool, true, false, Option, none, some, List, [], ◌∷◌, ◌==◌, if◌then◌else◌,
}

-- A store: `write i v f` is `f` with `v` at `i`.
unfoldable pub write {ℓ} : {A : Type ℓ} → ℕ → A → (ℕ → A) → ℕ → A
write i v f j = if i == j then v else f j

pub record Queue (T : Type 0) : Type 0 where
  -- of each node: `next_`, what `dataPtr_` points to, and whether it was deleted
  pub next : ℕ → Option ℕ
  pub data_of : ℕ → Option T
  pub deleted : ℕ → Bool
  pub head : ℕ
  pub tail : ℕ
  -- the name of the node that `new` returns next
  pub fresh : ℕ
  -- `prevhead` of the call that made a node, until the call has linked it
  pub prevhead : ℕ → Option ℕ

-- The steps of the threads: the first half of a call of `enqueue`, its second half by the node that
-- it made, and `dequeue` of the one consumer.
pub data Action (T : Type 0) : Type 0 where
  exchange : T → Action T
  link : ℕ → Action T
  dequeue : Action T

module _ {T : Type 0} where
  -- The constructor: one node, which holds no data.
  unfoldable pub make_queue : Queue T
  make_queue = record {
    next = λ i. none;
    data_of = λ i. none;
    deleted = λ i. false;
    head = 0;
    tail = 0;
    fresh = 1;
    prevhead = λ i. none;
  }

  -- `new BufferNode(output)` and `head_.exchange(newNode)`
  unfoldable pub exchange_head : T → Queue T → Queue T
  exchange_head x q = record q {
    next = write q.fresh none q.next;
    data_of = write q.fresh (some x) q.data_of;
    head = q.fresh;
    fresh = suc q.fresh;
    prevhead = write q.fresh (some q.head) q.prevhead;
  }

  -- `prevhead->next_.store(newNode)`; `none` is a write to a deleted node. A node with no call that
  -- has still to link it leaves all as it is.
  unfoldable pub link_node : ℕ → Option ℕ → Queue T → Option (Queue T)
  link_node n none q = some q
  link_node n (some p) q =
      if q.deleted p
      then none
      else some (record q { next = write p (some n) q.next; prevhead = write n none q.prevhead })

  -- `dequeue` behind its test: `none` is a use of deleted memory.
  unfoldable pub take_from : ℕ → Option T → Queue T → Option (Queue T × Option T)
  take_from n none q = none
  take_from n (some x) q =
      if q.deleted n
      then none
      else some (
        record q {
          data_of = write n none q.data_of;
          tail = n;
          deleted = write q.tail true q.deleted;
        },
        some x,
      )

  unfoldable pub dequeue_next : Option ℕ → Queue T → Option (Queue T × Option T)
  unfolding take_from
  dequeue_next none q = some (q, none)
  dequeue_next (some n) q = take_from n (q.data_of n) q

  -- No value: the linking of a node, or a `dequeue` that returns false.
  abbrev pub no_value : Option (Queue T) → Option (Queue T × Option T)
  no_value none = none
  no_value (some q) = some (q, none)

  unfoldable pub step : Action T → Queue T → Option (Queue T × Option T)
  unfolding exchange_head link_node dequeue_next
  step (exchange x) q = some (exchange_head x q, none)
  step (link n) q = no_value (link_node n (q.prevhead n) q)
  step dequeue q = if q.deleted q.tail then none else dequeue_next (q.next q.tail) q

  abbrev pub put_value : Option T → Queue T × List T → Queue T × List T
  put_value none (q, xs) = (q, xs)
  put_value (some x) (q, xs) = (q, x ∷ xs)

  abbrev pub put_first : Option T → Option (Queue T × List T) → Option (Queue T × List T)
  put_first o none = none
  put_first o (some r) = some (put_value o r)

  -- A schedule, and the values that its calls of `dequeue` return, in order.
  unfoldable pub run : List (Action T) → Queue T → Option (Queue T × List T)
  unfolding step
  run [] q = some (q, [])
  run (a ∷ rest) q = elim (step a q) [ none ↦ none | some r ↦ put_first r.1 (run rest r.0) ]

  -- The loop of the destructor, on fuel: `none` is a use of deleted memory, or too little fuel.
  unfoldable pub drain : ℕ → Queue T → Option (Queue T × List T)
  unfolding step
  drain zero q = none
  drain (suc fuel) q = elim (step dequeue q) [
    | none ↦ none
    | some (r, none) ↦ some (r, [])
    | some (r, some x) ↦ put_first (some x) (drain fuel r)
  ]

  -- `delete front`: `none` is a node that was deleted before.
  unfoldable pub delete_head : Option (Queue T × List T) → Option (Queue T × List T)
  delete_head none = none
  delete_head (some (q, xs)) =
      if q.deleted q.head
      then none
      else some (record q { deleted = write q.head true q.deleted }, xs)

  -- The destructor, with the values that its loop takes out. As many turns as there are names of
  -- nodes are enough, since a turn that goes on moves the tail to a later node.
  unfoldable pub destroy : Queue T → Option (Queue T × List T)
  unfolding drain delete_head
  destroy q = delete_head (drain q.fresh q)
