-- ===== src/Utils/Queue/Destroy.antt =====
-- The destructor of `MPSCQueue` (utils/MPSCQueue.h).
use mysql_connect_pool.Prelude.{
  ℕ, zero, suc, ◌≤◌, ◌<◌, ◌+◌, ◌≡◌, refl, sym, ap, ◌∙◌, Bool, true, Option, some, List, [], ◌∷◌,
  ◌++◌, arith, ◌⊎◌, inl, inr, length, take, append-nil, append_assoc, ltb, ◌==◌, if◌then◌else◌,
}
use mysql_connect_pool.Utils.Queue.{
  write, Queue, Action, dequeue, make_queue, step, run, drain, delete_head, destroy,
}
use mysql_connect_pool.Utils.Queue.Chain.{inputs, IsChain, make_queue-IsChain}
use mysql_connect_pool.Utils.Queue.Fifo.{IsAtEnd, IsNext, dequeue-cases, run-IsChain, chain-IsNext}

le-or-lt : (m n : ℕ) → (m ≤ n) ⊎ (n < m)
le-or-lt m n = ground arith

module _ {T : Type 0} where
  -- What the loop leaves of a chain: a chain whose next link is not there, and the values up to it.
  abbrev Drained : Queue T → List T → Option (Queue T × List T) → Type 0
  Drained q xs s =
      (r : Queue T) × (ws : List T) × (s ≡ some (r, ws))
      × IsChain r xs
      × (take q.tail xs ++ ws ≡ take r.tail xs)
      × IsAtEnd r xs

  not-below : (q : Queue T) (xs : List T) → IsChain q xs → ¬ (q.head < 0 + q.tail)
  not-below q xs c = omega (arith, c.behind)

  drain-more :
      (fuel : ℕ) (q r : Queue T) (x : T) (s : Queue T) (ws : List T)
      → step dequeue q ≡ some (r, some x)
      → drain fuel r ≡ some (s, ws)
      → drain (suc fuel) q ≡ some (s, x ∷ ws)
  unfolding drain
  drain-more fuel q r x s ws e d = rw (drain, e, d) refl

  drain-Drained :
      (fuel : ℕ) (q : Queue T) (xs : List T)
      → IsChain q xs
      → q.head < fuel + q.tail
      → Drained q xs (drain fuel q)
  unfolding drain
  drain-Drained zero q xs c h = absurd (not-below q xs c h)
  drain-Drained (suc fuel) q xs c h = elim (dequeue-cases q xs c) [
    | inr (e, s) ↦ rw (drain, e) (q, [], refl, c, append-nil (take q.tail xs), s)
    | inl (r, x, e, d, t, hd, m) ↦
        let (s, ws, run_on, f, took, stop) = drain-Drained fuel r xs d (omega (arith, t, hd)) in
        (
          s,
          x ∷ ws,
          drain-more fuel q r x s ws e run_on,
          f,
          sym (append_assoc (take q.tail xs) (x ∷ []) ws)
              ∙ ap (λ ys. ys ++ ws) (m ∙ rw t refl)
              ∙ took,
          stop,
        )
  ]

  -- The nodes that the destructor leaves deleted: those before the tail, and the head.
  abbrev is_gone : Queue T → ℕ → Bool
  is_gone q i = if q.head == i then true else ltb i q.tail

  -- What the destructor makes of a chain whose first values, up to its tail, were taken out.
  abbrev pub Destroyed : Queue T → List T → Option (Queue T × List T) → Type 0
  Destroyed q xs s =
      (r : Queue T) × (ws : List T) × (s ≡ some (r, ws))
      × (take q.tail xs ++ ws ≡ take r.tail xs)
      × IsAtEnd r xs
      × ((i : ℕ) → r.deleted i ≡ is_gone r i)

  deleted-is_gone :
      (q : Queue T) (xs : List T) (i : ℕ)
      → IsChain q xs
      → write q.head true q.deleted i ≡ is_gone q i
  unfolding write
  deleted-is_gone q xs i c = elim (le-or-lt q.tail i) [
    | inl h ↦ rw (c.alive i h) (ground arith)
    | inr h ↦ rw (c.freed i h) (ground arith)
  ]

  destroy-drain : (q : Queue T) (xs : List T) → IsChain q xs → Destroyed q xs (destroy q)
  unfolding destroy delete_head
  destroy-drain q xs c =
      let (r, ws, e, d, took, stop) = drain-Drained q.fresh q xs c (omega (arith, c.fresh_is)) in
      rw (e, d.alive r.head d.behind) (_, ws, refl, took, stop, λ i. deleted-is_gone r xs i d)

  -- Under every schedule of the producers' two steps and of `dequeue`, from an empty queue, no
  -- deleted node is used; the values taken out are the first ones of those put in, in the order of
  -- the exchanges, as many as the tail has moved on; and a value that is left is ready, or waits for
  -- the call that put in the next value to link its node. Destroyed then, the queue uses no deleted
  -- node and deletes none twice; its loop takes out the values that follow, and ends when all were
  -- taken or where a call still has to link its node; and the nodes deleted in the end are the head
  -- and those before the tail.
  pub run-destroy :
      (rest : List (Action T))
      → (q : Queue T) × (vs : List T) × (run rest make_queue ≡ some (q, vs))
        × (vs ≡ take q.tail (inputs rest))
        × (q.tail ≤ length (inputs rest))
        × IsNext q (inputs rest)
        × Destroyed q (inputs rest) (destroy q)
  unfolding make_queue
  run-destroy rest =
      let (q, vs, e, c, t) = run-IsChain rest make_queue [] make_queue-IsChain in
      (
        q,
        vs,
        e,
        t,
        omega (arith, c.behind, c.count),
        chain-IsNext q (inputs rest) c,
        destroy-drain q (inputs rest) c,
      )
