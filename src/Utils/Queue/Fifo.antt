-- ===== src/Utils/Queue/Fifo.antt =====
-- First in, first out, under every schedule of the producers (utils/MPSCQueue.h).
use mysql_connect_pool.Prelude.{
  ℕ, zero, suc, ◌≤◌, ◌<◌, ◌≡◌, ◌≢◌, refl, sym, ap, ◌∙◌, true, Option, none, some, List, [], ◌∷◌,
  ◌++◌, arith, ◌⊎◌, inl, inr, length, take, get_elem?, append-nil, append_assoc,
}
use mysql_connect_pool.Utils.Queue.{
  write, Queue, Action, exchange, link, dequeue, take_from, dequeue_next, step, put_value, run,
}
use mysql_connect_pool.Utils.Queue.Chain.{
  inputs, Link, absent, owed, made, IsChain, eq-or-ne, write_here, write_there, write_true,
  exchange_head-IsChain, to_list, Advances, link-Advances,
}

some-ne-none : {n : ℕ} → some n ≢ none
some-ne-none h = cc

module _ {T : Type 0} where
  get_elem?-some : (xs : List T) (i : ℕ) → i < length xs → (x : T) × (get_elem? xs i ≡ some x)
  get_elem?-some [] i h = ground arith
  get_elem?-some (x ∷ xs) zero h = (x, refl)
  get_elem?-some (x ∷ xs) (suc i) h = get_elem?-some xs i (omega arith)

  take-suc :
      (xs : List T) (i : ℕ) (x : T)
      → get_elem? xs i ≡ some x
      → take i xs ++ (x ∷ []) ≡ take (suc i) xs
  take-suc [] i x h = ground arith
  take-suc (y ∷ xs) zero x h = ground arith
  take-suc (y ∷ xs) (suc i) x h = ap (◌∷◌ y) (take-suc xs i x h)

  take-append : (i : ℕ) (xs ys : List T) → i ≤ length xs → take i (xs ++ ys) ≡ take i xs
  take-append zero xs ys h = refl
  take-append (suc i) [] ys h = ground arith
  take-append (suc i) (x ∷ xs) ys h = ap (◌∷◌ x) (take-append i xs ys (omega arith))

  -- The chain once its first node is deleted.
  dequeued-Link :
      (q : Queue T) (i : ℕ)
      → q.next q.tail ≡ some (suc q.tail)
      → q.tail < q.head
      → Link q i
      → Link
          (record q {
            data_of = write (suc q.tail) none q.data_of;
            tail = suc q.tail;
            deleted = write q.tail true q.deleted;
          })
          i
  dequeued-Link q i e lt (absent h n p) = absent h n p
  dequeued-Link q i e lt (made h n p) = made h n p
  dequeued-Link q i e lt (owed h t n p) =
      owed h
        (elim (eq-or-ne q.tail i) [
          | inl same ↦ absurd (some-ne-none (sym e ∙ ap q.next same ∙ n))
          | inr other ↦ omega arith
        ])
        n p

  -- `dequeue` returns false: all values were taken, or the call that put in the next one has not
  -- linked its node yet.
  abbrev pub IsAtEnd : Queue T → List T → Type 0
  IsAtEnd q xs = (q.tail ≡ length xs) ⊎ (q.prevhead (suc q.tail) ≡ some q.tail)

  -- A `dequeue` that returns true: it takes the next value, and the tail moves on by one node.
  abbrev pub Takes : Queue T → List T → Option (Queue T × Option T) → Type 0
  Takes q xs s =
      (r : Queue T) × (x : T) × (s ≡ some (r, some x))
      × IsChain r xs
      × (r.tail ≡ suc q.tail)
      × (r.head ≡ q.head)
      × (take q.tail xs ++ (x ∷ []) ≡ take (suc q.tail) xs)

  dequeued-freed :
      (q : Queue T) (xs : List T) (i : ℕ)
      → IsChain q xs
      → i < suc q.tail
      → write q.tail true q.deleted i ≡ true
  dequeued-freed q xs i c h = elim (eq-or-ne i q.tail) [
    | inl e ↦ rw e (write_here q.tail true q.deleted)
    | inr e ↦ write_true q.tail i q.deleted (c.freed i (omega arith))
  ]

  take_from-Takes :
      (q : Queue T) (xs : List T)
      → IsChain q xs
      → q.tail < q.head
      → q.next q.tail ≡ some (suc q.tail)
      → Takes q xs (take_from (suc q.tail) (q.data_of (suc q.tail)) q)
  unfolding take_from
  take_from-Takes q xs c lt e =
      let (x, there) = get_elem?-some xs q.tail (omega (arith, c.count)) in
      rw (c.values q.tail (omega arith), there, c.alive (suc q.tail) (omega arith))
        (
          _,
          x,
          refl,
          record {
            fresh_is = c.fresh_is;
            count = c.count;
            behind = lt;
            first = c.first;
            links = λ i. dequeued-Link q i e lt (c.links i);
            values = λ i h.
                write_there (suc q.tail) (suc i) none q.data_of (omega arith)
                ∙ c.values i (omega arith);
            alive =
                λ i h. write_there q.tail i true q.deleted (omega arith) ∙ c.alive i (omega arith);
            freed = λ i h. dequeued-freed q xs i c h;
          },
          refl,
          refl,
          take-suc xs q.tail x there,
        )

  -- A `dequeue` takes the next value; or it returns false, and leaves the queue as it is.
  pub dequeue-cases :
      (q : Queue T) (xs : List T)
      → IsChain q xs
      → Takes q xs (step dequeue q) ⊎ ((step dequeue q ≡ some (q, none)) × IsAtEnd q xs)
  unfolding step dequeue_next
  dequeue-cases q xs c = elim (c.links q.tail) [
    | absent h n _ ↦
        inr (rw (c.alive q.tail (omega arith), n) refl, inl (omega (arith, h, c.behind, c.count)))
    | owed _ _ n p ↦ inr (rw (c.alive q.tail (omega arith), n) refl, inr p)
    | made lt n _ ↦ inl (rw (c.alive q.tail (omega arith), n) (take_from-Takes q xs c lt n))
  ]

  dequeue-Advances :
      (q : Queue T) (xs : List T) → IsChain q xs → Advances q.tail xs xs (step dequeue q)
  dequeue-Advances q xs c = elim (dequeue-cases q xs c) [
    | inl (r, x, e, d, t, _, m) ↦ (r, some x, e, d, rw t m)
    | inr (e, _) ↦ (q, none, e, c, append-nil (take q.tail xs))
  ]

  step-Advances :
      (a : Action T) (q : Queue T) (xs : List T)
      → IsChain q xs
      → Advances q.tail xs (xs ++ inputs (a ∷ [])) (step a q)
  unfolding step
  step-Advances (exchange x) q xs c = (
    _,
    none,
    refl,
    exchange_head-IsChain x q xs c,
    append-nil (take q.tail xs)
        ∙ sym (take-append q.tail xs (x ∷ []) (omega (arith, c.behind, c.count))),
  )
  step-Advances (link n) q xs c = rw (append-nil xs) (link-Advances n q xs c)
  step-Advances dequeue q xs c = rw (append-nil xs) (dequeue-Advances q xs c)

  inputs-cons :
      (a : Action T) (rest : List (Action T)) → inputs (a ∷ rest) ≡ inputs (a ∷ []) ++ inputs rest
  inputs-cons (exchange x) rest = refl
  inputs-cons (link n) rest = refl
  inputs-cons dequeue rest = refl

  put_value-append :
      (o : Option T) (q : Queue T) (vs : List T) → put_value o (q, vs) ≡ (q, to_list o ++ vs)
  put_value-append none q vs = refl
  put_value-append (some x) q vs = refl

  inputs_assoc :
      (a : Action T) (rest : List (Action T)) (xs : List T)
      → xs ++ inputs (a ∷ rest) ≡ (xs ++ inputs (a ∷ [])) ++ inputs rest
  inputs_assoc a rest xs =
      ap (λ ys. xs ++ ys) (inputs-cons a rest)
      ∙ sym (append_assoc xs (inputs (a ∷ [])) (inputs rest))

  run-cons :
      (a : Action T) (rest : List (Action T)) (q q₁ : Queue T) (o : Option T) (r : Queue T)
      (vs : List T)
      → step a q ≡ some (q₁, o)
      → run rest q₁ ≡ some (r, vs)
      → run (a ∷ rest) q ≡ some (r, to_list o ++ vs)
  unfolding run
  run-cons a rest q q₁ o r vs e₁ e = rw (run, e₁, e) (ap some (put_value-append o r vs))

  pub run-IsChain :
      (rest : List (Action T)) (q : Queue T) (xs : List T)
      → IsChain q xs
      → (r : Queue T) × (vs : List T) × (run rest q ≡ some (r, vs))
        × IsChain r (xs ++ inputs rest)
        × (take q.tail xs ++ vs ≡ take r.tail (xs ++ inputs rest))
  unfolding run
  run-IsChain [] q xs c =
      (q, [], refl, rw (append-nil xs) c, append-nil (take q.tail xs) ∙ rw (append-nil xs) refl)
  run-IsChain (a ∷ rest) q xs c =
      let (q₁, o, e₁, c₁, t₁) = step-Advances a q xs c in
      let (r, vs, e, d, t) = run-IsChain rest q₁ (xs ++ inputs (a ∷ [])) c₁ in
      rw (inputs_assoc a rest xs) (
        r,
        to_list o ++ vs,
        run-cons a rest q q₁ o r vs e₁ e,
        d,
        sym (append_assoc (take q.tail xs) (to_list o) vs) ∙ ap (λ ys. ys ++ vs) t₁ ∙ t,
      )

  -- What the consumer can do next: another value is ready, or `dequeue` returns false.
  abbrev pub IsNext : Queue T → List T → Type 0
  IsNext q xs = (q.next q.tail ≡ some (suc q.tail)) ⊎ IsAtEnd q xs

  pub chain-IsNext : (q : Queue T) (xs : List T) → IsChain q xs → IsNext q xs
  chain-IsNext q xs c = elim (c.links q.tail) [
    | absent h n p ↦ inr (inl (omega (arith, h, c.behind, c.count)))
    | owed h t n p ↦ inr (inr p)
    | made h n p ↦ inl n
  ]
