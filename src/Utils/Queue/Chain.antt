-- ===== src/Utils/Queue/Chain.antt =====
-- The chain of nodes of an `MPSCQueue` (utils/MPSCQueue.h), and what `enqueue` makes of it.
use mysql_connect_pool.Prelude.{
  ℕ, zero, suc, ◌≤◌, ◌<◌, ◌≡◌, ◌≢◌, refl, sym, ◌∙◌, Bool, true, false, Option, none, some, List, [],
  ◌∷◌, ◌++◌, arith, ◌⊎◌, inl, inr, length, take, get_elem?, append-nil, Option-cases, length-append,
}
use mysql_connect_pool.Utils.Queue.{
  write, Queue, Action, exchange, link, dequeue, make_queue, exchange_head, link_node, no_value,
}

module _ {T : Type 0} where
  -- The values that a schedule puts in, in the order of the exchanges.
  abbrev pub inputs : List (Action T) → List T
  inputs [] = []
  inputs (exchange x ∷ rest) = x ∷ inputs rest
  inputs (link n ∷ rest) = inputs rest
  inputs (dequeue ∷ rest) = inputs rest

  -- The link from node i to the next: not there, for the head and names not used yet; still to be
  -- made by the call that made the next node; or made.
  pub data Link (q : Queue T) (i : ℕ) : Type 0 where
    absent : q.head ≤ i → q.next i ≡ none → q.prevhead (suc i) ≡ none → Link q i
    owed : i < q.head → q.tail ≤ i → q.next i ≡ none → q.prevhead (suc i) ≡ some i → Link q i
    made : i < q.head → q.next i ≡ some (suc i) → q.prevhead (suc i) ≡ none → Link q i

  pub record IsChain (q : Queue T) (xs : List T) : Type 0 where
    pub fresh_is : q.fresh ≡ suc q.head
    pub count : length xs ≡ q.head
    pub behind : q.tail ≤ q.head
    pub first : q.prevhead 0 ≡ none
    pub links : (i : ℕ) → Link q i
    pub values : (i : ℕ) → q.tail ≤ i → q.data_of (suc i) ≡ get_elem? xs i
    pub alive : (i : ℕ) → q.tail ≤ i → q.deleted i ≡ false
    pub freed : (i : ℕ) → i < q.tail → q.deleted i ≡ true

  pub make_queue-IsChain : IsChain make_queue []
  unfolding make_queue
  make_queue-IsChain = record {
    fresh_is = refl;
    count = refl;
    behind = omega arith;
    first = refl;
    links = λ i. absent (omega arith) refl refl;
    values = λ i h. refl;
    alive = λ i h. refl;
    freed = λ i h. ground arith;
  }

pub write_here {ℓ} : {A : Type ℓ} (i : ℕ) (v : A) (f : ℕ → A) → write i v f i ≡ v
unfolding write
write_here i v f = ground arith

pub write_there {ℓ} : {A : Type ℓ} (i j : ℕ) (v : A) (f : ℕ → A) → i ≢ j → write i v f j ≡ f j
unfolding write
write_there i j v f h = ground arith

write_none : (i j : ℕ) (f : ℕ → Option ℕ) → f j ≡ none → write i none f j ≡ none
unfolding write
write_none i j f h = ground arith

pub write_true : (i j : ℕ) (f : ℕ → Bool) → f j ≡ true → write i true f j ≡ true
unfolding write
write_true i j f h = ground arith

pub eq-or-ne : (i j : ℕ) → (i ≡ j) ⊎ (i ≢ j)
eq-or-ne i j = ground arith

get_elem?-append :
    {T : Type 0} (xs : List T) (x : T) (i : ℕ)
    → ((i ≢ length xs) × (get_elem? (xs ++ (x ∷ [])) i ≡ get_elem? xs i))
      ⊎ ((i ≡ length xs) × (get_elem? (xs ++ (x ∷ [])) i ≡ some x))
get_elem?-append [] x zero = inr (refl, refl)
get_elem?-append [] x (suc i) = inl (omega arith, refl)
get_elem?-append (y ∷ xs) x zero = inl (omega arith, refl)
get_elem?-append (y ∷ xs) x (suc i) = elim (get_elem?-append xs x i) [
  | inl (n, e) ↦ inl (omega arith, e)
  | inr (n, e) ↦ inr (omega arith, e)
]

module _ {T : Type 0} where
  exchange_head-Link :
      (x : T) (q : Queue T) (xs : List T) (i : ℕ)
      → IsChain q xs
      → Link q i
      → Link (exchange_head x q) i
  unfolding exchange_head
  exchange_head-Link x q xs i c (absent h n p) = elim (eq-or-ne i q.head) [
    | inl e ↦
        owed (omega (arith, c.fresh_is)) (omega (arith, c.behind))
          (write_there q.fresh i none q.next (omega (arith, c.fresh_is)) ∙ n)
          (rw (c.fresh_is, e) (write_here (suc q.head) (some q.head) q.prevhead))
    | inr e ↦
        absent (omega (arith, c.fresh_is)) (write_none q.fresh i q.next n)
          (write_there q.fresh (suc i) (some q.head) q.prevhead (omega (arith, c.fresh_is)) ∙ p)
  ]
  exchange_head-Link x q xs i c (owed h t n p) =
      owed (omega (arith, c.fresh_is)) t (write_none q.fresh i q.next n)
        (write_there q.fresh (suc i) (some q.head) q.prevhead (omega (arith, c.fresh_is)) ∙ p)
  exchange_head-Link x q xs i c (made h n p) =
      made (omega (arith, c.fresh_is))
        (write_there q.fresh i none q.next (omega (arith, c.fresh_is)) ∙ n)
        (write_there q.fresh (suc i) (some q.head) q.prevhead (omega (arith, c.fresh_is)) ∙ p)

  exchange_head-values :
      (x : T) (q : Queue T) (xs : List T) (i : ℕ)
      → IsChain q xs
      → q.tail ≤ i
      → (exchange_head x q).data_of (suc i) ≡ get_elem? (xs ++ (x ∷ [])) i
  unfolding exchange_head
  exchange_head-values x q xs i c h = elim (get_elem?-append xs x i) [
    | inl (n, e) ↦
        write_there q.fresh (suc i) (some x) q.data_of (omega (arith, c.fresh_is, c.count))
        ∙ c.values i h
        ∙ sym e
    | inr (n, e) ↦ rw (c.fresh_is, n, c.count) (write_here (suc q.head) (some x) q.data_of) ∙ sym e
  ]

  pub exchange_head-IsChain :
      (x : T) (q : Queue T) (xs : List T)
      → IsChain q xs
      → IsChain (exchange_head x q) (xs ++ (x ∷ []))
  unfolding exchange_head
  exchange_head-IsChain x q xs c = record {
    fresh_is = refl;
    count = omega (arith, length-append xs (x ∷ []), c.count, c.fresh_is);
    behind = omega (arith, c.behind, c.fresh_is);
    first = write_there q.fresh 0 (some q.head) q.prevhead (omega (arith, c.fresh_is)) ∙ c.first;
    links = λ i. exchange_head-Link x q xs i c (c.links i);
    values = λ i h. exchange_head-values x q xs i c h;
    alive = c.alive;
    freed = c.freed;
  }

  -- What a step makes of a chain whose first values, up to its tail, were taken out: a chain again,
  -- with the values that it put in, and the value that it took out is the next one.
  abbrev pub to_list : Option T → List T
  to_list none = []
  to_list (some x) = x ∷ []

  abbrev pub Advances : ℕ → List T → List T → Option (Queue T × Option T) → Type 0
  Advances t xs ys r =
      (q : Queue T) × (o : Option T) × (r ≡ some (q, o))
      × IsChain q ys
      × (take t xs ++ to_list o ≡ take q.tail ys)

  linked-Link :
      (q : Queue T) (i j : ℕ)
      → i < q.head
      → Link q j
      → Link
          (record q {
            next = write i (some (suc i)) q.next;
            prevhead = write (suc i) none q.prevhead;
          })
          j
  linked-Link q i j lt l = elim (eq-or-ne i j) [
    | inl e ↦
        rw (sym e)
          (made lt (write_here i (some (suc i)) q.next) (write_here (suc i) none q.prevhead))
    | inr e ↦ elim l [
      | absent h n p ↦
          absent h (write_there i j (some (suc i)) q.next e ∙ n)
            (write_there (suc i) (suc j) none q.prevhead (omega arith) ∙ p)
      | owed h t n p ↦
          owed h t (write_there i j (some (suc i)) q.next e ∙ n)
            (write_there (suc i) (suc j) none q.prevhead (omega arith) ∙ p)
      | made h n p ↦
          made h (write_there i j (some (suc i)) q.next e ∙ n)
            (write_there (suc i) (suc j) none q.prevhead (omega arith) ∙ p)
    ]
  ]

  -- The call that still has to link node n was made by the exchange that followed its old head.
  owed_by :
      (n p : ℕ) (q : Queue T) (xs : List T)
      → IsChain q xs
      → q.prevhead n ≡ some p
      → (n ≡ suc p) × (p < q.head) × (q.tail ≤ p)
  owed_by zero p q xs c h = ground (arith, c.first)
  owed_by (suc i) p q xs c h = elim (c.links i) [
    | absent _ n e ↦ ground arith
    | owed lt t n e ↦ ground arith
    | made _ n e ↦ ground arith
  ]

  pub link-Advances :
      (n : ℕ) (q : Queue T) (xs : List T)
      → IsChain q xs
      → Advances q.tail xs xs (no_value (link_node n (q.prevhead n) q))
  unfolding link_node
  link-Advances n q xs c = elim (Option-cases (q.prevhead n)) [
    | inl e ↦ rw e (q, none, refl, c, append-nil (take q.tail xs))
    | inr (p, e) ↦
        let (is_suc, lt, le) = owed_by n p q xs c e in
        rw (e, c.alive p le, is_suc)
          (
            _,
            none,
            refl,
            record {
              fresh_is = c.fresh_is;
              count = c.count;
              behind = c.behind;
              first = write_there (suc p) 0 none q.prevhead (omega arith) ∙ c.first;
              links = λ j. linked-Link q p j lt (c.links j);
              values = c.values;
              alive = c.alive;
              freed = c.freed;
            },
            append-nil (take q.tail xs),
          )
  ]
