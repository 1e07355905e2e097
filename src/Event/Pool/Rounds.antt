-- ===== src/Event/Pool/Rounds.antt =====
-- The loops of a pool take turns (event/EventLoopThreadPool.cpp).
use mysql_connect_pool.Prelude.{
  ℕ, suc, ◌+◌, ◌*◌, ◌%◌, ◌<◌, ◌≡◌, refl, sym, ap, ◌∙◌, some, List, [], ◌∷◌, ◌++◌, arith, length,
  get_elem?, map, length-append, append_assoc, append-nil, true, ltb,
}
use native.Mathlib.Nat.{mod-eq_of_lt, mul-add-mod_self_right}
use mysql_connect_pool.Event.Pool.{Pool, size_mod, get_next_loop, next_loops}

get_elem?-middle :
    {L : Type 0} (xs ys : List L) (y : L) → get_elem? (xs ++ (y ∷ ys)) (length xs) ≡ some y
get_elem?-middle [] ys y = refl
get_elem?-middle (x ∷ xs) ys y = get_elem?-middle xs ys y

module _ {L : Type 0} where
  -- The next loop, in the middle of a round.
  get_next_loop-middle :
      (k : ℕ) (xs ys : List L) (y : L) (p : Pool L)
      → p.loops ≡ xs ++ (y ∷ ys)
      → p.loop_index ≡ k * length p.loops + length xs
      → k * length p.loops + length p.loops < size_mod
      → get_next_loop p ≡ (some y, record p { loop_index = suc p.loop_index })
  unfolding get_next_loop
  get_next_loop-middle k xs ys y p e i lt =
      let n : length p.loops ≡ length xs + suc (length ys) =
        ap length e ∙ length-append xs (y ∷ ys) in
      let place : p.loop_index % length p.loops ≡ length xs =
        ap (λ m. m % length p.loops) i
        ∙ mul-add-mod_self_right k (length p.loops) (length xs)
        ∙ mod-eq_of_lt (omega (arith, n)) in
      let found : get_elem? p.loops (length xs) ≡ some y =
        ap (λ ls. get_elem? ls (length xs)) e ∙ get_elem?-middle xs ys y in
      let positive : ltb 0 (length p.loops) ≡ true = ground (arith, n) in
      let following : (p.loop_index + 1) % size_mod ≡ suc p.loop_index =
        mod-eq_of_lt (omega (arith, n, i, lt)) ∙ omega arith in
      rw (positive, place, found, following) refl

  next_loops-middle :
      (k : ℕ) (xs ys : List L) (p : Pool L)
      → p.loops ≡ xs ++ ys
      → p.loop_index ≡ k * length p.loops + length xs
      → k * length p.loops + length p.loops < size_mod
      → next_loops (length ys) p
        ≡ (map some ys, record p { loop_index = k * length p.loops + length p.loops })
  unfolding next_loops
  next_loops-middle k xs [] p e i lt =
      let all : length p.loops ≡ length xs = ap length (e ∙ append-nil xs) in
      ap (λ j. ([], record p { loop_index = j })) (i ∙ omega (arith, all))
  next_loops-middle k xs (y ∷ ys) p e i lt = rw (get_next_loop-middle k xs ys y p e i lt) (
      rw
        (next_loops-middle k (xs ++ (y ∷ [])) ys (record p { loop_index = suc p.loop_index })
          (e ∙ sym (append_assoc xs (y ∷ []) ys)) (omega (arith, i, length-append xs (y ∷ []))) lt)
        refl)

  -- From a counter that is a multiple of the pool's size, as many calls of `getNextLoop` as there are
  -- loops return each loop once, in their order, and leave the counter at the next multiple; for
  -- counters that stay below 2^64, and a pool whose threads each have a loop.
  pub next_loops-map :
      (k : ℕ) (p : Pool L)
      → p.loop_index ≡ k * length p.loops
      → k * length p.loops + length p.loops < size_mod
      → next_loops (length p.loops) p
        ≡ (map some p.loops, record p { loop_index = k * length p.loops + length p.loops })
  next_loops-map k p i lt = next_loops-middle k [] p.loops p refl (i ∙ omega arith) lt
