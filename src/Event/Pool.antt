-- ===== src/Event/Pool.antt =====
-- event/EventLoopThreadPool.cpp: the choice of a loop. A pool is the list of its threads' loops, of
-- any type, and its counter, a `size_t`.
pub mod Rounds
use mysql_connect_pool.Prelude.{
  ℕ, zero, suc, ◌+◌, ◌%◌, ◌^◌, Option, none, some, List, [], ◌∷◌, ltb, if◌then◌else◌, length,
  get_elem?,
}

pub record Pool (L : Type 0) : Type 0 where
  pub loops : List L
  pub loop_index : ℕ

abbrev pub size_mod : ℕ
size_mod = 2 ^ 64

module _ {L : Type 0} where
  -- The constructor.
  unfoldable pub make_pool : List L → Pool L
  make_pool loops = record { loops = loops; loop_index = 0 }

  -- `getNextLoop`; `none` is `nullptr`.
  unfoldable pub get_next_loop : Pool L → Option L × Pool L
  get_next_loop p =
      if ltb 0 (length p.loops)
      then (
        get_elem? p.loops (p.loop_index % length p.loops),
        record p { loop_index = (p.loop_index + 1) % size_mod },
      )
      else (none, p)

  unfoldable pub get_loop : ℕ → Pool L → Option L
  get_loop i p = if ltb i (length p.loops) then get_elem? p.loops i else none

  -- What several calls of `getNextLoop` return.
  unfoldable pub next_loops : ℕ → Pool L → List (Option L) × Pool L
  unfolding get_next_loop
  next_loops zero p = ([], p)
  next_loops (suc n) p =
      let (first, q) = get_next_loop p in let (others, r) = next_loops n q in (first ∷ others, r)
