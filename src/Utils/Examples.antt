-- ===== src/Utils/Examples.antt =====
-- The theorems on the text helpers, at small texts.
use mysql_connect_pool.Prelude.{
  ℕ, ◌≡◌, refl, Bool, true, false, Option, none, some, List, [], ◌∷◌, ◌++◌, arith, ◌≤◌, length,
  take,
}
use mysql_connect_pool.Utils.Hex.{hex_to_binary_string}
use mysql_connect_pool.Utils.Hex.RoundTrip.{to_hex, hex_to_binary_string-to_hex}
use mysql_connect_pool.Utils.Split.{split_string}
use mysql_connect_pool.Utils.Split.Join.{IsSplitBy, split_string-IsSplit}
use mysql_connect_pool.Utils.Queue.{
  write, Queue, Action, exchange, link, dequeue, make_queue, run, destroy,
}
use mysql_connect_pool.Utils.Queue.Chain.{inputs}
use mysql_connect_pool.Utils.Queue.Fifo.{IsNext}
use mysql_connect_pool.Utils.Queue.Destroy.{Destroyed, run-destroy}

abbrev some_bytes : List ℕ
some_bytes = 0 ∷ 127 ∷ 255 ∷ []

hex_to_binary_string-to_hex_example :
    hex_to_binary_string (to_hex false some_bytes) ≡ some some_bytes
hex_to_binary_string-to_hex_example =
    hex_to_binary_string-to_hex false some_bytes (omega arith, (omega arith, (omega arith, tt)))

-- `a::b`
abbrev two_words : List ℕ
two_words = b'a' ∷ b':' ∷ b':' ∷ b'b' ∷ []

split_string-IsSplit_example :
    IsSplitBy
      (b':' ∷ [])
      two_words
      (split_string two_words (b':' ∷ []) true)
      (split_string two_words (b':' ∷ []) false)
split_string-IsSplit_example = split_string-IsSplit two_words (b':' ∷ [])

-- Two producers; the second links its node first.
abbrev schedule : List (Action ℕ)
schedule = exchange 7 ∷ exchange 8 ∷ link 2 ∷ dequeue ∷ link 1 ∷ dequeue ∷ dequeue ∷ []

run-destroy_example :
    (q : Queue ℕ) × (vs : List ℕ) × (run schedule make_queue ≡ some (q, vs))
    × (vs ≡ take q.tail (inputs schedule))
    × (q.tail ≤ length (inputs schedule))
    × IsNext q (inputs schedule)
    × Destroyed q (inputs schedule) (destroy q)
run-destroy_example = run-destroy schedule

-- A call of `enqueue` that stands between its two steps: the destructor takes out nothing, and
-- deletes the head only.
abbrev leaky : List (Action ℕ)
leaky = exchange 7 ∷ exchange 8 ∷ link 2 ∷ []

abbrev outcome : List ℕ → Option (Queue ℕ × List ℕ) → Option (List ℕ × List Bool)
outcome vs none = none
outcome vs (some (q, ws)) = some (vs ++ ws, q.deleted 0 ∷ q.deleted 1 ∷ q.deleted 2 ∷ [])

abbrev destroy_after : List (Action ℕ) → Option (List ℕ × List Bool)
destroy_after rest = elim (run rest make_queue) [
  | none ↦ none
  | some (q, vs) ↦ outcome vs (destroy q)
]

destroy_after-schedule : destroy_after schedule ≡ some (7 ∷ 8 ∷ [], true ∷ true ∷ true ∷ [])
unfolding run make_queue destroy write
destroy_after-schedule = refl

destroy_after-leaky : destroy_after leaky ≡ some ([], false ∷ false ∷ true ∷ [])
unfolding run make_queue destroy write
destroy_after-leaky = refl
