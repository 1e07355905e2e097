-- ===== src/Event/Loop/Threads/Held.antt =====
-- A thread has one event loop at most, and an event loop one thread (event/EventLoop.cpp).
use mysql_connect_pool.Prelude.{
  ℕ, ◌<◌, ltb, ◌≡◌, ◌≢◌, refl, sym, ◌∙◌, Bool, true, false, Option, none, some, List, [], ◌∷◌,
  arith, if◌then◌else◌, ◌⊎◌, inl, inr, Bool-cases, ==_iff, ltb→lt,
}
use mysql_connect_pool.Event.Loop.Threads.{
  Home, Threads, Called, done, fatal, failed, Act, construct, move, loop, quit, stop, finish,
  abandon, set_home, no_threads, is_in_loop_thread, is_running, make_event_loop, take_over,
  move_if_free, move_to_current_thread, enter_loop, finish_loop, act_on, act_all,
}

-- A loop that a thread's variable names is in that thread, and its pointer is to that variable.
abbrev pub IsHeld : Threads → Type 0
IsHeld s =
    (t n : ℕ)
    → s.loop_in_this_thread t ≡ some n
    → ((s.home n).thread_id ≡ t) × ((s.home n).thread_local_loop_ptr ≡ t) × (n < s.made)

abbrev pub StaysHeld : Called → Type 0
StaysHeld (done s) = IsHeld s
StaysHeld fatal = Unit
StaysHeld failed = Unit

make_event_loop-StaysHeld :
    (t : ℕ) (o : Option ℕ) (s : Threads) → IsHeld s → StaysHeld (make_event_loop t o s)
unfolding make_event_loop
make_event_loop-StaysHeld t (some x) s v = tt
make_event_loop-StaysHeld t none s v = λ u n e. ground (arith, v u n)

take_over-IsHeld : (t n : ℕ) (s : Threads) → n < s.made → IsHeld s → IsHeld (take_over t n s)
unfolding take_over
take_over-IsHeld t n s lt v u m e = ground (arith, v u m)

-- A step of `loop` that leaves the loop in its thread.
set_home-IsHeld :
    (n : ℕ) (h : Home) (s : Threads)
    → h.thread_id ≡ (s.home n).thread_id
    → h.thread_local_loop_ptr ≡ (s.home n).thread_local_loop_ptr
    → IsHeld s
    → IsHeld (set_home n h s)
set_home-IsHeld n h s p q v u m e = ground (arith, v u m)

move_if_free-StaysHeld :
    (o : Option ℕ) (t n : ℕ) (s : Threads)
    → n < s.made
    → IsHeld s
    → StaysHeld (move_if_free o t n s)
unfolding move_if_free
move_if_free-StaysHeld none t n s lt v = take_over-IsHeld t n s lt v
move_if_free-StaysHeld (some x) t n s lt v = tt

move-StaysHeld :
    (t n : ℕ) (s : Threads) → n < s.made → IsHeld s → StaysHeld (move_to_current_thread t n s)
unfolding move_to_current_thread
move-StaysHeld t n s lt v = elim (Bool-cases (is_running n s)) [
  | inl r ↦ rw r tt
  | inr r ↦ elim (Bool-cases (is_in_loop_thread t n s)) [
    | inl i ↦ rw (r, i) v
    | inr i ↦ rw (r, i) (move_if_free-StaysHeld (s.loop_in_this_thread t) t n s lt v)
  ]
]

enter_loop-StaysHeld : (t n : ℕ) (s : Threads) → IsHeld s → StaysHeld (enter_loop t n s)
unfolding enter_loop
enter_loop-StaysHeld t n s v = elim (Bool-cases (s.home n).looping) [
  | inl r ↦ rw r tt
  | inr r ↦ elim (Bool-cases (is_in_loop_thread t n s)) [
    | inl i ↦ rw (r, i) (set_home-IsHeld n _ s refl refl v)
    | inr i ↦ rw (r, i) tt
  ]
]

finish_loop-IsHeld : (o : Option ℕ) (n : ℕ) (s : Threads) → IsHeld s → IsHeld (finish_loop o n s)
unfolding finish_loop
finish_loop-IsHeld none n s v = v
finish_loop-IsHeld (some t) n s v = λ u m e. ground (arith, v u m)

either-IsHeld : (b : Bool) (s t : Threads) → IsHeld s → IsHeld t → IsHeld (if b then s else t)
either-IsHeld true s t v w = v
either-IsHeld false s t v w = w

if_made-StaysHeld :
    (n : ℕ) (o : Called) (s : Threads)
    → IsHeld s
    → (n < s.made → StaysHeld o)
    → StaysHeld (if ltb n s.made then o else done s)
if_made-StaysHeld n o s v f = elim (Bool-cases (ltb n s.made)) [
  | inl e ↦ rw e (f (ltb→lt n s.made e))
  | inr e ↦ rw e v
]

act_on-StaysHeld : (a : Act) (s : Threads) → IsHeld s → StaysHeld (act_on a s)
unfolding act_on
act_on-StaysHeld (construct t) s v = make_event_loop-StaysHeld t (s.loop_in_this_thread t) s v
act_on-StaysHeld (move t n) s v = if_made-StaysHeld n _ s v (λ lt. move-StaysHeld t n s lt v)
act_on-StaysHeld (loop t n) s v = if_made-StaysHeld n _ s v (λ lt. enter_loop-StaysHeld t n s v)
act_on-StaysHeld (quit n) s v = set_home-IsHeld n _ s refl refl v
act_on-StaysHeld (stop n) s v =
    either-IsHeld (s.home n).quitting _ s (set_home-IsHeld n _ s refl refl v) v
act_on-StaysHeld (finish n) s v =
    either-IsHeld (s.home n).looping s _ v (finish_loop-IsHeld (s.home n).runner n s v)
act_on-StaysHeld (abandon n) s v = set_home-IsHeld n _ s refl refl v

rest-StaysHeld :
    (o : Called) (f : Threads → Called)
    → StaysHeld o
    → ((s : Threads) → IsHeld s → StaysHeld (f s))
    → StaysHeld (elim o [ done s ↦ f s | fatal ↦ fatal | failed ↦ failed ])
rest-StaysHeld (done s) f v g = g s v
rest-StaysHeld fatal f v g = tt
rest-StaysHeld failed f v g = tt

act_all-StaysHeld : (acts : List Act) (s : Threads) → IsHeld s → StaysHeld (act_all acts s)
unfolding act_all
act_all-StaysHeld [] s v = v
act_all-StaysHeld (a ∷ rest) s v =
    rest-StaysHeld (act_on a s) (act_all rest) (act_on-StaysHeld a s v) (act_all-StaysHeld rest)

-- Whatever the threads did: a loop that the variable of a thread names is in that thread, and no
-- other thread's variable names it.
pub act_all-IsHeld :
    (acts : List Act) (s : Threads) (t n : ℕ)
    → act_all acts no_threads ≡ done s
    → s.loop_in_this_thread t ≡ some n
    → (is_in_loop_thread t n s ≡ true) × ((u : ℕ) → s.loop_in_this_thread u ≡ some n → u ≡ t)
unfolding is_in_loop_thread
act_all-IsHeld acts s t n e w =
    let v : IsHeld s = rw e at (act_all-StaysHeld acts no_threads (λ u m x. cc)) in
    ((==_iff (s.home n).thread_id t).1 (v t n w).0, λ u x. sym (v u n x).0 ∙ (v t n w).0)

held-alone :
    (t n : ℕ) (s : Threads)
    → IsHeld s
    → (s.home n).thread_id ≡ t
    → (u : ℕ) → s.loop_in_this_thread u ≡ some n
    → u ≡ t
held-alone t n s v e u x = sym (v u n x).0 ∙ e

-- What `moveToCurrentThread`, called in the thread `t`, makes of the loop `n`.
abbrev pub IsMoved : ℕ → ℕ → Threads → Called → Type 0
IsMoved t n s fatal =
    (is_running n s ≡ true) ⊎ ((is_in_loop_thread t n s ≡ false) × (s.loop_in_this_thread t ≢ none))
IsMoved t n s (done u) =
    (is_running n s ≡ false)
    × ((is_in_loop_thread t n s ≡ true) ⊎ (s.loop_in_this_thread t ≡ none))
    × (is_in_loop_thread t n u ≡ true)
    × ((is_in_loop_thread t n s ≡ false) → u.loop_in_this_thread t ≡ some n)
    × ((v : ℕ) → u.loop_in_this_thread v ≡ some n → v ≡ t)
IsMoved t n s failed = ⊥

taken :
    (o : Option ℕ) (t n : ℕ) (s : Threads)
    → n < s.made
    → IsHeld s
    → s.loop_in_this_thread t ≡ o
    → is_running n s ≡ false
    → is_in_loop_thread t n s ≡ false
    → IsMoved t n s (move_if_free o t n s)
unfolding move_if_free take_over is_in_loop_thread
taken (some x) t n s lt v w r i = inr (i, λ y. cc)
taken none t n s lt v w r i = (
  r,
  inr w,
  ground arith,
  λ _. ground arith,
  held-alone t n (take_over t n s) (take_over-IsHeld t n s lt v) (ground arith),
)

-- Whatever the threads did before, `moveToCurrentThread` ends the process just if the loop is
-- running, or if it is in another thread and this thread's variable names a loop. Else the loop is
-- in this thread afterwards; this thread's variable names it if the loop was in another thread, and
-- no other thread's variable does.
pub move-IsMoved :
    (acts : List Act) (s : Threads) (t n : ℕ)
    → act_all acts no_threads ≡ done s
    → n < s.made
    → IsMoved t n s (move_to_current_thread t n s)
unfolding move_to_current_thread is_in_loop_thread
move-IsMoved acts s t n e lt =
    let v : IsHeld s = rw e at (act_all-StaysHeld acts no_threads (λ u m x. cc)) in
    elim (Bool-cases (is_running n s)) [
      | inl r ↦ rw r (inl r)
      | inr r ↦ elim (Bool-cases (is_in_loop_thread t n s)) [
        | inl i ↦
            rw (r, i)
              (r, inl i, i, λ x. cc, held-alone t n s v ((==_iff (s.home n).thread_id t).0 i))
        | inr i ↦ rw (r, i) (taken (s.loop_in_this_thread t) t n s lt v refl r i)
      ]
    ]
