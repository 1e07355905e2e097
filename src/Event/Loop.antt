-- ===== src/Event/Loop.antt =====
-- event/EventLoop.cpp: the functions that are queued in a loop, its wake-ups and its end. The loop's
-- own thread and the others take turns in any order; `funcs_` and `funcsOnQuit_` are the lists of
-- what is in them. A queued function is a value of any type `F`. Here it returns; what
-- its exception does is in Event/Loop/Throws.
pub mod Fit
pub mod Threads
pub mod Throws
pub mod Wakeup
use mysql_connect_pool.Prelude.{
  ℕ, zero, suc, Bool, true, false, not, ◌||◌, Option, none, some, List, [], ◌∷◌, ◌++◌,
  if◌then◌else◌,
}

-- Where the loop's thread is: outside of `loop`, at the test of `quit_`, in `poll`, in
-- `doRunInLoopFuncs`, or in the loop over `funcsOnQuit_`.
pub data Place : Type 0 where
  outside checking polling calling leaving : Place

unfoldable pub same_place : Place → Place → Bool
same_place outside outside = true
same_place checking checking = true
same_place polling polling = true
same_place calling calling = true
same_place leaving leaving = true
same_place _ _ = false

pub record Loop (F : Type 0) : Type 0 where
  pub looping : Bool
  pub quitting : Bool
  pub calling_funcs : Bool
  pub funcs : List F
  pub funcs_on_quit : List F
  -- the counter of the eventfd, and how many threads are between their `enqueue`, or their store to
  -- `quit_`, and their `wakeup`
  pub wakeups : ℕ
  pub waking : ℕ
  pub place : Place
  -- the functions that ran in `doRunInLoopFuncs`, and all that were put into `funcs_`, in order
  pub ran : List F
  pub queued : List F

-- What a thread calls.
pub data Call (F : Type 0) : Type 0 where
  queue : Option F → Call F
  run_on_quit : F → Call F
  quit : Call F

-- A turn: a call by another thread; its `wakeup`; a call by the loop's thread outside of `loop`; the
-- start of `loop`; the test of `quit_`; the end of `poll`, with whether the eventfd is among its events and
-- what the dispatchers' callbacks call; one function of the queue, or the end of the queue; one function on quit, or the end.
pub data Turn (F : Type 0) : Type 0 where
  call_elsewhere call_outside : Call F → Turn F
  wake start check run_func leave : Turn F
  poll_returns : Bool → List (Call F) → Turn F

module _ {F : Type 0} where
  unfoldable pub make_loop : Loop F
  make_loop = record {
    looping = false;
    quitting = false;
    calling_funcs = false;
    funcs = [];
    funcs_on_quit = [];
    wakeups = 0;
    waking = 0;
    place = outside;
    ran = [];
    queued = [];
  }

  -- `wakeup`
  abbrev pub wakeup : Loop F → Loop F
  wakeup l = record l { wakeups = suc l.wakeups }

  -- The call of `wakeup` that another thread has still to make.
  abbrev pub owe_wakeup : Loop F → Loop F
  owe_wakeup l = record l { waking = suc l.waking }

  -- `wakeup` by a thread that owes it, if there is one.
  unfoldable pub pay_wakeup : ℕ → Loop F → Loop F
  pay_wakeup zero l = l
  pay_wakeup (suc n) l = wakeup (record l { waking = n })

  abbrev pub wake_up : Bool → Loop F → Loop F
  wake_up in_thread l = if in_thread then wakeup l else owe_wakeup l

  unfoldable pub queue_in_loop : Bool → Option F → Loop F → Loop F
  queue_in_loop in_thread none l = l
  queue_in_loop in_thread (some f) l =
      let m = record l { funcs = l.funcs ++ (f ∷ []); queued = l.queued ++ (f ∷ []) } in
      if not in_thread || not l.looping then wake_up in_thread m else m

  unfoldable pub quit_loop : Bool → Loop F → Loop F
  quit_loop in_thread l =
      let m = record l { quitting = true } in if not in_thread then wake_up in_thread m else m

  -- A call, by the loop's thread or by another.
  unfoldable pub perform : Bool → Call F → Loop F → Loop F
  unfolding queue_in_loop quit_loop
  perform in_thread (queue cb) l = queue_in_loop in_thread cb l
  perform in_thread (run_on_quit f) l = record l { funcs_on_quit = l.funcs_on_quit ++ (f ∷ []) }
  perform in_thread quit l = quit_loop in_thread l

  unfoldable pub perform_all : List (Call F) → Loop F → Loop F
  unfolding perform
  perform_all [] l = l
  perform_all (c ∷ cs) l = perform_all cs (perform true c l)

  -- `loop`, up to the first test of `quit_`; `none` is a failed assertion.
  unfoldable pub start_loop : Loop F → Option (Loop F)
  start_loop l =
      if l.looping
      then none
      else some (record l { looping = true; quitting = false; place = checking })

  -- `while (!quit_)`, and behind it the end of the scope that clears `looping_`.
  unfoldable pub check_quit : Loop F → Loop F
  check_quit l =
      if l.quitting
      then record l { looping = false; place = leaving }
      else record l { place = polling }

  -- `wakeupRead`, if the eventfd is among the events: the read takes the counter to zero.
  abbrev pub wakeup_read : Bool → Loop F → Loop F
  wakeup_read true l = record l { wakeups = 0 }
  wakeup_read false l = l

  -- What each function calls when it runs is an argument.
  module _ (effects : F → List (Call F)) where
    unfoldable pub run_next : List F → Loop F → Loop F
    unfolding perform_all
    run_next [] l = record l { calling_funcs = false; place = checking }
    run_next (f ∷ fs) l = perform_all (effects f) (record l { funcs = fs; ran = l.ran ++ (f ∷ []) })

    unfoldable pub run_on_quit_next : List F → Loop F → Loop F
    unfolding perform_all
    run_on_quit_next [] l = record l { place = outside }
    run_on_quit_next (f ∷ fs) l = perform_all (effects f) (record l { funcs_on_quit = fs })

    -- A turn; one that cannot come at this place changes nothing.
    unfoldable pub step : Turn F → Loop F → Option (Loop F)
    unfolding perform perform_all start_loop check_quit run_next run_on_quit_next same_place
        pay_wakeup
    step (call_elsewhere c) l = some (perform false c l)
    step wake l = some (pay_wakeup l.waking l)
    step (call_outside c) l = if same_place outside l.place then some (perform true c l) else some l
    step start l = if same_place outside l.place then start_loop l else some l
    step check l = if same_place checking l.place then some (check_quit l) else some l
    step (poll_returns read cs) l =
        if same_place polling l.place
        then some
            (record (perform_all cs (wakeup_read read l)) { calling_funcs = true; place = calling })
        else some l
    step run_func l = if same_place calling l.place then some (run_next l.funcs l) else some l
    step leave l =
        if same_place leaving l.place then some (run_on_quit_next l.funcs_on_quit l) else some l

    unfoldable pub run : List (Turn F) → Loop F → Option (Loop F)
    unfolding step
    run [] l = some l
    run (t ∷ ts) l = elim (step t l) [ none ↦ none | some m ↦ run ts m ]
