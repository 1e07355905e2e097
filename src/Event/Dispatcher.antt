-- ===== src/Event/Dispatcher.antt =====
-- event/EventDispatcher.cpp: what the callbacks of a descriptor's events are, and which are called.
-- A callback is a value of any type `F`, absent for an empty `std::function`.
pub mod Calls
use mysql_connect_pool.Prelude.{
  ℕ, Bool, true, false, not, ◌&&◌, ◌||◌, Option, none, some, List, [], ◌∷◌, ◌++◌, if◌then◌else◌,
}
use mysql_connect_pool.Event.Mask.{
  Mask, none_event, is_none_event, add_read, drop_read, add_write, drop_write,
}

-- `state_`: kNew, kAdded and kDeleted of poll/EpollPoller.cpp.
pub data PollState : Type 0 where
  fresh added deleted : PollState

pub record Dispatcher (F : Type 0) : Type 0 where
  pub fd : ℕ
  pub events : Mask
  pub real_events : Mask
  pub state : PollState
  pub added_to_loop : Bool
  pub read_callback : Option F
  pub write_callback : Option F
  pub error_callback : Option F
  pub close_callback : Option F
  pub event_callback : Option F
  pub tied : Bool
  -- whether the object behind `tie_` still lives
  pub tie_lives : Bool

module _ {F : Type 0} where
  -- The constructor.
  unfoldable pub make_dispatcher : ℕ → Dispatcher F
  make_dispatcher fd = record {
    fd = fd;
    events = none_event;
    real_events = none_event;
    state = fresh;
    added_to_loop = false;
    read_callback = none;
    write_callback = none;
    error_callback = none;
    close_callback = none;
    event_callback = none;
    tied = false;
    tie_lives = false;
  }

  -- `tie`, to an object that lives
  unfoldable pub tie : Dispatcher F → Dispatcher F
  tie d = record d { tied = true; tie_lives = true }

  -- `if (callback) callback();`
  abbrev pub call_if_set : Option F → List F
  call_if_set none = []
  call_if_set (some f) = f ∷ []

  -- The read and the write test of `handleEventSafely`.
  unfoldable pub read_and_write : Dispatcher F → List F
  read_and_write d =
      let e = d.real_events in
      (if e.pollin || e.pollpri || e.pollrdhup then call_if_set d.read_callback else [])
      ++ (if e.pollout then call_if_set d.write_callback else [])

  -- `handleEventSafely`: the callbacks in the order of their calls.
  unfoldable pub handle_event_safely : Dispatcher F → List F
  unfolding read_and_write
  handle_event_safely d =
      let e = d.real_events in
      elim d.event_callback [
        | some f ↦ f ∷ []
        | none ↦
            if e.pollhup && not e.pollin
            then call_if_set d.close_callback
            else if e.pollnval || e.pollerr
            then call_if_set d.error_callback
            else read_and_write d
      ]

  unfoldable pub handle_event : Dispatcher F → List F
  unfolding handle_event_safely is_none_event
  handle_event d =
      if is_none_event d.events
      then []
      else if d.tied
      then (if d.tie_lives then handle_event_safely d else [])
      else handle_event_safely d

-- The calls that change `events_`, each with `update()` behind it; and `remove`.
pub data Action : Type 0 where
  enable_reading disable_reading enable_writing disable_writing disable_all remove : Action
  update_events : Mask → Action

-- `events_` after the call; `remove` leaves it.
unfoldable pub apply : Action → Mask → Mask
unfolding add_read drop_read add_write drop_write
apply enable_reading e = add_read e
apply disable_reading e = drop_read e
apply enable_writing e = add_write e
apply disable_writing e = drop_write e
apply disable_all e = none_event
apply (update_events m) e = m
apply remove e = e
