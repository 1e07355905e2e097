-- ===== src/Event/Poller.antt =====
-- poll/EpollPoller.cpp: the registration of a dispatcher with epoll. The kernel is an argument.
pub mod Sync
use mysql_connect_pool.Prelude.{
  ℕ, ◌*◌, Bool, true, false, not, ◌&&◌, ◌||◌, Option, none, some, List, [], ◌∷◌, ◌==◌,
  if◌then◌else◌, length, leb, map,
}
use mysql_connect_pool.Event.Mask.{Mask, is_none_event}
use mysql_connect_pool.Event.Dispatcher.{
  Dispatcher, PollState, fresh, added, deleted, Action, apply, remove,
}

-- EPOLL_CTL_ADD, EPOLL_CTL_MOD, EPOLL_CTL_DEL
pub data Operation : Type 0 where
  ctl_add ctl_mod ctl_del : Operation

-- `epoll_ctl`: whether it succeeds, and the epoll set after it; and what the set holds for a
-- descriptor.
pub record Kernel : Type 1 where
  pub Set : Type 0
  pub epoll_ctl : Operation → ℕ → Mask → Set → Bool × Set
  pub interest : Set → ℕ → Option Mask

-- A dispatcher, the kernel's set, and how many calls of `epoll_ctl` have failed, which are only
-- logged.
pub record Registered (k : Kernel) (F : Type 0) : Type 0 where
  pub dispatcher : Dispatcher F
  pub set : k.Set
  pub failures : ℕ

module _ {k : Kernel} {F : Type 0} where
  -- `updateEventDispatcher`
  unfoldable pub update_event_dispatcher : Operation → Registered k F → Registered k F
  update_event_dispatcher op r =
      let (success, set) = k.epoll_ctl op r.dispatcher.fd r.dispatcher.events r.set in
      record r { set = set; failures = if success then r.failures else ℕ.suc r.failures }

  abbrev pub set_state : PollState → Registered k F → Registered k F
  set_state s r = record r { dispatcher = record (r.dispatcher) { state = s } }

  -- `registerEventDispatcher`
  unfoldable pub register_event_dispatcher : Registered k F → Registered k F
  unfolding update_event_dispatcher is_none_event
  register_event_dispatcher r = elim r.dispatcher.state [
    | added ↦
        if is_none_event r.dispatcher.events
        then set_state deleted (update_event_dispatcher ctl_del r)
        else update_event_dispatcher ctl_mod r
    | _ ↦ update_event_dispatcher ctl_add (set_state added r)
  ]

  -- `removeEventDispatcher`; `none` is a failed assertion.
  unfoldable pub remove_event_dispatcher : Registered k F → Option (Registered k F)
  unfolding update_event_dispatcher is_none_event
  remove_event_dispatcher r =
      if is_none_event r.dispatcher.events
      then (elim r.dispatcher.state [
        | fresh ↦ none
        | added ↦ some (set_state fresh (update_event_dispatcher ctl_del r))
        | deleted ↦ some (set_state fresh r)
      ])
      else none

  -- A call of a dispatcher's member, in the loop's thread, down to `epoll_ctl`.
  unfoldable pub act : Action → Registered k F → Option (Registered k F)
  unfolding register_event_dispatcher remove_event_dispatcher apply
  act remove r =
      remove_event_dispatcher
        (record r { dispatcher = record (r.dispatcher) { added_to_loop = false } })
  act a r = some (
      register_event_dispatcher
        (record r { dispatcher = record (r.dispatcher) { events = apply a r.dispatcher.events } }))

-- `poll`: what `epoll_wait` stored, a dispatcher and its events for each, against the length of
-- `events_`. The dispatchers to handle, and the length after it.
unfoldable pub poll : List (ℕ × Mask) → ℕ → Option (List (ℕ × Mask) × ℕ)
poll ready size =
    if leb (length ready) size
    then some (ready, if not (length ready == 0) && length ready == size then size * 2 else size)
    else none
