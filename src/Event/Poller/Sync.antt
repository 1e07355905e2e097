-- ===== src/Event/Poller/Sync.antt =====
-- The registration of a dispatcher against what epoll holds for its descriptor (poll/EpollPoller.cpp).
use mysql_connect_pool.Prelude.{
  ℕ, ◌≡◌, ◌≢◌, refl, sym, ◌∙◌, true, false, Option, none, some, inl, inr, Bool-cases,
}
use mysql_connect_pool.Event.Mask.{Mask, is_none_event}
use mysql_connect_pool.Event.Dispatcher.{
  PollState, fresh, added, deleted, Action, remove, enable_reading, disable_reading, enable_writing,
  disable_writing, disable_all, update_events,
}
use mysql_connect_pool.Event.Poller.{
  Kernel, Operation, ctl_add, ctl_mod, ctl_del, Registered, update_event_dispatcher, set_state,
  register_event_dispatcher, remove_event_dispatcher, act,
}

-- What epoll_ctl(2) documents for a descriptor that may be watched: ADD succeeds unless the set has
-- the descriptor, MOD and DEL succeed if it has; the set then holds the new events, or none, and
-- other descriptors keep theirs.
pub record Documented (k : Kernel) : Type 0 where
  pub add_succeeds :
      (fd : ℕ) (m : Mask) (s : k.Set)
      → k.interest s fd ≡ none
      → ((k.epoll_ctl ctl_add fd m s).0 ≡ true)
        × (k.interest (k.epoll_ctl ctl_add fd m s).1 fd ≡ some m)
  pub mod_succeeds :
      (fd : ℕ) (m old : Mask) (s : k.Set)
      → k.interest s fd ≡ some old
      → ((k.epoll_ctl ctl_mod fd m s).0 ≡ true)
        × (k.interest (k.epoll_ctl ctl_mod fd m s).1 fd ≡ some m)
  pub del_succeeds :
      (fd : ℕ) (m old : Mask) (s : k.Set)
      → k.interest s fd ≡ some old
      → ((k.epoll_ctl ctl_del fd m s).0 ≡ true)
        × (k.interest (k.epoll_ctl ctl_del fd m s).1 fd ≡ none)
  pub others_stay :
      (op : Operation) (fd other : ℕ) (m : Mask) (s : k.Set)
      → fd ≢ other
      → k.interest (k.epoll_ctl op fd m s).1 other ≡ k.interest s other

-- What epoll must hold for a dispatcher in a state with some events.
abbrev pub expected : PollState → Mask → Option Mask
expected added m = some m
expected fresh m = none
expected deleted m = none

module _ {k : Kernel} {F : Type 0} where
  -- Epoll holds the dispatcher's events if and only if the dispatcher is in state kAdded, and it is
  -- in that state only while it waits for some event.
  abbrev pub InSync : Registered k F → Type 0
  InSync r = k.interest r.set r.dispatcher.fd ≡ expected r.dispatcher.state r.dispatcher.events

  -- The descriptor and the failures are as before, other descriptors keep what epoll holds.
  abbrev pub Leaves : Registered k F → Registered k F → Type 0
  Leaves r r' =
      (r'.dispatcher.fd ≡ r.dispatcher.fd)
      × (r'.failures ≡ r.failures)
      × ((other : ℕ) → r.dispatcher.fd ≢ other → k.interest r'.set other ≡ k.interest r.set other)

  -- `remove` asserts that the dispatcher waits for nothing and has been registered.
  abbrev pub IsAllowed : Action → Registered k F → Type 0
  IsAllowed remove r = (is_none_event r.dispatcher.events ≡ true) × (r.dispatcher.state ≢ fresh)
  IsAllowed a r = Unit

  -- A registration that succeeded, and what it left.
  abbrev pub Succeeds : Registered k F → Option (Registered k F) → Type 0
  Succeeds r o = (r' : Registered k F) × (o ≡ some r') × InSync r' × Leaves r r'

  module _ (laws : Documented k) where
    update-Leaves :
        (op : Operation) (r : Registered k F)
        → (k.epoll_ctl op r.dispatcher.fd r.dispatcher.events r.set).0 ≡ true
        → Leaves r (update_event_dispatcher op r)
    unfolding update_event_dispatcher
    update-Leaves op r ok = (
      refl,
      rw ok refl,
      λ other ne. laws.others_stay op r.dispatcher.fd other r.dispatcher.events r.set ne,
    )

    add-Succeeds :
        (r : Registered k F)
        → k.interest r.set r.dispatcher.fd ≡ none
        → Succeeds r (some (update_event_dispatcher ctl_add (set_state added r)))
    unfolding update_event_dispatcher
    add-Succeeds r absent =
        let (ok, now) = laws.add_succeeds r.dispatcher.fd r.dispatcher.events r.set absent in
        (_, refl, now, update-Leaves ctl_add (set_state added r) ok)

    del-Succeeds :
        (r : Registered k F) (m : Mask) (s : PollState)
        → expected s r.dispatcher.events ≡ none
        → k.interest r.set r.dispatcher.fd ≡ some m
        → Succeeds r (some (set_state s (update_event_dispatcher ctl_del r)))
    unfolding update_event_dispatcher
    del-Succeeds r m s gone present =
        let (ok, now) = laws.del_succeeds r.dispatcher.fd r.dispatcher.events m r.set present in
        (_, refl, now ∙ sym gone, update-Leaves ctl_del r ok)

    mod-Succeeds :
        (r : Registered k F) (m : Mask)
        → r.dispatcher.state ≡ added
        → k.interest r.set r.dispatcher.fd ≡ some m
        → Succeeds r (some (update_event_dispatcher ctl_mod r))
    unfolding update_event_dispatcher
    mod-Succeeds r m st present =
        let (ok, now) = laws.mod_succeeds r.dispatcher.fd r.dispatcher.events m r.set present in
        (_, refl, rw st now, update-Leaves ctl_mod r ok)

    register-Succeeds :
        (r : Registered k F) (m : Mask) (s : PollState)
        → r.dispatcher.state ≡ s
        → k.interest r.set r.dispatcher.fd ≡ expected s m
        → Succeeds r (some (register_event_dispatcher r))
    unfolding register_event_dispatcher
    register-Succeeds r m fresh st here = rw (register_event_dispatcher, st) (add-Succeeds r here)
    register-Succeeds r m deleted st here = rw (register_event_dispatcher, st) (add-Succeeds r here)
    register-Succeeds r m added st here = elim (Bool-cases (is_none_event r.dispatcher.events)) [
      | inl n ↦ rw (register_event_dispatcher, st, n) (del-Succeeds r m deleted refl here)
      | inr n ↦ rw (register_event_dispatcher, st, n) (mod-Succeeds r m st here)
    ]

    remove-Succeeds :
        (r : Registered k F) (s : PollState)
        → r.dispatcher.state ≡ s
        → s ≢ fresh
        → is_none_event r.dispatcher.events ≡ true
        → k.interest r.set r.dispatcher.fd ≡ expected s r.dispatcher.events
        → Succeeds r (remove_event_dispatcher r)
    unfolding remove_event_dispatcher
    remove-Succeeds r fresh st ne n here = absurd (ne refl)
    remove-Succeeds r added st ne n here =
        rw (remove_event_dispatcher, n, st) (del-Succeeds r r.dispatcher.events fresh refl here)
    remove-Succeeds r deleted st ne n here =
        rw (remove_event_dispatcher, n, st) (_, refl, here, (refl, refl, λ other e. refl))

    -- While epoll behaves as documented, every call of a dispatcher's member, `remove` under its
    -- asserted conditions, returns, makes no call of `epoll_ctl` that fails, leaves epoll with what
    -- the dispatcher's state and events say, and touches no other descriptor.
    pub act-Succeeds :
        (a : Action) (r : Registered k F) → IsAllowed a r → InSync r → Succeeds r (act a r)
    unfolding act
    act-Succeeds remove r (n, ne) here =
        remove-Succeeds (record r { dispatcher = record (r.dispatcher) { added_to_loop = false } })
          r.dispatcher.state refl ne n here
    act-Succeeds enable_reading r _ here =
        register-Succeeds _ r.dispatcher.events r.dispatcher.state refl here
    act-Succeeds disable_reading r _ here =
        register-Succeeds _ r.dispatcher.events r.dispatcher.state refl here
    act-Succeeds enable_writing r _ here =
        register-Succeeds _ r.dispatcher.events r.dispatcher.state refl here
    act-Succeeds disable_writing r _ here =
        register-Succeeds _ r.dispatcher.events r.dispatcher.state refl here
    act-Succeeds disable_all r _ here =
        register-Succeeds _ r.dispatcher.events r.dispatcher.state refl here
    act-Succeeds (update_events m) r _ here =
        register-Succeeds _ r.dispatcher.events r.dispatcher.state refl here
