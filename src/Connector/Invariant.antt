-- ===== src/Connector/Invariant.antt =====
-- What every handler of a connection keeps.
pub mod Store
pub mod Steps
use mysql_connect_pool.Prelude.{
  ℕ, suc, ◌≤◌, ◌≡◌, Bool, true, false, not, ◌&&◌, ◌||◌, List, [], ◌∷◌, ◌++◌, refl, arith,
}
use mysql_connect_pool.Connector.State.{
  Libraries, Connector, ConnectStatus, ExecStatus, Notice, Task, Outcome, running, aborted, stuck,
  unconnected, connecting, setting_character_set, connected, bad, resting, real_query, store_result,
  next_result, ok_callback, close_callback, idle_callback, timer_started, result_callback,
  exception_callback, output_error_task, get_result_task, exec_sql_task, is_zero, handle_closed,
  set_event_dispatcher, watch_reading, watch_writing, watch_timeout,
}

-- The order in which a connection goes through its states.
abbrev pub rank : ConnectStatus → ℕ
rank unconnected = 0
rank connecting = 1
rank setting_character_set = 2
rank connected = 3
rank bad = 4

abbrev pub closings : ConnectStatus → ℕ
closings bad = 1
closings _ = 0

abbrev pub is_resting : ExecStatus → Bool
is_resting resting = true
is_resting _ = false

module _ {l : Libraries} where
  abbrev pub closed_count : List (Notice l) → ℕ
  closed_count [] = 0
  closed_count (close_callback ∷ ns) = suc (closed_count ns)
  closed_count (_ ∷ ns) = closed_count ns

  -- A queued function that ends the query or reads on.
  abbrev pub has_completion : List (Task l) → Bool
  has_completion [] = false
  has_completion (exec_sql_task q ∷ ts) = has_completion ts
  has_completion (output_error_task ∷ ts) = true
  has_completion (get_result_task r ∷ ts) = true

  -- A queued query.
  abbrev pub has_exec : List (Task l) → Bool
  has_exec [] = false
  has_exec (exec_sql_task q ∷ ts) = true
  has_exec (output_error_task ∷ ts) = has_exec ts
  has_exec (get_result_task r ∷ ts) = has_exec ts

  -- The connection waits for the server in the middle of a query, or has the rest of it queued.
  abbrev pub is_pending : Connector l → Bool
  is_pending s = (not (is_zero s.wait) && not (is_resting s.exec)) || has_completion s.tasks

  pub record IsStable (s : Connector l) : Type 0 where
    -- While a query runs, its callback is set.
    pub callback_set : s.working ≡ true → s.callback ≡ true
    pub closed_once : closed_count s.notices ≤ closings s.status
    -- Queries start when the connection is made, at the earliest.
    pub ready : s.working ≡ true → 3 ≤ rank s.status
    pub queue_ready : has_exec s.tasks ≡ true → 3 ≤ rank s.status

  pub record IsSound (s : Connector l) : Type 0 where
    pub stable : IsStable s
    pub progress : s.working ≡ true → is_pending s ≡ true

  pub record Good (s t : Connector l) : Type 0 where
    pub sound : IsSound t
    pub forward : rank s.status ≤ rank t.status

  -- The predicate holds of the state in which the handler returns.
  abbrev pub Ensures : (Connector l → Type 0) → Outcome l → Type 0
  Ensures P (running t) = P t
  Ensures P (aborted t) = Unit
  Ensures P stuck = Unit

  pub has_completion-append :
      (ts : List (Task l)) (t : Task l)
      → has_completion (t ∷ []) ≡ true
      → has_completion (ts ++ (t ∷ [])) ≡ true
  has_completion-append [] t h = h
  has_completion-append (exec_sql_task q ∷ ts) t h = has_completion-append ts t h
  has_completion-append (output_error_task ∷ ts) t h = refl
  has_completion-append (get_result_task r ∷ ts) t h = refl

  pub has_exec-append : (ts us : List (Task l)) → has_exec (ts ++ us) ≡ (has_exec ts || has_exec us)
  has_exec-append [] us = refl
  has_exec-append (exec_sql_task q ∷ ts) us = refl
  has_exec-append (output_error_task ∷ ts) us = has_exec-append ts us
  has_exec-append (get_result_task r ∷ ts) us = has_exec-append ts us

  pub has_completion-append_left :
      (ts us : List (Task l)) → has_completion ts ≡ true → has_completion (ts ++ us) ≡ true
  has_completion-append_left [] us h = absurd (ground arith)
  has_completion-append_left (exec_sql_task q ∷ ts) us h = has_completion-append_left ts us h
  has_completion-append_left (output_error_task ∷ ts) us h = refl
  has_completion-append_left (get_result_task r ∷ ts) us h = refl

  -- `setEventDispatcher` touches the dispatcher and the timer only.
  pub record IsSame (s t : Connector l) : Type 0 where
    pub status_is : t.status ≡ s.status
    pub callback_is : t.callback ≡ s.callback
    pub working_is : t.working ≡ s.working
    pub wait_is : t.wait ≡ s.wait
    pub exec_is : t.exec ≡ s.exec
    pub tasks_is : t.tasks ≡ s.tasks
    pub closed_is : closed_count t.notices ≡ closed_count s.notices

  pub set_event_dispatcher-IsSame : (s : Connector l) → IsSame s (set_event_dispatcher s)
  unfolding set_event_dispatcher
  set_event_dispatcher-IsSame s = ground arith

  pub IsSame-Good : (s t u : Connector l) → IsSame t u → Good s t → Good s u
  IsSame-Good s t u same g = ground arith

  pub handle_closed-Good :
      (s : Connector l) → IsSound s → Good s s → Ensures (Good s) (handle_closed s)
  unfolding handle_closed
  handle_closed-Good s v g = ground arith
