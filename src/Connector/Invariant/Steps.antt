-- ===== src/Connector/Invariant/Steps.antt =====
-- Every handler keeps the invariant, and never takes the connection back to an earlier state.
use mysql_connect_pool.Prelude.{
  ℕ, ◌≤◌, ◌≡◌, refl, true, false, Option, none, some, arith, List, [], ◌∷◌,
}
use mysql_connect_pool.Event.Mask.{Mask}
use mysql_connect_pool.Connector.State.{
  Libraries, Connector, WaitStatus, Outcome, running, aborted, stuck, connecting, connected,
  setting_character_set, resting, store_result, next_result, real_query, Task, Query, ok_callback,
  output_error_task, get_result_task, exec_sql_task, handle_closed, set_event_dispatcher, notify,
  ◌>>=◌,
}
use mysql_connect_pool.Connector.Sql.{build_sql}
use mysql_connect_pool.Connector.Results.{start_store_result, get_result}
use mysql_connect_pool.Connector.Handlers.{
  event_status, start_set_character_set, continue_set_character_set, continue_connect,
  cmd_real_query, cmd_store_result, cmd_next_result, handle_cmd, handle_event, handle_timeout,
  start_query, start_built, exec_sql_in_loop, exec_sql, batch_sql, batch, disconnect, run_one,
  run_first, run_task, timed_out, Call, event, timeout, task, disconnects, exec, step,
}
use mysql_connect_pool.Connector.Invariant.{
  rank, IsStable, IsSound, Good, Ensures, has_completion-append, has_exec-append,
  has_completion-append_left, set_event_dispatcher-IsSame, IsSame-Good, handle_closed-Good,
}
use mysql_connect_pool.Connector.Invariant.Store.{
  output_error-Good, start_store_result-Good, get_result-Good,
}

module _ {l : Libraries} where
  watch-Good : (s t : Connector l) → Good s t → Good s (set_event_dispatcher t)
  watch-Good s t = IsSame-Good s t (set_event_dispatcher t) (set_event_dispatcher-IsSame t)

  then_watch-Good :
      (s : Connector l) (o : Outcome l)
      → Ensures (Good s) o
      → Ensures (Good s) (o >>= λ t. running (set_event_dispatcher t))
  then_watch-Good s (running t) g = watch-Good s t g
  then_watch-Good s (aborted t) g = tt
  then_watch-Good s stuck g = tt

  Good-trans :
      (s t : Connector l) (o : Outcome l)
      → rank s.status ≤ rank t.status
      → Ensures (Good t) o
      → Ensures (Good s) o
  Good-trans s t (running u) h g = ground arith
  Good-trans s t (aborted u) h g = tt
  Good-trans s t stuck h g = tt

  start_query-Good :
      (sql : List ℕ) (s : Connector l) → IsStable s → Ensures (Good s) (start_query sql s)
  unfolding start_query
  start_query-Good sql s v =
      let (w, err, h) = l.real_query_start s.handle sql in
      let t = record s { wait = w; handle = h; exec = real_query } in
      ground (
        arith,
        has_completion-append s.tasks output_error_task refl,
        has_exec-append s.tasks (output_error_task ∷ []),
        start_store_result-Good true t,
      )

  cmd_real_query-Good :
      (w : WaitStatus) (s : Connector l)
      → IsSound s
      → s.exec ≡ real_query
      → Ensures (Good s) (cmd_real_query w s)
  unfolding cmd_real_query
  cmd_real_query-Good status s v e =
      let (w, err, h) = l.real_query_cont s.handle status in
      let t = record s { wait = w; handle = h } in
      ground (
        arith,
        output_error-Good (record t { exec = resting }),
        then_watch-Good s (start_store_result false t),
        start_store_result-Good false t,
        watch-Good s t,
      )

  cmd_store_result-Good :
      (w : WaitStatus) (s : Connector l)
      → IsSound s
      → s.exec ≡ store_result
      → Ensures (Good s) (cmd_store_result w s)
  unfolding cmd_store_result
  cmd_store_result-Good status s v e =
      let (w, ret, h) = l.store_result_cont s.handle status in
      let t = record s { wait = w; handle = h } in
      ground (
        arith,
        output_error-Good (record t { exec = resting }),
        then_watch-Good s (get_result ret t),
        get_result-Good ret t,
        watch-Good s t,
      )

  cmd_next_result-Good :
      (w : WaitStatus) (s : Connector l)
      → IsSound s
      → s.exec ≡ next_result
      → Ensures (Good s) (cmd_next_result w s)
  unfolding cmd_next_result
  cmd_next_result-Good status s v e =
      let (w, err, h) = l.next_result_cont s.handle status in
      let t = record s { wait = w; handle = h } in
      ground (
        arith,
        output_error-Good (record t { exec = resting }),
        then_watch-Good s (start_store_result false t),
        start_store_result-Good false t,
        watch-Good s t,
      )

  handle_cmd-Good :
      (w : WaitStatus) (s : Connector l) → IsSound s → Ensures (Good s) (handle_cmd w s)
  unfolding handle_cmd
  handle_cmd-Good w s v = ground (
    arith,
    cmd_real_query-Good w s v,
    cmd_store_result-Good w s v,
    cmd_next_result-Good w s v,
    handle_closed-Good s v,
  )

  start_set_character_set-Good :
      (s : Connector l)
      → IsStable s
      → s.status ≡ connecting
      → Ensures (Good s) (start_set_character_set s)
  unfolding start_set_character_set handle_closed
  start_set_character_set-Good s v e =
      let (w, err, h) = l.set_character_set_start s.handle s.character_set in
      let t = record s { wait = w; handle = h } in
      ground (
        arith,
        watch-Good s (notify ok_callback (record t { status = connected })),
        watch-Good s (record t { status = connected }),
        watch-Good s (record t { status = setting_character_set }),
      )

  continue_set_character_set-Good :
      (w : WaitStatus) (s : Connector l)
      → IsStable s
      → s.status ≡ setting_character_set
      → Ensures (Good s) (continue_set_character_set w s)
  unfolding continue_set_character_set handle_closed
  continue_set_character_set-Good status s v e =
      let (w, err, h) = l.set_character_set_cont s.handle status in
      let t = record s { wait = w; handle = h } in
      ground (
        arith,
        watch-Good s (notify ok_callback (record t { status = connected })),
        watch-Good s (record t { status = connected }),
        watch-Good s t,
      )

  continue_connect-Good :
      (w : WaitStatus) (s : Connector l)
      → IsStable s
      → s.status ≡ connecting
      → Ensures (Good s) (continue_connect w s)
  unfolding continue_connect handle_closed
  continue_connect-Good status s v e =
      let (w, ret, h) = l.real_connect_cont s.handle status in
      let t = record s { wait = w; handle = h } in
      ground (
        arith,
        watch-Good s (notify ok_callback (record t { status = connected })),
        watch-Good s (record t { status = connected }),
        watch-Good s t,
        start_set_character_set-Good t,
        Good-trans s t (start_set_character_set t),
      )

  handle_event-Good :
      (revents : Mask) (s : Connector l) → IsSound s → Ensures (Good s) (handle_event revents s)
  unfolding handle_event
  handle_event-Good revents s v =
      let w = event_status revents s.wait in
      ground (
        arith,
        continue_connect-Good w s v.stable,
        continue_set_character_set-Good w s v.stable,
        handle_cmd-Good w s v,
      )

  handle_timeout-Good : (s : Connector l) → IsSound s → Ensures (Good s) (handle_timeout s)
  unfolding handle_timeout
  handle_timeout-Good s v = ground (
    arith,
    continue_connect-Good timed_out s v.stable,
    continue_set_character_set-Good timed_out s v.stable,
  )

  start_built-Good :
      (o : Option (List ℕ)) (s t : Connector l)
      → IsStable t
      → rank s.status ≤ rank t.status
      → Ensures (Good s) (start_built o t)
  unfolding start_built
  start_built-Good none s t v h = tt
  start_built-Good (some text) s t v h =
      then_watch-Good s (start_query text t)
        (Good-trans s t (start_query text t) h (start_query-Good text t v))

  exec_sql_in_loop-Good :
      (q : Query) (s : Connector l)
      → IsStable s
      → 3 ≤ rank s.status
      → Ensures (Good s) (exec_sql_in_loop q s)
  unfolding exec_sql_in_loop
  exec_sql_in_loop-Good q s v h = ground (
    arith,
    start_built-Good (build_sql (l.real_escape_string s.handle) q.parameters q.sql) s
        (record s { callback = true; working = true; catches = q.catches }),
  )

  run_one-Good :
      (t : Task l) (rest : List (Task l)) (s : Connector l)
      → IsSound s
      → s.tasks ≡ t ∷ rest
      → Ensures (Good s) (run_one t (record s { tasks = rest }))
  unfolding run_one
  run_one-Good output_error_task rest s v e =
      ground (arith, output_error-Good (record s { tasks = rest }))
  run_one-Good (get_result_task r) rest s v e =
      ground (arith, get_result-Good r (record s { tasks = rest }))
  run_one-Good (exec_sql_task q) rest s v e =
      ground (arith, exec_sql_in_loop-Good q (record s { tasks = rest }))

  run_first-Good :
      (ts : List (Task l)) (s : Connector l)
      → IsSound s
      → s.tasks ≡ ts
      → Ensures (Good s) (run_first ts s)
  unfolding run_first
  run_first-Good [] s v e = ground arith
  run_first-Good (t ∷ rest) s v e = run_one-Good t rest s v e

  -- A client hands over queries only after the connection is made.
  abbrev pub IsAllowed : Call → Connector l → Type 0
  IsAllowed (exec in_loop_thread q) s = 3 ≤ rank s.status
  IsAllowed _ s = Unit

  pub step-Good :
      (c : Call) (s : Connector l) → IsSound s → IsAllowed c s → Ensures (Good s) (step c s)
  unfolding step run_task exec_sql batch_sql disconnect
  step-Good (event revents) s v a = handle_event-Good revents s v
  step-Good timeout s v a = handle_timeout-Good s v
  step-Good task s v a = run_first-Good s.tasks s v refl
  step-Good disconnects s v a = ground arith
  step-Good batch s v a = ground arith
  step-Good (exec in_loop_thread q) s v a = ground (
    arith,
    exec_sql_in_loop-Good q s v.stable a,
    has_exec-append s.tasks (exec_sql_task q ∷ []),
    has_completion-append_left s.tasks (exec_sql_task q ∷ []),
  )
