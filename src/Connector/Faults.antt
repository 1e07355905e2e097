-- ===== src/Connector/Faults.antt =====
-- What becomes of an error: `ABSL_LOG(FATAL)` stands on each error path of
-- MySQLImpl/MySQLConnector.cpp, before the callback that is to report the error.
use mysql_connect_pool.Prelude.{◌≡◌, refl, false, Option, List, [], ◌∷◌, arith}
use mysql_connect_pool.Connector.State.{
  Libraries, Connector, WaitStatus, Outcome, running, aborted, stuck, ◌>>=◌, connected,
  setting_character_set, Task, ok_callback, output_error_task, get_result_task, exec_sql_task,
  set_event_dispatcher, notify,
}
use mysql_connect_pool.Connector.Results.{start_store_result, get_result}
use mysql_connect_pool.Connector.Handlers.{
  event_status, start_set_character_set, continue_set_character_set, continue_connect,
  cmd_real_query, cmd_store_result, cmd_next_result, handle_cmd, handle_event, handle_timeout,
  timed_out, exec_sql, batch_sql, batch, disconnect, run_one, run_first, run_task, Call, event,
  timeout, task, disconnects, exec, step, run,
}
use mysql_connect_pool.Connector.Silence.{
  Always, exceptions, IsSilent, watch-IsSilent, then_watch-IsSilent, IsSilent-trans,
  handle_closed-IsSilent, output_error-IsSilent, start_store_result-IsSilent, get_result-IsSilent,
  exec_sql_in_loop-IsSilent,
}

module _ {l : Libraries} where
  module _ (ends : l.fatal_returns ≡ false) where
    handle_cmd-IsSilent : (w : WaitStatus) (s : Connector l) → Always (IsSilent s) (handle_cmd w s)
    unfolding handle_cmd cmd_real_query cmd_store_result cmd_next_result
    handle_cmd-IsSilent status s = ground (
      arith,
      handle_closed-IsSilent s,
      queried (l.real_query_cont s.handle status).0 (l.real_query_cont s.handle status).2,
      stored (l.store_result_cont s.handle status).1 (l.store_result_cont s.handle status).0
          (l.store_result_cont s.handle status).2,
      queried (l.next_result_cont s.handle status).0 (l.next_result_cont s.handle status).2,
      watched (l.real_query_cont s.handle status).0 (l.real_query_cont s.handle status).2,
      watched (l.store_result_cont s.handle status).0 (l.store_result_cont s.handle status).2,
      watched (l.next_result_cont s.handle status).0 (l.next_result_cont s.handle status).2,
    )
      where
        queried :
            (w : WaitStatus) (h : l.Handle)
            → Always (IsSilent s) (
                start_store_result false (record s { wait = w; handle = h }) >>= λ t.
                running (set_event_dispatcher t))
        queried w h =
            then_watch-IsSilent s _
              (start_store_result-IsSilent ends false (record s { wait = w; handle = h }))

        stored :
            (r : Option l.Res) (w : WaitStatus) (h : l.Handle)
            → Always (IsSilent s) (
                get_result r (record s { wait = w; handle = h }) >>= λ t.
                running (set_event_dispatcher t))
        stored r w h =
            then_watch-IsSilent s _ (get_result-IsSilent ends r (record s { wait = w; handle = h }))

        watched :
            (w : WaitStatus) (h : l.Handle)
            → IsSilent s (set_event_dispatcher (record s { wait = w; handle = h }))
        watched w h = watch-IsSilent s (record s { wait = w; handle = h }) refl

    start_set_character_set-IsSilent :
        (s : Connector l) → Always (IsSilent s) (start_set_character_set s)
    unfolding start_set_character_set
    start_set_character_set-IsSilent s =
        let (w, err, h) = l.set_character_set_start s.handle s.character_set in
        let t = record s { wait = w; handle = h } in
        ground (
          arith,
          watch-IsSilent s (notify ok_callback (record t { status = connected })),
          watch-IsSilent s (record t { status = connected }),
          watch-IsSilent s (record t { status = setting_character_set }),
        )

    continue_set_character_set-IsSilent :
        (w : WaitStatus) (s : Connector l) → Always (IsSilent s) (continue_set_character_set w s)
    unfolding continue_set_character_set
    continue_set_character_set-IsSilent status s =
        let (w, err, h) = l.set_character_set_cont s.handle status in
        let t = record s { wait = w; handle = h } in
        ground (
          arith,
          watch-IsSilent s (notify ok_callback (record t { status = connected })),
          watch-IsSilent s (record t { status = connected }),
          watch-IsSilent s t,
        )

    continue_connect-IsSilent :
        (w : WaitStatus) (s : Connector l) → Always (IsSilent s) (continue_connect w s)
    unfolding continue_connect
    continue_connect-IsSilent status s =
        let (w, ret, h) = l.real_connect_cont s.handle status in
        let t = record s { wait = w; handle = h } in
        ground (
          arith,
          watch-IsSilent s (notify ok_callback (record t { status = connected })),
          watch-IsSilent s (record t { status = connected }),
          watch-IsSilent s t,
          start_set_character_set-IsSilent t,
        )

    run_first-IsSilent :
        (ts : List (Task l)) (s : Connector l) → Always (IsSilent s) (run_first ts s)
    unfolding run_first run_one
    run_first-IsSilent [] s = refl
    run_first-IsSilent (output_error_task ∷ rest) s =
        output_error-IsSilent ends (record s { tasks = rest }) s refl
    run_first-IsSilent (get_result_task r ∷ rest) s =
        get_result-IsSilent ends r (record s { tasks = rest })
    run_first-IsSilent (exec_sql_task q ∷ rest) s =
        exec_sql_in_loop-IsSilent ends q (record s { tasks = rest })

    step-IsSilent : (c : Call) (s : Connector l) → Always (IsSilent s) (step c s)
    unfolding step handle_event handle_timeout exec_sql run_task batch_sql disconnect
    step-IsSilent (event revents) s =
        let w = event_status revents s.wait in
        ground (
          arith,
          continue_connect-IsSilent w s,
          continue_set_character_set-IsSilent w s,
          handle_cmd-IsSilent w s,
        )
    step-IsSilent timeout s = ground (
      arith,
      continue_connect-IsSilent timed_out s,
      continue_set_character_set-IsSilent timed_out s,
    )
    step-IsSilent task s = run_first-IsSilent s.tasks s
    step-IsSilent disconnects s = refl
    step-IsSilent batch s = ground arith
    step-IsSilent (exec in_loop_thread q) s = ground (arith, exec_sql_in_loop-IsSilent ends q s)

    then_run-IsSilent :
        (s : Connector l) (o : Outcome l) (f : Connector l → Outcome l)
        → Always (IsSilent s) o
        → ((t : Connector l) → Always (IsSilent t) (f t))
        → Always (IsSilent s) (o >>= f)
    then_run-IsSilent s (running t) f g h = IsSilent-trans s t (f t) g (h t)
    then_run-IsSilent s (aborted t) f g h = g
    then_run-IsSilent s stuck f g h = tt

    run-IsSilent : (cs : List Call) (s : Connector l) → Always (IsSilent s) (run cs s)
    unfolding run
    run-IsSilent [] s = refl
    run-IsSilent (c ∷ cs) s =
        then_run-IsSilent s (step c s) (run cs) (step-IsSilent c s) (run-IsSilent cs)

    -- The bug: where a FATAL message ends the process, as is documented, no sequence of calls ever
    -- calls the exception callback. When the sequence has returned, and also when the process ends
    -- in it, the callback has been called as often as at its start.
    pub exceptions-run :
        (cs : List Call) (s : Connector l)
        → Always (λ t. exceptions t.notices ≡ exceptions s.notices) (run cs s)
    exceptions-run cs s = run-IsSilent cs s
