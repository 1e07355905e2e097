-- ===== src/Connector/Watched.antt =====
-- Whether the loop watches the socket for what a query waits for (MySQLImpl/MySQLConnector.cpp).
use mysql_connect_pool.Prelude.{
  ℕ, ◌≡◌, ◌≢◌, Bool, true, false, ◌||◌, Option, none, some, List, arith, ◌⊎◌, inl, inr, Bool-cases,
}
use mysql_connect_pool.Event.Mask.{Mask, is_reading, is_writing, add_read, add_write, drop_write}
use mysql_connect_pool.Connector.State.{
  Libraries, Connector, WaitStatus, Outcome, running, aborted, stuck, ◌>>=◌, bad, is_zero, resting,
  connected, setting_character_set, ok_callback, notify, handle_closed, set_event_dispatcher,
  watch_reading, watch_writing, watch_timeout, Query,
}
use mysql_connect_pool.Connector.Sql.{build_sql}
use mysql_connect_pool.Connector.Results.{
  output_error, give_up_query, start_store_result, get_result,
}
use mysql_connect_pool.Connector.Handlers.{
  event_status, start_set_character_set, continue_set_character_set, continue_connect,
  cmd_real_query, cmd_store_result, cmd_next_result, handle_cmd, handle_event, start_query,
  start_built, exec_sql_in_loop, exec_sql, Call, event, timeout, task, disconnects, batch, exec,
  constructed, init, step, run,
}
use mysql_connect_pool.Connector.Invariant.{
  is_resting, has_completion, is_pending, IsSound, Good, Ensures,
}
use mysql_connect_pool.Connector.Invariant.Steps.{IsAllowed, step-Good}
use mysql_connect_pool.Connector.History.{AllAllowed, init-IsSound, run-Good}

false-ne-true : false ≢ true
false-ne-true h = cc

-- Whether a call ends with `setEventDispatcher`: an event of the socket, or `execSql` in the loop's
-- thread.
abbrev pub watches_after : Call → Bool
watches_after (event revents) = true
watches_after (exec in_loop_thread q) = in_loop_thread
watches_after _ = false

module _ {l : Libraries} where
  -- The dispatcher waits for input if the client library does, and for room to write just if it does.
  pub record Watches (s : Connector l) : Type 0 where
    pub input : ((s.wait.read || s.wait.except) ≡ false) ⊎ (is_reading s.watch ≡ true)
    pub output : is_writing s.watch ≡ s.wait.write

  abbrev Served : Connector l → Type 0
  Served s = (s.status ≡ bad) ⊎ ((s.working ≡ false) ⊎ Watches s)

  set_event_dispatcher-Watches : (s : Connector l) → Watches (set_event_dispatcher s)
  unfolding set_event_dispatcher watch_reading watch_writing watch_timeout is_reading is_writing
      add_read add_write drop_write
  set_event_dispatcher-Watches s = record { input = ground arith; output = ground arith }

  watched : (s : Connector l) → Served (set_event_dispatcher s)
  watched s = inr (inr (set_event_dispatcher-Watches s))

  then_watch-Served : (o : Outcome l) → Ensures Served (o >>= λ t. running (set_event_dispatcher t))
  then_watch-Served (running t) = watched t
  then_watch-Served (aborted t) = tt
  then_watch-Served stuck = tt

  handle_closed-Served : (s : Connector l) → Ensures Served (handle_closed s)
  unfolding handle_closed
  handle_closed-Served s = ground arith

  output_error-Served : (s : Connector l) → Ensures Served (output_error s)
  unfolding output_error give_up_query handle_closed
  output_error-Served s = ground arith

  cmd_real_query-Served : (w : WaitStatus) (s : Connector l) → Ensures Served (cmd_real_query w s)
  unfolding cmd_real_query
  cmd_real_query-Served status s =
      let (w, err, h) = l.real_query_cont s.handle status in
      let t = record s { wait = w; handle = h } in
      ground (
        arith,
        output_error-Served (record t { exec = resting }),
        then_watch-Served (start_store_result false t),
        watched t,
      )

  cmd_store_result-Served :
      (w : WaitStatus) (s : Connector l) → Ensures Served (cmd_store_result w s)
  unfolding cmd_store_result
  cmd_store_result-Served status s =
      let (w, ret, h) = l.store_result_cont s.handle status in
      let t = record s { wait = w; handle = h } in
      ground (
        arith,
        output_error-Served (record t { exec = resting }),
        then_watch-Served (get_result ret t),
        watched t,
      )

  cmd_next_result-Served : (w : WaitStatus) (s : Connector l) → Ensures Served (cmd_next_result w s)
  unfolding cmd_next_result
  cmd_next_result-Served status s =
      let (w, err, h) = l.next_result_cont s.handle status in
      let t = record s { wait = w; handle = h } in
      ground (
        arith,
        output_error-Served (record t { exec = resting }),
        then_watch-Served (start_store_result false t),
        watched t,
      )

  start_set_character_set-Served : (s : Connector l) → Ensures Served (start_set_character_set s)
  unfolding start_set_character_set
  start_set_character_set-Served s =
      let (w, err, h) = l.set_character_set_start s.handle s.character_set in
      let t = record s { wait = w; handle = h } in
      ground (
        arith,
        handle_closed-Served t,
        watched (notify ok_callback (record t { status = connected })),
        watched (record t { status = connected }),
        watched (record t { status = setting_character_set }),
      )

  continue_set_character_set-Served :
      (w : WaitStatus) (s : Connector l) → Ensures Served (continue_set_character_set w s)
  unfolding continue_set_character_set
  continue_set_character_set-Served status s =
      let (w, err, h) = l.set_character_set_cont s.handle status in
      let t = record s { wait = w; handle = h } in
      ground (
        arith,
        handle_closed-Served t,
        watched (notify ok_callback (record t { status = connected })),
        watched (record t { status = connected }),
        watched t,
      )

  continue_connect-Served :
      (w : WaitStatus) (s : Connector l) → Ensures Served (continue_connect w s)
  unfolding continue_connect
  continue_connect-Served status s =
      let (w, ret, h) = l.real_connect_cont s.handle status in
      let t = record s { wait = w; handle = h } in
      ground (
        arith,
        handle_closed-Served t,
        watched (notify ok_callback (record t { status = connected })),
        watched (record t { status = connected }),
        watched t,
        start_set_character_set-Served t,
      )

  abbrev ServedOrQueued : Connector l → Type 0
  ServedOrQueued s = (has_completion s.tasks ≡ true) ⊎ Served s

  or_queued : (o : Outcome l) → Ensures Served o → Ensures ServedOrQueued o
  or_queued (running t) v = inr v
  or_queued (aborted t) v = tt
  or_queued stuck v = tt

  handle_event-Served :
      (revents : Mask) (s : Connector l)
      → IsSound s
      → Ensures ServedOrQueued (handle_event revents s)
  unfolding handle_event handle_cmd
  handle_event-Served revents s v =
      let w = event_status revents s.wait in
      ground (
        arith,
        v.progress,
        v.stable.ready,
        handle_closed-Served s,
        or_queued (continue_connect w s) (continue_connect-Served w s),
        or_queued (continue_set_character_set w s) (continue_set_character_set-Served w s),
        or_queued (cmd_real_query w s) (cmd_real_query-Served w s),
        or_queued (cmd_store_result w s) (cmd_store_result-Served w s),
        or_queued (cmd_next_result w s) (cmd_next_result-Served w s),
      )

  start_built-Served : (o : Option (List ℕ)) (s : Connector l) → Ensures Served (start_built o s)
  unfolding start_built
  start_built-Served none s = tt
  start_built-Served (some text) s = then_watch-Served (start_query text s)

  exec_sql_in_loop-Served : (q : Query) (s : Connector l) → Ensures Served (exec_sql_in_loop q s)
  unfolding exec_sql_in_loop
  exec_sql_in_loop-Served q s = ground (
    arith,
    start_built-Served (build_sql (l.real_escape_string s.handle) q.parameters q.sql)
        (record s { callback = true; working = true; catches = q.catches }),
  )

  step-Served :
      (c : Call) (s : Connector l)
      → IsSound s
      → watches_after c ≡ true
      → Ensures ServedOrQueued (step c s)
  unfolding step exec_sql
  step-Served (event revents) s v e = handle_event-Served revents s v
  step-Served (exec true q) s v e = or_queued (exec_sql_in_loop q s) (exec_sql_in_loop-Served q s)
  step-Served (exec false q) s v e = absurd (false-ne-true e)
  step-Served timeout s v e = absurd (false-ne-true e)
  step-Served task s v e = absurd (false-ne-true e)
  step-Served disconnects s v e = absurd (false-ne-true e)
  step-Served batch s v e = absurd (false-ne-true e)

  -- How a query goes on after a call: by a queued function, or by the server's answer, for which, if
  -- the call ends with `setEventDispatcher`, the dispatcher waits.
  abbrev pub GoesOn : Call → Connector l → Type 0
  GoesOn c s =
      (has_completion s.tasks ≡ true)
      ⊎ ((is_zero s.wait ≡ false)
          × (is_resting s.exec ≡ false)
          × ((watches_after c ≡ false) ⊎ Watches s))

  pending-GoesOn :
      (c : Call) (s : Connector l)
      → is_pending s ≡ true
      → s.working ≡ true
      → s.status ≢ bad
      → (watches_after c ≡ false) ⊎ ServedOrQueued s
      → GoesOn c s
  pending-GoesOn c s p w b (inl e) = ground (arith, p, e)
  pending-GoesOn c s p w b (inr (inl q)) = inl q
  pending-GoesOn c s p w b (inr (inr (inl e))) = absurd (b e)
  pending-GoesOn c s p w b (inr (inr (inr (inl e)))) = cc
  pending-GoesOn c s p w b (inr (inr (inr (inr v)))) = elim (Bool-cases (has_completion s.tasks)) [
    | inl q ↦ inl q
    | inr n ↦ inr (ground (arith, p, n), ground (arith, p, n), inr v)
  ]

module _ (l : Libraries) where
  -- On a connection that `init` has put into the loop, if no query is handed over before the
  -- connection is made: after any events, timeouts, queued functions, queries and disconnects, a
  -- query that runs on a connection that has not been closed goes on. Either a queued function goes
  -- on with it, or it is in one of the states in which it waits for the server, and then, if the
  -- last call was an event of the socket or `execSql` in the loop's thread, the dispatcher waits for
  -- input if the client library does, and for room to write just if it does.
  pub step-GoesOn :
      (h : l.Handle) (character_set : List ℕ) (cs : List Call) (c : Call) (s t u : Connector l)
      → init (constructed l h character_set) ≡ running s
      → s.in_loop ≡ true
      → AllAllowed cs s
      → run cs s ≡ running t
      → IsAllowed c t
      → step c t ≡ running u
      → u.working ≡ true
      → u.status ≢ bad
      → GoesOn c u
  step-GoesOn h character_set cs c s t u e i a r ok next w b =
      let sound = (rw r at (run-Good cs s (init-IsSound l h character_set s e i) a)).sound in
      let after : Good t u = rw next at (step-Good c t sound ok) in
      pending-GoesOn c u (after.sound.progress w) w b (elim (Bool-cases (watches_after c)) [
        | inr e ↦ inl e
        | inl e ↦ inr (rw next at (step-Served c t sound e))
      ])
