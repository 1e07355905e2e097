-- ===== src/Connector/Handlers.antt =====
-- The handlers of a connection's events (MySQLImpl/MySQLConnector.cpp). `init` comes before them:
-- it makes the dispatcher and leaves the connection `connecting`.
use mysql_connect_pool.Prelude.{
  ℕ, Option, none, some, Bool, true, false, not, ◌&&◌, List, [], ◌∷◌, ◌==◌, if◌then◌else◌,
}
use mysql_connect_pool.Event.Mask.{Mask, none_event}
use mysql_connect_pool.Connector.State.{
  Libraries, Connector, WaitStatus, Task, Query, Outcome, running, aborted, ◌>>=◌, connecting,
  connected, bad, unconnected, close_callback, setting_character_set, resting, real_query,
  store_result, next_result, ok_callback, output_error_task, get_result_task, exec_sql_task,
  is_zero, notify, queue_in_loop, fatal, assert, handle_closed, set_event_dispatcher,
}
use mysql_connect_pool.Connector.Sql.{build_sql}
use mysql_connect_pool.Connector.Results.{output_error, start_store_result, get_result, failed}

-- `characterSet_.empty()`, `sql.empty()`
abbrev pub is_empty : List ℕ → Bool
is_empty [] = true
is_empty (c ∷ cs) = false

-- `status |= MYSQL_WAIT_TIMEOUT`
abbrev pub timed_out : WaitStatus
timed_out = record { read = false; write = false; except = false; timeout = true }

-- The head of `handleEvent`: the poll events in `MYSQL_WAIT_` bits, of those that are waited for.
unfoldable pub event_status : Mask → WaitStatus → WaitStatus
event_status revents w = record {
  read = revents.pollin && w.read;
  write = revents.pollout && w.write;
  except = revents.pollpri && w.except;
  timeout = false;
}

-- The members of a `MySQLConnector` before `init`.
abbrev pub constructed : (l : Libraries) → l.Handle → List ℕ → Connector l
constructed l h character_set = record {
  handle = h;
  has_handle = true;
  wait = record { read = false; write = false; except = false; timeout = false };
  status = unconnected;
  exec = resting;
  working = false;
  callback = true;
  catches = true;
  character_set = character_set;
  watch = none_event;
  in_loop = false;
  notices = [];
  tasks = [];
}

module _ {l : Libraries} where
  -- What `init` runs in the loop. `in_loop` says that the dispatcher was made.
  unfoldable pub init : Connector l → Outcome l
  init s =
      let (w, h) = l.real_connect_start s.handle in
      let t = record s { status = connecting; wait = w; handle = h } in
      let failure =
        fatal t >>= λ u. running (if l.has_close_callback then notify close_callback u else u) in
      if is_zero w && not (l.mysql_errno h == 0)
      then failure
      else (if l.has_socket h
          then running (set_event_dispatcher (record t { watch = none_event; in_loop = true }))
          else failure)

  -- `status_ = Ok; if (okCallback_) …`
  abbrev pub become_ok : Connector l → Connector l
  become_ok s =
      if l.has_ok_callback
      then notify ok_callback (record s { status = connected })
      else record s { status = connected }

  -- `startSetCharacterSet`
  unfoldable pub start_set_character_set : Connector l → Outcome l
  start_set_character_set s =
      let (w, err, h) = l.set_character_set_start s.handle s.character_set in
      let t = record s { wait = w; handle = h } in
      if is_zero w
      then (if err
          then (do t₁ ← fatal t; t₂ ← fatal t₁; handle_closed t₂)
          else running (set_event_dispatcher (become_ok t)))
      else running (set_event_dispatcher (record t { status = setting_character_set }))

  -- `continueSetCharacterSet`
  unfoldable pub continue_set_character_set : WaitStatus → Connector l → Outcome l
  continue_set_character_set status s =
      let (w, err, h) = l.set_character_set_cont s.handle status in
      let t = record s { wait = w; handle = h } in
      if is_zero w
      then (if err
          then (do t₁ ← fatal t; t₂ ← fatal t₁; handle_closed t₂)
          else running (set_event_dispatcher (become_ok t)))
      else running (set_event_dispatcher t)

  -- The branch `status_ == Connecting`, the same in `handleTimeout` and `handleEvent`.
  unfoldable pub continue_connect : WaitStatus → Connector l → Outcome l
  unfolding start_set_character_set
  continue_connect status s =
      let (w, ret, h) = l.real_connect_cont s.handle status in
      let t = record s { wait = w; handle = h } in
      if is_zero w
      then (if not ret && not (l.mysql_errno h == 0)
          then (do t₁ ← fatal t; t₂ ← fatal t₁; handle_closed t₂)
          else (if is_empty s.character_set
              then running (set_event_dispatcher (become_ok t))
              else start_set_character_set t))
      else running (set_event_dispatcher t)

  abbrev then_watch : Outcome l → Outcome l
  then_watch o = o >>= λ t. running (set_event_dispatcher t)

  -- `handleCmd`, case `RealQuery`
  unfoldable pub cmd_real_query : WaitStatus → Connector l → Outcome l
  cmd_real_query status s =
      let (w, err, h) = l.real_query_cont s.handle status in
      let t = record s { wait = w; handle = h } in
      if is_zero w
      then (if err
          then (fatal (record t { exec = resting }) >>= output_error)
          else then_watch (start_store_result false t))
      else then_watch (running t)

  -- `handleCmd`, case `StoreResult`
  unfoldable pub cmd_store_result : WaitStatus → Connector l → Outcome l
  cmd_store_result status s =
      let (w, ret, h) = l.store_result_cont s.handle status in
      let t = record s { wait = w; handle = h } in
      if is_zero w
      then (if failed l ret h
          then (fatal (record t { exec = resting }) >>= output_error)
          else then_watch (get_result ret t))
      else then_watch (running t)

  -- `handleCmd`, case `NextResult`
  unfoldable pub cmd_next_result : WaitStatus → Connector l → Outcome l
  cmd_next_result status s =
      let (w, err, h) = l.next_result_cont s.handle status in
      let t = record s { wait = w; handle = h } in
      if is_zero w
      then (if err
          then (fatal (record t { exec = resting }) >>= output_error)
          else then_watch (start_store_result false t))
      else then_watch (running t)

  unfoldable pub handle_cmd : WaitStatus → Connector l → Outcome l
  unfolding cmd_real_query cmd_store_result cmd_next_result
  handle_cmd status s = elim s.exec [
    | real_query ↦ cmd_real_query status s
    | store_result ↦ cmd_store_result status s
    | next_result ↦ cmd_next_result status s
    | resting ↦ if is_zero s.wait then handle_closed s else running s
  ]

  unfoldable pub handle_event : Mask → Connector l → Outcome l
  unfolding handle_cmd continue_connect continue_set_character_set event_status
  handle_event revents s =
      let status = event_status revents s.wait in
      elim s.status [
        | connecting ↦ continue_connect status s
        | connected ↦ handle_cmd status s
        | setting_character_set ↦ continue_set_character_set status s
        | _ ↦ running s
      ]

  unfoldable pub handle_timeout : Connector l → Outcome l
  unfolding continue_connect continue_set_character_set
  handle_timeout s = elim s.status [
    | connecting ↦ continue_connect timed_out s
    | setting_character_set ↦ continue_set_character_set timed_out s
    | _ ↦ running s
  ]

  -- `startQuery`, on the text `sql_`
  unfoldable pub start_query : List ℕ → Connector l → Outcome l
  start_query sql s = assert s.has_handle s >>= λ s₁.
      let (w, err, h) = l.real_query_start s₁.handle sql in
      let t = record s₁ { wait = w; handle = h; exec = real_query } in
      if is_zero w
      then (if err
          then (fatal t >>= λ t₁. running (queue_in_loop output_error_task t₁))
          else start_store_result true t)
      else running t

  -- The end of `execSqlInLoop`, on `sql_`; `none` is the call of `abort` on an unknown type.
  unfoldable pub start_built : Option (List ℕ) → Connector l → Outcome l
  start_built none s = aborted s
  start_built (some text) s = start_query text s >>= λ t. running (set_event_dispatcher t)

  -- `execSqlInLoop`. A `Query` has as many lengths and formats as parameters, and a result callback.
  unfoldable pub exec_sql_in_loop : Query → Connector l → Outcome l
  unfolding start_built
  exec_sql_in_loop q s = do
    t ← assert (not s.working) s
    u ← assert (not (is_empty q.sql)) t
    start_built (build_sql (l.real_escape_string u.handle) q.parameters q.sql)
        (record u { callback = true; working = true; catches = q.catches })

  -- `execSql`, in the loop's thread or in another
  unfoldable pub exec_sql : Bool → Query → Connector l → Outcome l
  unfolding exec_sql_in_loop
  exec_sql in_loop_thread q s =
      if in_loop_thread then exec_sql_in_loop q s else running (queue_in_loop (exec_sql_task q) s)

  -- `batchSql`, which logs a FATAL message and exits.
  unfoldable pub batch_sql : Connector l → Outcome l
  batch_sql s = fatal s >>= aborted

  -- What `disconnect` runs in the loop.
  unfoldable pub disconnect : Connector l → Outcome l
  disconnect s =
      running (record s { status = bad; watch = none_event; in_loop = false; has_handle = false })

  unfoldable pub run_one : Task l → Connector l → Outcome l
  unfolding exec_sql_in_loop
  run_one output_error_task s = output_error s
  run_one (get_result_task ret) s = get_result ret s
  run_one (exec_sql_task q) s = exec_sql_in_loop q s

  unfoldable pub run_first : List (Task l) → Connector l → Outcome l
  unfolding run_one
  run_first [] s = running s
  run_first (t ∷ rest) s = run_one t (record s { tasks = rest })

  -- The loop takes the oldest function off its queue and runs it.
  unfoldable pub run_task : Connector l → Outcome l
  unfolding run_first
  run_task s = run_first s.tasks s

pub data Call : Type 0 where
  event : Mask → Call
  timeout task disconnects batch : Call
  exec : Bool → Query → Call

module _ {l : Libraries} where
  -- One thing that the loop, or a client, does to the connection.
  unfoldable pub step : Call → Connector l → Outcome l
  unfolding handle_event handle_timeout run_task exec_sql batch_sql disconnect
  step (event revents) s = handle_event revents s
  step timeout s = handle_timeout s
  step task s = run_task s
  step disconnects s = disconnect s
  step batch s = batch_sql s
  step (exec in_loop_thread q) s = exec_sql in_loop_thread q s

  -- A sequence of calls, up to the first that does not return.
  unfoldable pub run : List Call → Connector l → Outcome l
  run [] s = running s
  run (c ∷ cs) s = step c s >>= run cs
