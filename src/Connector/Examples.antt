-- ===== src/Connector/Examples.antt =====
-- The theorems on the connector, at a small server: it answers at once, every query has two results,
-- and the handle is the number of results that are left.
use mysql_connect_pool.Prelude.{
  ℕ, ◌-◌, ◌≤◌, ◌≡◌, ◌≢◌, refl, true, false, some, List, [], ◌∷◌, ◌++◌, arith, ltb,
}
use mysql_connect_pool.Event.Mask.{
  Mask, none_event, is_reading, is_writing, add_read, add_write, drop_write,
}
use mysql_connect_pool.Connector.State.{
  Libraries, Connector, WaitStatus, Outcome, running, aborted, stuck, Query, is_zero,
  set_event_dispatcher, watch_reading, watch_writing, watch_timeout, handle_closed,
}
use mysql_connect_pool.Connector.Sql.{
  mysql_null, decimal, to_string, find_char, parameter_text, put_parameter, put_parameters,
  append_rest, build_sql,
}
use mysql_connect_pool.Connector.Sql.Substitute.{substitute, build_sql-substitute}
use mysql_connect_pool.Connector.Results.{
  failed, connection_lost, give_up_query, output_error, store_with, next_with, get_with,
  store_rounds, start_store_result, get_result,
}
use mysql_connect_pool.Connector.Handlers.{
  event_status, constructed, init, start_set_character_set, continue_set_character_set,
  continue_connect, cmd_real_query, cmd_store_result, cmd_next_result, handle_cmd, handle_event,
  handle_timeout, start_query, start_built, exec_sql_in_loop, exec_sql, disconnect, run_one,
  run_first, run_task, Call, event, task, exec, step, run,
}
use mysql_connect_pool.Connector.Invariant.{rank, closed_count}
use mysql_connect_pool.Connector.History.{closed_count-run}
use mysql_connect_pool.Connector.Watched.{GoesOn, step-GoesOn}
use mysql_connect_pool.Connector.Delivery.{
  Sends, last, further, Delivered, start_store_result-Delivered,
}
use mysql_connect_pool.Connector.Termination.{CountsResults, step-ne-stuck}
use mysql_connect_pool.Connector.Silence.{Always, exceptions}
use mysql_connect_pool.Connector.Faults.{exceptions-run}

abbrev no_wait : WaitStatus
no_wait = record { read = false; write = false; except = false; timeout = false }

abbrev prompt : Libraries
prompt = record {
  Handle = ℕ;
  Res = ℕ;
  real_connect_start = λ h. (no_wait, h);
  has_socket = λ h. true;
  real_connect_cont = λ h w. (no_wait, true, h);
  set_character_set_start = λ h cs. (no_wait, false, h);
  set_character_set_cont = λ h w. (no_wait, false, h);
  real_query_start = λ h q. (no_wait, false, 2);
  real_query_cont = λ h w. (no_wait, false, 2);
  store_result_start = λ h. (no_wait, some h, h);
  store_result_cont = λ h w. (no_wait, some h, h);
  next_result_start = λ h. (no_wait, false, h - 1);
  real_escape_string = λ h s. s;
  next_result_cont = λ h w. (no_wait, false, h - 1);
  more_results = λ h. ltb 1 h;
  mysql_errno = λ h. 0;
  server_gone = 2006;
  server_lost = 2013;
  results_left = λ h. h;
  has_ok_callback = true;
  has_close_callback = true;
  fatal_returns = false;
}

prompt-CountsResults : CountsResults prompt
prompt-CountsResults = record { store_left = λ h. omega arith; next_left = λ h e. ground arith }

-- The state that a call leaves.
abbrev after : {l : Libraries} → Connector l → Outcome l → Connector l
after s (running t) = t
after s (aborted t) = s
after s stuck = s

abbrev fresh_connector : Connector prompt
fresh_connector = constructed prompt 0 []

abbrev readable : Mask
readable = record none_event { pollin = true }

abbrev select : Query
select = record { sql = b's' ∷ b' ' ∷ b'?' ∷ []; parameters = mysql_null ∷ []; catches = true }

abbrev connecting_connector : Connector prompt
unfolding init set_event_dispatcher watch_reading watch_writing watch_timeout is_zero is_reading
    is_writing add_read add_write drop_write handle_closed event_status continue_connect
    start_set_character_set continue_set_character_set cmd_real_query cmd_store_result
    cmd_next_result handle_cmd handle_event handle_timeout start_query start_built exec_sql_in_loop
    exec_sql disconnect run_one run_first run_task step run failed connection_lost give_up_query
    output_error store_with next_with get_with store_rounds start_store_result get_result decimal
    to_string find_char parameter_text put_parameter put_parameters append_rest build_sql
connecting_connector = after fresh_connector (init fresh_connector)

-- The connection is made; a query is sent.
abbrev sending : List Call
sending = event readable ∷ exec true select ∷ []

-- Its results are read; the socket has something to read although no query runs.
abbrev closing_down : List Call
closing_down = task ∷ event readable ∷ []

abbrev whole_story : List Call
whole_story = sending ++ closing_down

abbrev busy_connector : Connector prompt
unfolding init set_event_dispatcher watch_reading watch_writing watch_timeout is_zero is_reading
    is_writing add_read add_write drop_write handle_closed event_status continue_connect
    start_set_character_set continue_set_character_set cmd_real_query cmd_store_result
    cmd_next_result handle_cmd handle_event handle_timeout start_query start_built exec_sql_in_loop
    exec_sql disconnect run_one run_first run_task step run failed connection_lost give_up_query
    output_error store_with next_with get_with store_rounds start_store_result get_result decimal
    to_string find_char parameter_text put_parameter put_parameters append_rest build_sql
busy_connector = after fresh_connector (run sending connecting_connector)

abbrev closed_connector : Connector prompt
unfolding init set_event_dispatcher watch_reading watch_writing watch_timeout is_zero is_reading
    is_writing add_read add_write drop_write handle_closed event_status continue_connect
    start_set_character_set continue_set_character_set cmd_real_query cmd_store_result
    cmd_next_result handle_cmd handle_event handle_timeout start_query start_built exec_sql_in_loop
    exec_sql disconnect run_one run_first run_task step run failed connection_lost give_up_query
    output_error store_with next_with get_with store_rounds start_store_result get_result decimal
    to_string find_char parameter_text put_parameter put_parameters append_rest build_sql
closed_connector = after fresh_connector (run closing_down busy_connector)

-- A server that lets the client wait for the answer to a query.
abbrev slow : Libraries
slow = record prompt {
  real_query_start = λ h sql. (record no_wait { read = true; write = true }, false, h);
}

abbrev fresh_slow : Connector slow
fresh_slow = constructed slow 0 []

abbrev connecting_slow : Connector slow
unfolding init set_event_dispatcher watch_reading watch_writing watch_timeout is_zero is_reading
    is_writing add_read add_write drop_write handle_closed event_status continue_connect
    start_set_character_set continue_set_character_set cmd_real_query cmd_store_result
    cmd_next_result handle_cmd handle_event handle_timeout start_query start_built exec_sql_in_loop
    exec_sql disconnect run_one run_first run_task step run failed connection_lost give_up_query
    output_error store_with next_with get_with store_rounds start_store_result get_result decimal
    to_string find_char parameter_text put_parameter put_parameters append_rest build_sql
connecting_slow = after fresh_slow (init fresh_slow)

abbrev connected_slow : Connector slow
unfolding init set_event_dispatcher watch_reading watch_writing watch_timeout is_zero is_reading
    is_writing add_read add_write drop_write handle_closed event_status continue_connect
    start_set_character_set continue_set_character_set cmd_real_query cmd_store_result
    cmd_next_result handle_cmd handle_event handle_timeout start_query start_built exec_sql_in_loop
    exec_sql disconnect run_one run_first run_task step run failed connection_lost give_up_query
    output_error store_with next_with get_with store_rounds start_store_result get_result decimal
    to_string find_char parameter_text put_parameter put_parameters append_rest build_sql
connected_slow = after fresh_slow (run (event readable ∷ []) connecting_slow)

abbrev waiting_slow : Connector slow
unfolding init set_event_dispatcher watch_reading watch_writing watch_timeout is_zero is_reading
    is_writing add_read add_write drop_write handle_closed event_status continue_connect
    start_set_character_set continue_set_character_set cmd_real_query cmd_store_result
    cmd_next_result handle_cmd handle_event handle_timeout start_query start_built exec_sql_in_loop
    exec_sql disconnect run_one run_first run_task step run failed connection_lost give_up_query
    output_error store_with next_with get_with store_rounds start_store_result get_result decimal
    to_string find_char parameter_text put_parameter put_parameters append_rest build_sql
waiting_slow = after fresh_slow (step (exec true select) connected_slow)

step-GoesOn_example : GoesOn (exec true select) waiting_slow
unfolding init set_event_dispatcher watch_reading watch_writing watch_timeout is_zero is_reading
    is_writing add_read add_write drop_write handle_closed event_status continue_connect
    start_set_character_set continue_set_character_set cmd_real_query cmd_store_result
    cmd_next_result handle_cmd handle_event handle_timeout start_query start_built exec_sql_in_loop
    exec_sql disconnect run_one run_first run_task step run failed connection_lost give_up_query
    output_error store_with next_with get_with store_rounds start_store_result get_result decimal
    to_string find_char parameter_text put_parameter put_parameters append_rest build_sql
step-GoesOn_example =
    step-GoesOn slow 0 [] (event readable ∷ []) (exec true select) connecting_slow connected_slow
      waiting_slow refl refl (tt, tt) refl (omega arith) refl refl (λ e. cc)

-- The answer is not there yet, and the dispatcher waits for it.
waiting_slow-tasks : waiting_slow.tasks ≡ []
unfolding init set_event_dispatcher watch_reading watch_writing watch_timeout is_zero is_reading
    is_writing add_read add_write drop_write handle_closed event_status continue_connect
    start_set_character_set continue_set_character_set cmd_real_query cmd_store_result
    cmd_next_result handle_cmd handle_event handle_timeout start_query start_built exec_sql_in_loop
    exec_sql disconnect run_one run_first run_task step run failed connection_lost give_up_query
    output_error store_with next_with get_with store_rounds start_store_result get_result decimal
    to_string find_char parameter_text put_parameter put_parameters append_rest build_sql
waiting_slow-tasks = refl

closed_count-run_example :
    (closed_count closed_connector.notices ≤ 1)
    × (rank busy_connector.status ≤ rank closed_connector.status)
unfolding init set_event_dispatcher watch_reading watch_writing watch_timeout is_zero is_reading
    is_writing add_read add_write drop_write handle_closed event_status continue_connect
    start_set_character_set continue_set_character_set cmd_real_query cmd_store_result
    cmd_next_result handle_cmd handle_event handle_timeout start_query start_built exec_sql_in_loop
    exec_sql disconnect run_one run_first run_task step run failed connection_lost give_up_query
    output_error store_with next_with get_with store_rounds start_store_result get_result decimal
    to_string find_char parameter_text put_parameter put_parameters append_rest build_sql
closed_count-run_example =
    closed_count-run prompt 0 [] sending closing_down connecting_connector busy_connector
      closed_connector refl refl (tt, (omega arith, tt)) refl (tt, (tt, tt)) refl

prompt-Sends : Sends prompt 2 (some 2 ∷ some 1 ∷ []) 1
unfolding is_zero failed
prompt-Sends = further 2 refl refl refl refl refl (last 1 refl refl refl)

abbrev working_connector : Connector prompt
working_connector = record fresh_connector { handle = 2; working = true }

start_store_result-Delivered_example :
    Delivered prompt working_connector
      (some 2 ∷ some 1 ∷ [])
      1
      (start_store_result false working_connector)
start_store_result-Delivered_example =
    start_store_result-Delivered prompt prompt-CountsResults working_connector 1
      (some 2 ∷ some 1 ∷ []) prompt-Sends refl refl refl

step-ne-stuck_example : step (exec true select) closed_connector ≢ stuck
step-ne-stuck_example = step-ne-stuck prompt-CountsResults (exec true select) closed_connector

exceptions-run_example :
    Always
      (λ t. exceptions t.notices ≡ exceptions connecting_connector.notices)
      (run whole_story connecting_connector)
exceptions-run_example = exceptions-run refl whole_story connecting_connector

build_sql-substitute_example :
    build_sql (λ s. s) (mysql_null ∷ []) select.sql
    ≡ substitute (λ s. s) (mysql_null ∷ []) select.sql
build_sql-substitute_example = build_sql-substitute (λ s. s) (mysql_null ∷ []) select.sql
