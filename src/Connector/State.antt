-- ===== src/Connector/State.antt =====
-- The state of a `MySQLConnector` (db/DbConnection.h and MySQLImpl/MySQLConnector.cpp), and the
-- client library that it drives.
use mysql_connect_pool.Prelude.{
  ℕ, Bool, false, not, ◌||◌, Option, List, [], ◌∷◌, ◌++◌, if◌then◌else◌,
}
use mysql_connect_pool.Connector.Sql.{Parameter}
use mysql_connect_pool.Event.Mask.{
  Mask, none_event, add_read, add_write, drop_write, is_reading, is_writing,
}

pub data ConnectStatus : Type 0 where
  unconnected connecting setting_character_set connected bad : ConnectStatus

-- `ExecStatus`; its `None` is `resting`.
pub data ExecStatus : Type 0 where
  resting real_query store_result next_result : ExecStatus

-- The mask of MYSQL_WAIT_READ, _WRITE, _EXCEPT and _TIMEOUT.
pub record WaitStatus : Type 0 where
  pub read : Bool
  pub write : Bool
  pub except : Bool
  pub timeout : Bool

-- `waitStatus_ == 0`
unfoldable pub is_zero : WaitStatus → Bool
is_zero w = not (w.read || w.write || w.except || w.timeout)

-- What the connector calls of the MariaDB client and of Abseil's log. A `_start` or `_cont` call
-- returns the wait status, what it stores behind its first argument, and the handle after it.
pub record Libraries : Type 1 where
  pub Handle : Type 0
  pub Res : Type 0
  pub real_connect_start : Handle → WaitStatus × Handle
  -- whether `mysql_get_socket` returns a descriptor
  pub has_socket : Handle → Bool
  pub real_connect_cont : Handle → WaitStatus → WaitStatus × Bool × Handle
  pub set_character_set_start : Handle → List ℕ → WaitStatus × Bool × Handle
  pub set_character_set_cont : Handle → WaitStatus → WaitStatus × Bool × Handle
  pub real_query_start : Handle → List ℕ → WaitStatus × Bool × Handle
  pub real_query_cont : Handle → WaitStatus → WaitStatus × Bool × Handle
  pub store_result_start : Handle → WaitStatus × Option Res × Handle
  pub store_result_cont : Handle → WaitStatus → WaitStatus × Option Res × Handle
  pub next_result_start : Handle → WaitStatus × Bool × Handle
  pub real_escape_string : Handle → List ℕ → List ℕ
  pub next_result_cont : Handle → WaitStatus → WaitStatus × Bool × Handle
  pub more_results : Handle → Bool
  pub mysql_errno : Handle → ℕ
  pub server_gone : ℕ
  pub server_lost : ℕ
  -- The results that the server has still to send: bounds the rounds of `getResult`.
  pub results_left : Handle → ℕ
  -- Whether `okCallback_` and `closeCallback_` were set before `init`.
  pub has_ok_callback : Bool
  pub has_close_callback : Bool
  -- Whether `ABSL_LOG(FATAL)` returns to its caller. It is documented to end the process.
  pub fatal_returns : Bool

-- What the connector hands to its surroundings: its callbacks, and the timer of `runAfter`.
pub data Notice (l : Libraries) : Type 0 where
  ok_callback close_callback idle_callback timer_started : Notice l
  result_callback : Option l.Res → Notice l
  exception_callback : Notice l

-- The arguments of `execSql`: the statement, its parameters, and whether the exception callback is
-- set. The three vectors of a parameter's value, length and format are one list here.
pub record Query : Type 0 where
  pub sql : List ℕ
  pub parameters : List Parameter
  pub catches : Bool

-- What is handed to `queueInLoop`.
pub data Task (l : Libraries) : Type 0 where
  output_error_task : Task l
  get_result_task : Option l.Res → Task l
  exec_sql_task : Query → Task l

pub record Connector (l : Libraries) : Type 0 where
  pub handle : l.Handle
  -- false once `disconnect` has reset `mysqlPtr_`
  pub has_handle : Bool
  pub wait : WaitStatus
  pub status : ConnectStatus
  pub exec : ExecStatus
  pub working : Bool
  -- whether `callback_` and `exceptionCallback_` are set
  pub callback : Bool
  pub catches : Bool
  pub character_set : List ℕ
  -- the events of the dispatcher, and whether it is in the loop
  pub watch : Mask
  pub in_loop : Bool
  -- newest first
  pub notices : List (Notice l)
  -- oldest first
  pub tasks : List (Task l)

-- How a handler ends: it returns; the process ends (a failed assertion, an exception that nothing
-- catches, `ABSL_LOG(FATAL)`); or the model's loop had no rounds left.
pub data Outcome (l : Libraries) : Type 0 where
  running aborted : Connector l → Outcome l
  stuck : Outcome l

infixl 5 ◌>>=◌
abbrev pub ◌>>=◌ : {l : Libraries} → Outcome l → (Connector l → Outcome l) → Outcome l
running s >>= f = f s
aborted s >>= f = aborted s
stuck >>= f = stuck

module _ {l : Libraries} where
  abbrev pub notify : Notice l → Connector l → Connector l
  notify n s = record s { notices = n ∷ s.notices }

  abbrev pub queue_in_loop : Task l → Connector l → Connector l
  queue_in_loop t s = record s { tasks = s.tasks ++ (t ∷ []) }

  -- `ABSL_LOG(FATAL) << …`
  abbrev pub fatal : Connector l → Outcome l
  fatal s = if l.fatal_returns then running s else aborted s

  -- `assert(b)`
  abbrev pub assert : Bool → Connector l → Outcome l
  assert b s = if b then running s else aborted s

  unfoldable pub watch_reading : Connector l → Connector l
  watch_reading s =
      if s.wait.read || s.wait.except
      then (if is_reading s.watch then s else record s { watch = add_read s.watch })
      else s

  unfoldable pub watch_writing : Connector l → Connector l
  watch_writing s =
      if s.wait.write
      then (if is_writing s.watch then s else record s { watch = add_write s.watch })
      else (if is_writing s.watch then record s { watch = drop_write s.watch } else s)

  unfoldable pub watch_timeout : Connector l → Connector l
  watch_timeout s = if s.wait.timeout then notify timer_started s else s

  unfoldable pub set_event_dispatcher : Connector l → Connector l
  unfolding watch_reading watch_writing watch_timeout
  set_event_dispatcher s = watch_timeout (watch_writing (watch_reading s))

  unfoldable pub handle_closed : Connector l → Outcome l
  handle_closed s = elim s.status [
    | bad ↦ running s
    | _ ↦
        assert l.has_close_callback (record s { status = bad; watch = none_event; in_loop = false })
        >>= λ t. running (notify close_callback t)
  ]
