-- ===== src/Db/Connection.antt =====
-- db/DbConnection.h: the base class of a connection, its callbacks and the command `SqlCmd`. A
-- callback is a value of any type `F`, an event loop a number.
use mysql_connect_pool.Prelude.{ℕ, ◌≡◌, refl, Bool, false, Option, none, some, List, [], ◌∷◌}
use mysql_connect_pool.Connector.State.{ConnectStatus, unconnected}

-- A callback: a default that logs a warning or does nothing, or one that was set.
pub data Callback (F : Type 0) : Type 0 where
  warns silent : Callback F
  calls : F → Callback F

pub record DbConnection (F : Type 0) : Type 0 where
  pub query_callback : Callback F
  pub loop : ℕ
  pub idle_callback : Callback F
  pub status : ConnectStatus
  pub close_callback : Callback F
  pub ok_callback : Callback F
  pub exception_callback : Callback F
  pub is_working : Bool

-- A command; its parameters point to bytes that it does not own.
pub record SqlCmd (F : Type 0) : Type 0 where
  pub sql : List ℕ
  pub parameters_number : ℕ
  pub parameters : List (Option (List ℕ))
  pub lengths : List ℕ
  pub formats : List ℕ
  pub callback : F
  pub exception_callback : F
  pub preparing_statement : List ℕ
  pub is_changing : Bool

-- `setOkCallback`, `setCloseCallback` and `setIdleCallback`, called with a callback.
pub data Setting (F : Type 0) : Type 0 where
  ok_to close_to idle_to : F → Setting F

module _ {F : Type 0} where
  -- The constructor; for a null loop it throws `std::runtime_error`.
  unfoldable pub make_db_connection : Option ℕ → Option (DbConnection F)
  make_db_connection none = none
  make_db_connection (some loop) = some (record {
    query_callback = warns;
    loop = loop;
    idle_callback = warns;
    status = unconnected;
    close_callback = silent;
    ok_callback = warns;
    exception_callback = warns;
    is_working = false;
  })

  unfoldable pub make_sql_cmd :
      List ℕ → ℕ → List (Option (List ℕ)) → (length format : List ℕ) → (cb except_cb : F) → SqlCmd F
  make_sql_cmd sql para_num parameters length format cb except_cb = record {
    sql = sql;
    parameters_number = para_num;
    parameters = parameters;
    lengths = length;
    formats = format;
    callback = cb;
    exception_callback = except_cb;
    preparing_statement = [];
    is_changing = false;
  }

  unfoldable pub set_callback : Setting F → DbConnection F → DbConnection F
  set_callback (ok_to f) c = record c { ok_callback = calls f }
  set_callback (close_to f) c = record c { close_callback = calls f }
  set_callback (idle_to f) c = record c { idle_callback = calls f }

  unfoldable pub set_callbacks : List (Setting F) → DbConnection F → DbConnection F
  unfolding set_callback
  set_callbacks [] c = c
  set_callbacks (s ∷ rest) c = set_callbacks rest (set_callback s c)

  -- The callback for each of the three that some settings leave.
  last_ok : List (Setting F) → Callback F → Callback F
  last_ok [] before = before
  last_ok (ok_to f ∷ rest) before = last_ok rest (calls f)
  last_ok (s ∷ rest) before = last_ok rest before

  last_close : List (Setting F) → Callback F → Callback F
  last_close [] before = before
  last_close (close_to f ∷ rest) before = last_close rest (calls f)
  last_close (s ∷ rest) before = last_close rest before

  last_idle : List (Setting F) → Callback F → Callback F
  last_idle [] before = before
  last_idle (idle_to f ∷ rest) before = last_idle rest (calls f)
  last_idle (s ∷ rest) before = last_idle rest before

  -- Each of the three callbacks is the one that was set last, or the one before; the loop, the status
  -- and the other callbacks stay.
  set_callbacks-last :
      (settings : List (Setting F)) (c : DbConnection F)
      → set_callbacks settings c ≡ record c {
        ok_callback = last_ok settings c.ok_callback;
        close_callback = last_close settings c.close_callback;
        idle_callback = last_idle settings c.idle_callback;
      }
  unfolding set_callbacks last_ok last_close last_idle
  set_callbacks-last [] c = refl
  set_callbacks-last (ok_to f ∷ rest) c = set_callbacks-last rest (set_callback (ok_to f) c)
  set_callbacks-last (close_to f ∷ rest) c = set_callbacks-last rest (set_callback (close_to f) c)
  set_callbacks-last (idle_to f ∷ rest) c = set_callbacks-last rest (set_callback (idle_to f) c)
