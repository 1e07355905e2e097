-- ===== src/Event/Mask.antt =====
-- The `int` masks of poll events that event/EventDispatcher.cpp keeps and tests, bit by bit.
use mysql_connect_pool.Prelude.{ℕ, Bool, true, false, not, ◌||◌, ◌==◌}

-- An `int` of poll flags: the seven bits that the code names, and what the other bits make up.
pub record Mask : Type 0 where
  pub pollin : Bool
  pub pollpri : Bool
  pub pollout : Bool
  pub pollerr : Bool
  pub pollhup : Bool
  pub pollnval : Bool
  pub pollrdhup : Bool
  pub others : ℕ

-- `getKNoneEvent`
abbrev pub none_event : Mask
none_event = record {
  pollin = false;
  pollpri = false;
  pollout = false;
  pollerr = false;
  pollhup = false;
  pollnval = false;
  pollrdhup = false;
  others = 0;
}

-- `events_ == getKNoneEvent()`
unfoldable pub is_none_event : Mask → Bool
is_none_event e = not (
    e.pollin
    || e.pollpri
    || e.pollout
    || e.pollerr
    || e.pollhup
    || e.pollnval
    || e.pollrdhup
    || not (e.others == 0))

-- `events_ |= getKReadEvent()`, where `getKReadEvent()` is `POLLIN | POLLPRI`.
unfoldable pub add_read : Mask → Mask
add_read e = record e { pollin = true; pollpri = true }

-- `events_ &= ~getKReadEvent()`
unfoldable pub drop_read : Mask → Mask
drop_read e = record e { pollin = false; pollpri = false }

-- `events_ |= getKWriteEvent()`, where `getKWriteEvent()` is `POLLOUT`.
unfoldable pub add_write : Mask → Mask
add_write e = record e { pollout = true }

-- `events_ &= ~getKWriteEvent()`
unfoldable pub drop_write : Mask → Mask
drop_write e = record e { pollout = false }

-- `(events_ & getKReadEvent()) != 0`
unfoldable pub is_reading : Mask → Bool
is_reading e = e.pollin || e.pollpri

-- `(events_ & getKWriteEvent()) != 0`
unfoldable pub is_writing : Mask → Bool
is_writing e = e.pollout
