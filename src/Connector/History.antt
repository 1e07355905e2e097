-- ===== src/Connector/History.antt =====
-- The life of a connection, from `init` on.
use mysql_connect_pool.Prelude.{ℕ, ◌≤◌, ◌≡◌, true, List, [], ◌∷◌, arith}
use mysql_connect_pool.Connector.State.{
  Libraries, Connector, Outcome, running, aborted, stuck, ◌>>=◌, set_event_dispatcher, connecting,
  ConnectStatus,
}
use mysql_connect_pool.Connector.Handlers.{Call, constructed, init, step, run}
use mysql_connect_pool.Connector.Invariant.{
  rank, closed_count, IsSound, Good, Ensures, closings, IsSame-Good, set_event_dispatcher-IsSame,
}
use mysql_connect_pool.Connector.Invariant.Steps.{IsAllowed, step-Good}

closings-le : (st : ConnectStatus) → closings st ≤ 1
closings-le st = ground arith

module _ {l : Libraries} where
  -- Each query is handed over when the connection has been made.
  abbrev pub AllAllowed : List Call → Connector l → Type 0
  AllAllowed [] s = Unit
  AllAllowed (c ∷ cs) s = IsAllowed c s × Ensures (AllAllowed cs) (step c s)

  then_run-Good :
      (s : Connector l) (o : Outcome l) (cs : List Call)
      → Ensures (Good s) o
      → Ensures (AllAllowed cs) o
      → ((t : Connector l) → IsSound t → AllAllowed cs t → Ensures (Good t) (run cs t))
      → Ensures (Good s) (o >>= run cs)
  then_run-Good s (running t) cs g a h = onward (run cs t) (h t g.sound a)
    where
      onward : (o : Outcome l) → Ensures (Good t) o → Ensures (Good s) o
      onward (running u) k = record { sound = k.sound; forward = omega arith }
      onward (aborted u) k = tt
      onward stuck k = tt
  then_run-Good s (aborted t) cs g a h = tt
  then_run-Good s stuck cs g a h = tt

  pub run-Good :
      (cs : List Call) (s : Connector l) → IsSound s → AllAllowed cs s → Ensures (Good s) (run cs s)
  unfolding run
  run-Good [] s v a = record { sound = v; forward = omega arith }
  run-Good (c ∷ cs) s v a = then_run-Good s (step c s) cs (step-Good c s v a.0) a.1 (run-Good cs)

module _ (l : Libraries) where
  init-Ensures :
      (h : l.Handle) (character_set : List ℕ)
      → Ensures (λ s. s.in_loop ≡ true → IsSound s) (init (constructed l h character_set))
  unfolding init
  init-Ensures h character_set =
      let (w, k) = l.real_connect_start h in
      let t = record (constructed l h character_set) {
        status = connecting;
        wait = w;
        handle = k;
        in_loop = true;
      } in
      ground (arith, IsSame-Good t t (set_event_dispatcher t) (set_event_dispatcher-IsSame t))

  pub init-IsSound :
      (h : l.Handle) (character_set : List ℕ) (s : Connector l)
      → init (constructed l h character_set) ≡ running s
      → s.in_loop ≡ true
      → IsSound s
  init-IsSound h character_set s e = rw e at (init-Ensures h character_set)

  -- A connection that `init` has put into the loop calls its close callback at most once, and its
  -- status only moves on, from connecting, by way of setting the character set, to connected, and
  -- from each of these to bad, whatever events, timeouts, queued functions, queries and disconnects
  -- follow, if no query is handed over before the connection is made.
  pub closed_count-run :
      (h : l.Handle) (character_set : List ℕ) (cs ds : List Call) (s t u : Connector l)
      → init (constructed l h character_set) ≡ running s
      → s.in_loop ≡ true
      → AllAllowed cs s
      → run cs s ≡ running t
      → AllAllowed ds t
      → run ds t ≡ running u
      → (closed_count u.notices ≤ 1) × (rank t.status ≤ rank u.status)
  closed_count-run h character_set cs ds s t u e i a r b q =
      let first = (rw r at (run-Good cs s (init-IsSound h character_set s e i) a)).sound in
      let then = rw q at (run-Good ds t first b) in
      (omega (arith, then.sound.stable.closed_once, closings-le u.status), then.forward)
