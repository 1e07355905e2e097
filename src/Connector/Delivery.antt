-- ===== src/Connector/Delivery.antt =====
-- What a query delivers when its results are there at once.
use mysql_connect_pool.Prelude.{
  ℕ, zero, suc, ◌≤◌, ◌≡◌, refl, ◌∙◌, true, false, Option, List, [], ◌∷◌, arith, length,
}
use mysql_connect_pool.Connector.State.{
  Libraries, Connector, Notice, Outcome, running, resting, next_result, is_zero, idle_callback,
  result_callback, notify,
}
use mysql_connect_pool.Connector.Results.{
  failed, store_with, next_with, get_with, store_rounds, start_store_result,
}
use mysql_connect_pool.Connector.Termination.{CountsResults}

module _ (l : Libraries) where
  -- The server sends these results, at once and with no error, and ends in the state `k`. An
  -- absent result is that of a statement that returns no rows.
  pub data Sends : l.Handle → List (Option l.Res) → l.Handle → Type 0 where
    last :
        (h : l.Handle)
        → is_zero (l.store_result_start h).0 ≡ true
        → failed l (l.store_result_start h).1 (l.store_result_start h).2 ≡ false
        → l.more_results (l.store_result_start h).2 ≡ false
        → Sends h ((l.store_result_start h).1 ∷ []) (l.store_result_start h).2
    further :
        (h : l.Handle) {k : l.Handle} {rs : List (Option l.Res)}
        → is_zero (l.store_result_start h).0 ≡ true
        → failed l (l.store_result_start h).1 (l.store_result_start h).2 ≡ false
        → l.more_results (l.store_result_start h).2 ≡ true
        → is_zero (l.next_result_start (l.store_result_start h).2).0 ≡ true
        → (l.next_result_start (l.store_result_start h).2).1 ≡ false
        → Sends (l.next_result_start (l.store_result_start h).2).2 rs k
        → Sends h ((l.store_result_start h).1 ∷ rs) k

  -- The notices after these results, newest first.
  abbrev pub after_results : List (Option l.Res) → List (Notice l) → List (Notice l)
  after_results [] ns = idle_callback ∷ ns
  after_results (r ∷ rs) ns = after_results rs (result_callback r ∷ ns)

  pub record Delivered (s : Connector l) (rs : List (Option l.Res)) (k : l.Handle) (o : Outcome l)
      : Type 0 where
    pub final : Connector l
    pub returns : o ≡ running final
    pub notices_are : final.notices ≡ after_results rs s.notices
    pub idle : final.working ≡ false
    pub cleared : (final.callback ≡ false) × (final.catches ≡ false)
    pub resting_after : final.exec ≡ resting
    pub handle_is : final.handle ≡ k
    pub status_is : final.status ≡ s.status

  Sends-left :
      CountsResults l
      → (h k : l.Handle) (rs : List (Option l.Res)) → Sends h rs k
      → length rs ≤ suc (l.results_left h)
  Sends-left c h k rs (last _ z f m) = omega arith
  Sends-left c h k rs (further _ z f m y e t) =
      omega (arith, c.store_left h, c.next_left (l.store_result_start h).2 m, Sends-left c _ _ _ t)

  -- The connection after the first result.
  abbrev one_read : Connector l → l.Handle → Connector l
  one_read s h =
      let (w, r, k) = l.store_result_start h in
      notify (result_callback r) (record s { exec = resting; wait = w; handle = k })

  abbrev all_read : Connector l → l.Handle → Connector l
  all_read s h =
      notify idle_callback
        (record (one_read s h) { callback = false; catches = false; working = false })

  abbrev next_started : Connector l → l.Handle → Connector l
  next_started s h =
      let (w, x, k) = l.next_result_start (l.store_result_start h).2 in
      record (one_read s h) { exec = next_result; wait = w; handle = k }

  module _ (store : Connector l → Outcome l) (s : Connector l) (h : l.Handle) (e : s.handle ≡ h)
      (z : is_zero (l.store_result_start h).0 ≡ true)
      (f : failed l (l.store_result_start h).1 (l.store_result_start h).2 ≡ false)
      (a : s.has_handle ≡ true) (w : s.working ≡ true) (c : s.callback ≡ true) where
    last_round :
        l.more_results (l.store_result_start h).2 ≡ false
        → store_with (get_with store) false s ≡ running (all_read s h)
    unfolding store_with get_with next_with
    last_round m = ground arith

    further_round :
        l.more_results (l.store_result_start h).2 ≡ true
        → is_zero (l.next_result_start (l.store_result_start h).2).0 ≡ true
        → (l.next_result_start (l.store_result_start h).2).1 ≡ false
        → store_with (get_with store) false s ≡ store (next_started s h)
    unfolding store_with get_with next_with
    further_round m y x = ground arith

  store_rounds-Delivered :
      (n : ℕ) (s : Connector l) (h k : l.Handle) (rs : List (Option l.Res))
      → s.handle ≡ h
      → Sends h rs k
      → length rs ≤ n
      → s.has_handle ≡ true
      → s.working ≡ true
      → s.callback ≡ true
      → Delivered s rs k (store_rounds n s)
  unfolding store_rounds
  store_rounds-Delivered zero s h k rs e (last _ z f m) b a w c = absurd (omega arith)
  store_rounds-Delivered zero s h k rs e (further _ z f m y x t) b a w c = absurd (omega arith)
  store_rounds-Delivered (suc n) s h k rs e (last _ z f m) b a w c = record {
    final = all_read s h;
    returns = last_round (store_rounds n) s h e z f a w c m;
    notices_are = refl;
    idle = refl;
    cleared = (refl, refl);
    resting_after = refl;
    handle_is = refl;
    status_is = refl;
  }
  store_rounds-Delivered (suc n) s h k rs e (further _ z f m y x t) b a w c =
      let rest = store_rounds-Delivered n (next_started s h) _ k _ refl t (omega arith) a w c in
      record {
        final = rest.final;
        returns = further_round (store_rounds n) s h e z f a w c m y x ∙ rest.returns;
        notices_are = rest.notices_are;
        idle = rest.idle;
        cleared = rest.cleared;
        resting_after = rest.resting_after;
        handle_is = rest.handle_is;
        status_is = rest.status_is;
      }

  -- If the results of a query are there at once, with no error, `startStoreResult(false)` hands each
  -- to the result callback once, in the server's order, then clears the query and calls the idle
  -- callback once. Here the query runs, its callback is set, and the results are counted down as
  -- `CountsResults` says.
  pub start_store_result-Delivered :
      (c : CountsResults l) (s : Connector l) (k : l.Handle) (rs : List (Option l.Res))
      → Sends s.handle rs k
      → s.has_handle ≡ true
      → s.working ≡ true
      → s.callback ≡ true
      → Delivered s rs k (start_store_result false s)
  unfolding start_store_result store_rounds
  start_store_result-Delivered c s k rs t =
      store_rounds-Delivered (suc (l.results_left s.handle)) s s.handle k rs refl t
        (Sends-left c s.handle k rs t)
