-- ===== src/Server/Stop.antt =====
-- What `Stop` brings about, with the moves of other goroutines in between.
use gb32960_go_sdk.Base.{
  ℕ, ◌≡◌, refl, sym, ap, ◌∙◌, true, false, ◌⊎◌, inl, inr, List, [], ◌∷◌, none, some, get_elem?, All,
  Bool-cases,
}
use gb32960_go_sdk.VinRegistry.Keys.{bytes_eq, bytes_eq_iff, bytes_eq_refl}
use gb32960_go_sdk.Connection.{Env}
use gb32960_go_sdk.Connection.Lifetime.{knows}
use gb32960_go_sdk.Server.Pool.{
  Settings, Slot, Pool, focus, close_conn, Move, closes, stops, perform, perform_all, stop, load,
  get_connection,
}
use gb32960_go_sdk.Server.Slots.{get_elem?-set_at, one_slot}
use gb32960_go_sdk.Server.Outcome.{Finishes, Finishes-bind, Finishes-both, Finishes-map}
use gb32960_go_sdk.Server.Moves.{Steady, perform-Steady}
use gb32960_go_sdk.Server.Unread.{is_closed-close}
use gb32960_go_sdk.Server.Shut.{ClosedAt, ShutAt, ShutAt-Steady}
use gb32960_go_sdk.Server.Sound.{Entries, HasEntry, IsPool}
use gb32960_go_sdk.Server.PutBack.{
  set_at-HasEntry, All-map, fewer-knows, put_back-IsPool, PutsBack, puts_closed, puts_written,
  puts_read,
}

known_shut :
    (k : List ℕ) (m m' : Entries)
    → knows k m ≡ true
    → All (λ e. knows e.0 m' ≡ false) m
    → knows k m' ≡ false
unfolding knows
known_shut k [] m' e h = cc
known_shut k ((id, c) ∷ m) m' e h = elim (Bool-cases (bytes_eq id k)) [
  | inl same ↦ ap (λ i. knows i m') (sym ((bytes_eq_iff id k).0 same)) ∙ h.0
  | inr other ↦ known_shut k m m' (rw other at e) h.1
]

nothing_known : (m : Entries) → ((k : List ℕ) → knows k m ≡ false) → m ≡ []
unfolding knows
nothing_known [] h = refl
nothing_known ((k, c) ∷ m) h = cc (rw (bytes_eq_refl k) at (h k))

-- Some moves close connection `i`.
abbrev pub Closes : ℕ → List Move → Type 0
Closes i [] = ⊥
Closes i (m ∷ ms) = (m ≡ closes i) ⊎ Closes i ms

module _ (st : Settings) (env : Env) where
  -- While the server stops: `m` has the entries of the map when it began, and no others come in.
  abbrev pub Stopping : Entries → Pool → Type 0
  Stopping m p =
      IsPool st p
      × (p.stopped ≡ true)
      × (p.accepted ≡ none)
      × All (HasEntry p.slots) m
      × ((k : List ℕ) → knows k m ≡ false → knows k p.server.connections ≡ false)

  Stopping-PutsBack : (m : Entries) → PutsBack st (Stopping m)
  Stopping-PutsBack m = record {
    sound = λ p q. q.0;
    puts = λ p i l s w q e t v. (
      put_back-IsPool st p i l s w q.0 e t v,
      q.1,
      q.2,
      All-map (HasEntry p.slots) _ m (λ en h. set_at-HasEntry i s _ p.slots en e t.sound.same_id h)
          q.3,
      λ k n. fewer-knows k s.conn.id p.server.connections w.server.connections t.fewer (q.4 k n),
    );
  }

  Stopping-Steady : (m : Entries) → Steady st env (λ mv p. Unit {0}) (Stopping m)
  Stopping-Steady m = record {
    on_accept = λ p id q a up. cc (q.1, up);
    on_refuse = λ p q. (q.0, q.1, refl, q.3, q.4);
    on_store = λ p id q a e free. cc (q.2, e);
    on_sleep = λ p x q awake. q;
    on_wake = λ p q a. q;
    on_clock = λ p n q. q;
    on_stop = λ p q. (q.0, refl, q.2, q.3, q.4);
    on_close = puts_closed st env (Stopping m) (Stopping-PutsBack m);
    on_write = puts_written st env (Stopping m) (Stopping-PutsBack m);
    on_bytes = λ p i s input q a e live.
        puts_read st env (Stopping m) (Stopping-PutsBack m) p i s input q e;
  }

  perform-Stopping :
      (m : Entries) (mv : Move) (p : Pool)
      → Stopping m p
      → Finishes (Stopping m) (perform st env mv p)
  perform-Stopping m mv p q =
      perform-Steady st env (λ mv p. Unit {0}) (Stopping m) (Stopping-Steady m) mv p tt q

  -- In a well-formed pool a closed connection reads no more.
  perform-ClosedAt :
      (i : ℕ) (mv : Move) (p : Pool)
      → IsPool st p
      → ClosedAt i p
      → Finishes (ClosedAt i) (perform st env mv p)
  perform-ClosedAt i mv p h c =
      Finishes-map (ShutAt i) (ClosedAt i) (perform st env mv p)
        (perform-Steady st env (λ mv p. IsPool st p) (ShutAt i)
          (ShutAt-Steady st env (λ mv p. IsPool st p) i
            λ p j input s h c e live here.
              let e' : get_elem? p.slots i ≡ some s = rw here at e in
              let one : c.0 ≡ s = one_slot i c.0 s p.slots c.1 e' in
              cc (rw one at (h.done i c.0 c.1 c.2), live))
          mv p h (h.valid, c))
        (λ p k. k.1)

  all-Stopping :
      (m : Entries) (ms : List Move) (p : Pool)
      → Stopping m p
      → Finishes (Stopping m) (perform_all st env ms p)
  unfolding perform_all
  all-Stopping m [] p q = q
  all-Stopping m (mv ∷ ms) p q =
      Finishes-bind (Stopping m) (Stopping m) (perform st env mv p) (perform_all st env ms)
        (perform-Stopping m mv p q) (λ p' q'. all-Stopping m ms p' q')

  all-ClosedAt :
      (m : Entries) (i : ℕ) (ms : List Move) (p : Pool)
      → Stopping m p
      → ClosedAt i p
      → Finishes (ClosedAt i) (perform_all st env ms p)
  unfolding perform_all
  all-ClosedAt m i [] p q c = c
  all-ClosedAt m i (mv ∷ ms) p q c =
      Finishes-bind (λ p. Stopping m p × ClosedAt i p) (ClosedAt i) (perform st env mv p)
        (perform_all st env ms)
        (Finishes-both (Stopping m) (ClosedAt i) (perform st env mv p) (perform-Stopping m mv p q)
          (perform-ClosedAt i mv p q.0 c))
        (λ p' h. all-ClosedAt m i ms p' h.0 h.1)

  closes_it :
      (i : ℕ) (p : Pool) (s : Slot) → get_elem? p.slots i ≡ some s → ClosedAt i (close_conn i p)
  unfolding close_conn
  closes_it i p s e =
      rw (e, close_conn) (_, get_elem?-set_at i s _ p.slots e, is_closed-close (focus p s))

  closing-ClosedAt :
      (m : Entries) (i : ℕ) (ms : List Move) (p : Pool)
      → ((p : Pool) → Stopping m p → (s : Slot) × (get_elem? p.slots i ≡ some s))
      → Stopping m p
      → Closes i ms
      → Finishes (ClosedAt i) (perform_all st env ms p)
  unfolding perform_all perform
  closing-ClosedAt m i [] p pick q c = absurd c
  closing-ClosedAt m i (mv ∷ ms) p pick q (inl here) =
      let (s, e) = pick p q in
      rw here (
        all-ClosedAt m i ms (close_conn i p) (perform-Stopping m (closes i) p q)
          (closes_it i p s e))
  closing-ClosedAt m i (mv ∷ ms) p pick q (inr later) =
      Finishes-bind (Stopping m) (ClosedAt i) (perform st env mv p) (perform_all st env ms)
        (perform-Stopping m mv p q) (λ p' q'. closing-ClosedAt m i ms p' pick q' later)

  all_entries :
      (m es : Entries) (ms : List Move) (p : Pool)
      → ((p : Pool) → Stopping m p → All (HasEntry p.slots) es)
      → Stopping m p
      → All (λ e. Closes e.1 ms) es
      → Finishes (λ p'. Stopping m p' × All (λ e. ClosedAt e.1 p') es) (perform_all st env ms p)
  all_entries m [] ms p pick q c =
      Finishes-map (Stopping m) _ (perform_all st env ms p) (all-Stopping m ms p q)
        (λ p' h. (h, tt))
  all_entries m (e ∷ es) ms p pick q c =
      let here = closing-ClosedAt m e.1 ms p (λ p q. let h = (pick p q).0 in (h.0, h.1)) q c.0 in
      let rest = all_entries m es ms p (λ p q. (pick p q).1) q c.1 in
      Finishes-map _ _ (perform_all st env ms p)
        (Finishes-both (ClosedAt e.1) _ (perform_all st env ms p) here rest)
        (λ p' h. (h.1.0, (h.0, h.1.1)))

  forgotten_entries :
      (p : Pool) (es : Entries)
      → IsPool st p
      → All (HasEntry p.slots) es
      → All (λ e. ClosedAt e.1 p) es
      → All (λ e. knows e.0 p.server.connections ≡ false) es
  forgotten_entries p [] h has c = tt
  forgotten_entries p (e ∷ es) h has c =
      let (s, at, same) = has.0 in
      let (t, at', shut) = c.0 in
      let one : t ≡ s = one_slot e.1 t s p.slots at' at in
      (
        ap (λ k. knows k p.server.connections) (sym (ap (λ u. u.conn.id) one ∙ same))
            ∙ h.forgotten e.1 t at' shut,
        forgotten_entries p es h has.1 c.1,
      )

  emptied :
      (m : Entries) (p : Pool)
      → Stopping m p
      → All (λ e. ClosedAt e.1 p) m
      → p.server.connections ≡ []
  emptied m p q c = nothing_known p.server.connections λ k. elim (Bool-cases (knows k m)) [
    | inl known ↦ known_shut k m p.server.connections known (forgotten_entries p m q.0 q.3 c)
    | inr unknown ↦ q.4 k unknown
  ]

  -- What is left when `Stop` has closed the connections of the entries `m`: they are closed, the map is
  -- empty, no id finds a connection, and no moves that follow, whatever they are, put a connection in it.
  pub record IsStopped (m : Entries) (p : Pool) : Type 0 where
    pub all_closed : All (λ e. ClosedAt e.1 p) m
    pub empty : p.server.connections ≡ []
    pub finds_none : (id : List ℕ) → get_connection id p ≡ none
    pub stays_empty :
        (ms : List Move) → Finishes (λ p'. p'.server.connections ≡ []) (perform_all st env ms p)

  -- `Stop`, and with it moves of all other goroutines in any order. The server is in a well-formed state
  -- and the loop of `Start` has no connection in its hands that is not stored yet. `Stop` begins, and
  -- every connection that is in the map at that time is closed by one of the moves that follow; reads,
  -- attempts to accept, closings and steps of the idle check come in between. If no bytes make the
  -- process panic, then all these connections are closed afterwards, the map of connections is empty, so
  -- that `GetConnection` finds none, and it stays empty whatever follows.
  pub perform_all-IsStopped :
      (p : Pool) (ms : List Move)
      → IsPool st p
      → p.accepted ≡ none
      → All (λ e. Closes e.1 ms) p.server.connections
      → Finishes (IsStopped p.server.connections) (perform_all st env (stops ∷ ms) p)
  unfolding perform_all perform stop get_connection load
  perform_all-IsStopped p ms h idle c =
      let m = p.server.connections in
      let q : Stopping m (record p { stopped = true }) = (h, refl, idle, h.entries, λ k n. n) in
      Finishes-map _ _ (perform_all st env ms (record p { stopped = true }))
        (all_entries m m ms (record p { stopped = true }) (λ p q. q.3) q c)
        λ p' (s, shut).
          let none_left = emptied m p' s shut in
          record {
            all_closed = shut;
            empty = none_left;
            finds_none = λ id. ap (load id) none_left;
            stays_empty = λ ms'.
                Finishes-map (Stopping []) _ (perform_all st env ms' p')
                  (all-Stopping [] ms' p' (s.0, s.1, s.2, tt, λ k n. ap (knows k) none_left ∙ n))
                  (λ p'' r. emptied [] p'' r tt);
          }
