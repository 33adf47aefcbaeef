-- ===== src/Connection/Lifetime.antt =====
-- A connection from its first read to its end.
use gb32960_go_sdk.Base.{
  ℕ, zero, suc, ◌<◌, ◌≡◌, refl, ap, ◌∙◌, Bool, true, false, ◌||◌, inl, inr, List, [], ◌∷◌, ◌++◌,
  Option, none, some, length, ◌==◌, Result, ok, err, panic, stuck, ◌>>=◌, Bool-cases, arith,
  length-append,
}
use gb32960_go_sdk.Packet.{Packet}
use gb32960_go_sdk.Decoder.{Decoder, decode, feed}
use gb32960_go_sdk.Decoder.Stream.{unread, IsValid}
use gb32960_go_sdk.Decoder.Buffer.{Total, decode-Total, feed-IsValid}
use gb32960_go_sdk.Decoder.Sound.{decode-Holds}
use gb32960_go_sdk.VinRegistry.Keys.{bytes_eq}
use gb32960_go_sdk.VinRegistry.Laws
use gb32960_go_sdk.Connection.{
  is_done, Env, World, Server, Connection, conn_closed, is_closed, forget, unregister, close,
}
use gb32960_go_sdk.Connection.Handle.{handle_packet}
use gb32960_go_sdk.Connection.Run.{
  with_decoder, after_decode, packets_loop, process_packets, on_read, run,
}
use gb32960_go_sdk.Connection.Rule.{Gives}
use gb32960_go_sdk.Connection.LoginRule.{Survives, handle_packet-Gives}

-- The call panics, or ends in a world with the property.
abbrev pub Ends : (World → Type 0) → Result World → Type 0
Ends P (ok w) = P w
Ends P (err e) = ⊥
Ends P panic = Unit {0}
Ends P stuck = ⊥

-- The ids that are among the server's connections.
unfoldable pub knows : List ℕ → List (List ℕ × ℕ) → Bool
knows id [] = false
knows id ((k, c) ∷ m) = bytes_eq k id || knows id m

pub knows-forget : (id : List ℕ) (m : List (List ℕ × ℕ)) → knows id (forget id m) ≡ false
unfolding knows forget
knows-forget id [] = refl
knows-forget id ((k, c) ∷ m) = ground (arith, knows-forget id m)

-- Of the connection with an id: once closed it is no longer among the server's. And the VIN
-- registry is valid.
pub record IsSound (id : List ℕ) (w : World) : Type 0 where
  pub same_id : w.conn.id ≡ id
  pub forgotten : is_closed w.conn.state ≡ true → knows id w.server.connections ≡ false
  pub vins : Laws.IsValid w.server.vin_registry

unregister-IsValid :
    (s : Server) (c : Connection)
    → Laws.IsValid s.vin_registry
    → Laws.IsValid (unregister s c).vin_registry
unfolding unregister
unregister-IsValid s c v = elim (Bool-cases (length c.vin == 0)) [
  | inl e ↦ rw e v
  | inr e ↦ rw e (Laws.remove-IsValid s.vin_registry c.vin c.self v)
]

pub close-IsSound : (id : List ℕ) (w : World) → IsSound id w → IsSound id (close w)
unfolding close unregister
close-IsSound id w h = elim (Bool-cases (is_closed w.conn.state)) [
  | inl e ↦ rw e h
  | inr e ↦ rw e (record {
    same_id = h.same_id;
    forgotten = λ _.
        ap (λ i. knows id (forget i w.server.connections)) h.same_id
        ∙ knows-forget id w.server.connections;
    vins = unregister-IsValid w.server (record w.conn { state = conn_closed }) h.vins;
  })
]

pub close-decoder : (w : World) → (close w).conn.decoder ≡ w.conn.decoder
unfolding close
close-decoder w = elim (Bool-cases (is_closed w.conn.state)) [
  | inl e ↦ rw e refl
  | inr e ↦ rw e refl
]

-- Neither packets nor feeding the decoder touch the property.
pub record Inert (P : World → Type 0) : Type 0 where
  pub survives : (d : Decoder) → Survives (λ w. P w × (w.conn.decoder ≡ d))
  pub on_decoder : (w : World) (d : Decoder) → P w → P (with_decoder w d)

IsSound-Inert : (id : List ℕ) → Inert (IsSound id)
IsSound-Inert id = record {
  survives = λ d. record {
    kept = record {
      on_event = λ w e h.
          (record { same_id = h.0.same_id; forgotten = h.0.forgotten; vins = h.0.vins }, h.1);
      on_key = λ w k h.
          (record { same_id = h.0.same_id; forgotten = h.0.forgotten; vins = h.0.vins }, h.1);
    };
    on_enter = λ w vin login h. (
      record {
        same_id = h.0.same_id;
        forgotten = λ e. cc;
        vins = Laws.add-IsValid w.server.vin_registry vin w.conn.self h.0.vins;
      },
      h.1,
    );
    on_close = λ w h. (close-IsSound id w h.0, close-decoder w ∙ h.1);
  };
  on_decoder = λ w d h. record { same_id = h.same_id; forgotten = h.forgotten; vins = h.vins };
}

abbrev pub Ready : (World → Type 0) → World → Type 0
Ready P w = P w × IsValid w.conn.decoder

decode_shorter :
    (d d' : Decoder) (p : Packet)
    → IsValid d
    → decode d ≡ ok (some p, d')
    → length (unread d') < length (unread d)
decode_shorter d d' p v e =
    let h = decode-Holds d d' p v e in
    omega (
      arith,
      ap length h.split,
      length-append h.front (h.header ++ (p.payload ++ (h.bcc ∷ unread d'))),
      length-append h.header (p.payload ++ (h.bcc ∷ unread d')),
      length-append p.payload (h.bcc ∷ unread d'),
    )

Gives-Ends :
    (P Q : World → Type 0) (m : Result World) (f : World → Result World)
    → Gives P m
    → ((w : World) → P w → Ends Q (f w))
    → Ends Q (m >>= f)
Gives-Ends P Q (ok w) f h k = k w h
Gives-Ends P Q (err e) f h k = h
Gives-Ends P Q panic f h k = absurd h
Gives-Ends P Q stuck f h k = h

Ends-Ends :
    (P Q : World → Type 0) (m : Result World) (f : World → Result World)
    → Ends P m
    → ((w : World) → P w → Ends Q (f w))
    → Ends Q (m >>= f)
Ends-Ends P Q (ok w) f h k = k w h
Ends-Ends P Q (err e) f h k = h
Ends-Ends P Q panic f h k = tt
Ends-Ends P Q stuck f h k = h

module _ (env : Env) (P : World → Type 0) (inert : Inert P) where
  after_decode-Ends :
      (w : World) (more : World → Result World) (r : Result (Option Packet × Decoder))
      → Ready P w
      → decode w.conn.decoder ≡ r
      → Total w.conn.decoder r
      → ((w' : World)
          → Ready P w'
          → length (unread w'.conn.decoder) < length (unread w.conn.decoder)
          → Ends (Ready P) (more w'))
      → Ends (Ready P) (r >>= after_decode env w more)
  after_decode-Ends w more (ok (none, d)) h e t k = (inert.on_decoder w d h.0, t.valid)
  after_decode-Ends w more (ok (some p, d)) h e t k =
      Gives-Ends (λ v. P v × (v.conn.decoder ≡ d)) (Ready P)
        (handle_packet env (with_decoder w d) p) more
        (handle_packet-Gives env (λ v. P v × (v.conn.decoder ≡ d)) (inert.survives d)
          (with_decoder w d) p (inert.on_decoder w d h.0, refl))
        λ w' q.
          k w' (q.0, rw q.1 t.valid)
            (omega
              (arith, ap (λ x. length (unread x)) q.1, decode_shorter w.conn.decoder d p h.1 e))
  after_decode-Ends w more (err x) h e t k = t
  after_decode-Ends w more panic h e t k = tt
  after_decode-Ends w more stuck h e t k = t

  packets_loop-Ends :
      (fuel : ℕ) (w : World)
      → Ready P w
      → length (unread w.conn.decoder) < fuel
      → Ends (Ready P) (packets_loop fuel env w)
  unfolding packets_loop
  packets_loop-Ends zero w h lt = absurd (omega arith)
  packets_loop-Ends (suc fuel) w h lt =
      after_decode-Ends w (packets_loop fuel env) (decode w.conn.decoder) h refl
        (decode-Total w.conn.decoder h.1) λ w' h' less. packets_loop-Ends fuel w' h' (omega arith)

  pub on_read-Ends : (w : World) (input : List ℕ) → Ready P w → Ends (Ready P) (on_read env w input)
  unfolding on_read process_packets
  on_read-Ends w input h =
      packets_loop-Ends (suc (length (unread (feed w.conn.decoder input))))
        (with_decoder w (feed w.conn.decoder input))
        (inert.on_decoder w (feed w.conn.decoder input) h.0, feed-IsValid w.conn.decoder input)
        (omega arith)

-- How a connection ends.
pub record IsOver (id : List ℕ) (w : World) : Type 0 where
  pub closed : is_closed w.conn.state ≡ true
  pub gone : knows id w.server.connections ≡ false
  pub vins : Laws.IsValid w.server.vin_registry

close-IsOver : (id : List ℕ) (w : World) → IsSound id w → IsOver id (close w)
unfolding close
close-IsOver id w h =
    let over = close-IsSound id w h in
    let closed : is_closed (close w).conn.state ≡ true =
      elim (Bool-cases (is_closed w.conn.state)) [ inl e ↦ rw e e | inr e ↦ rw e refl ] in
    record { closed = closed; gone = over.forgotten closed; vins = over.vins }

run-Ready :
    (env : Env) (id : List ℕ) (reads : List (List ℕ)) (w : World)
    → Ready (IsSound id) w
    → Ends (IsOver id) (run env w reads)
unfolding run
run-Ready env id [] w h = close-IsOver id w h.0
run-Ready env id ([] ∷ reads) w h = elim (Bool-cases (is_done w.conn.context)) [
  | inl e ↦ rw e (close-IsOver id w h.0)
  | inr e ↦ rw e (run-Ready env id reads w h)
]
run-Ready env id ((b ∷ bs) ∷ reads) w h = elim (Bool-cases (is_done w.conn.context)) [
  | inl e ↦ rw e (close-IsOver id w h.0)
  | inr e ↦ rw e (
      Ends-Ends (Ready (IsSound id)) (IsOver id) (on_read env w (b ∷ bs)) _
        (on_read-Ends env (IsSound id) (IsSound-Inert id) w (b ∷ bs) h)
        λ w' h'. run-Ready env id reads w' h')
]

-- Whatever is read, in whatever parts, and whatever the handlers and the network answer: `run`
-- panics, or it ends with the connection closed and no longer among the server's, and with a valid
-- VIN registry; none of its loops runs out of fuel. This holds from a world whose decoder and VIN
-- registry are valid, and which knows a closed connection's id no more.
pub run-IsOver :
    (env : Env) (w : World) (reads : List (List ℕ))
    → IsValid w.conn.decoder
    → IsSound w.conn.id w
    → Ends (IsOver w.conn.id) (run env w reads)
run-IsOver env w reads v h = run-Ready env w.conn.id reads w (h, v)
