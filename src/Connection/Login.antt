-- ===== src/Connection/Login.antt =====
-- Who is let in: logins that are accepted or refused, and the commands that are no login.
use gb32960_go_sdk.Base.{
  ℕ, ◌≡◌, ◌≢◌, refl, ap, true, false, ◌&&◌, not, inl, inr, List, [], ◌∷◌, ◌++◌, if◌then◌else◌, ok,
  ◌>>=◌, ◌∙◌, Bool-cases, ==_ne,
}
use gb32960_go_sdk.Base.Integers.{decrement}
use gb32960_go_sdk.Constant.Cmd
use gb32960_go_sdk.Packet.{Packet}
use gb32960_go_sdk.Packet.Bodies.{VehicleLoginData}
use gb32960_go_sdk.Decoder.{bcd}
use gb32960_go_sdk.Body.{decode_login_data}
use gb32960_go_sdk.VinRegistry
use gb32960_go_sdk.VinRegistry.Keys.{bytes_eq_refl}
use gb32960_go_sdk.VinRegistry.Laws
use gb32960_go_sdk.Connection.{
  is_done, conn_logged_in, conn_closed, authenticates, vehicle_login, closes, Env, World, logged,
  is_closed, unregister, close,
}
use gb32960_go_sdk.Connection.Handle.{enter, opened, handle_login, dispatch, handle_packet}
use gb32960_go_sdk.Connection.Run.{run}
use gb32960_go_sdk.Connection.Order.{Gives-map}
use gb32960_go_sdk.Connection.Rule.{
  Gives, Kept, decoded_or-Gives, opened-Returns, called-Kept, dispatch_other,
}
use gb32960_go_sdk.Connection.LoginRule.{admit-Gives, Kept-Quiet}
use gb32960_go_sdk.Connection.Lifetime.{knows, knows-forget}

-- The same connection, but for its key, and the same server.
pub record IsSame (w w' : World) : Type 0 where
  pub same_state : w'.conn.state ≡ w.conn.state
  pub same_vin : w'.conn.vin ≡ w.conn.vin
  pub same_iccid : w'.conn.iccid ≡ w.conn.iccid
  pub same_server : w'.server ≡ w.server

-- A packet whose command is not the login, whatever its data and the handlers' answers, is handled
-- to the end without a panic, and changes neither the connection's state, VIN and ICCID nor the
-- server's connections, their count and the VIN registry.
pub handle_packet-IsSame :
    (env : Env) (w : World) (p : Packet)
    → p.command ≢ Cmd.login
    → Gives (IsSame w) (handle_packet env w p)
unfolding handle_packet
handle_packet-IsSame env w p other =
    let start : IsSame w w = record {
      same_state = refl;
      same_vin = refl;
      same_iccid = refl;
      same_server = refl;
    } in
    decoded_or-Gives (IsSame w) w (opened env.aes w.conn.encrypt_key p) _
      (opened-Returns env.aes w.conn.encrypt_key p) start
      λ body.
        dispatch_other env (IsSame w)
          (record {
            on_event = λ v e h. record {
              same_state = h.same_state;
              same_vin = h.same_vin;
              same_iccid = h.same_iccid;
              same_server = h.same_server;
            };
            on_key = λ v k h. record {
              same_state = h.same_state;
              same_vin = h.same_vin;
              same_iccid = h.same_iccid;
              same_server = h.same_server;
            };
          })
          w p body (==_ne p.command Cmd.login other) start

-- The world behind a login that is let in.
pub record IsEntered (w : World) (vin : List ℕ) (login : VehicleLoginData) (w' : World)
    : Type 0 where
  pub logged_in : w'.conn.state ≡ conn_logged_in
  pub has_vin : w'.conn.vin ≡ vin
  pub has_iccid : w'.conn.iccid ≡ login.iccid
  pub same_context : w'.conn.context ≡ w.conn.context
  pub same_count : w'.server.conn_count ≡ w.server.conn_count
  pub registered :
      VinRegistry.get_all w'.server.vin_registry vin
      ≡ VinRegistry.get_all w.server.vin_registry vin ++ (w.conn.self ∷ [])

IsEntered-Kept :
    (w : World) (vin : List ℕ) (login : VehicleLoginData) → Kept (IsEntered w vin login)
IsEntered-Kept w vin login = record {
  on_event = λ v e h. record {
    logged_in = h.logged_in;
    has_vin = h.has_vin;
    has_iccid = h.has_iccid;
    same_context = h.same_context;
    same_count = h.same_count;
    registered = h.registered;
  };
  on_key = λ v k h. record {
    logged_in = h.logged_in;
    has_vin = h.has_vin;
    has_iccid = h.has_iccid;
    same_context = h.same_context;
    same_count = h.same_count;
    registered = h.registered;
  };
}

enter-IsEntered :
    (w v : World) (vin : List ℕ) (login : VehicleLoginData)
    → v.conn ≡ w.conn
    → v.server ≡ w.server
    → IsEntered w vin login (enter v vin login)
enter-IsEntered w v vin login ec es = record {
  logged_in = refl;
  has_vin = refl;
  has_iccid = refl;
  same_context = ap (λ c. c.context) ec;
  same_count = ap (λ s. s.conn_count) es;
  registered =
      rw (ec, es, Laws.get_all-add w.server.vin_registry vin vin w.conn.self, bytes_eq_refl vin)
        refl;
}

-- A login whose data are decoded, with no authenticator or one that accepts its VIN, is handled to
-- the end, whatever the handler and the network answer: the connection is logged in, has the VIN
-- and the ICCID of the login, and is entered in the VIN registry behind those that have the VIN
-- already. The count of connections stays.
pub handle_packet-IsEntered :
    (env : Env) (w : World) (p : Packet) (body : List ℕ) (login : VehicleLoginData)
    → p.command ≡ Cmd.login
    → opened env.aes w.conn.encrypt_key p ≡ ok body
    → (env.has_auth && not (env.authenticate w.trace p.vin)) ≡ false
    → decode_login_data bcd body ≡ ok login
    → Gives (IsEntered w p.vin login) (handle_packet env w p)
unfolding handle_packet dispatch handle_login
handle_packet-IsEntered env w p body login c o a l =
    let w1 : World = if env.has_auth then logged w (authenticates p.vin) else w in
    let ec : w1.conn ≡ w.conn = elim (Bool-cases env.has_auth) [
      | inl e ↦ rw e refl
      | inr e ↦ rw e refl
    ] in
    let es : w1.server ≡ w.server = elim (Bool-cases env.has_auth) [
      | inl e ↦ rw e refl
      | inr e ↦ rw e refl
    ] in
    rw (o, c, a, l)
      (admit-Gives env (IsEntered w p.vin login)
        (Kept-Quiet (IsEntered w p.vin login) (IsEntered-Kept w p.vin login)) w1 p.vin login
        (called-Kept (IsEntered w p.vin login) (IsEntered-Kept w p.vin login) env.has_handler _
          (vehicle_login login) (enter-IsEntered w w1 p.vin login ec es)))

refused_closes :
    (env : Env) (w : World) (p : Packet) (body : List ℕ)
    → p.command ≡ Cmd.login
    → opened env.aes w.conn.encrypt_key p ≡ ok body
    → env.has_auth ≡ true
    → env.authenticate w.trace p.vin ≡ false
    → handle_packet env w p ≡ ok (close (logged w (authenticates p.vin)))
unfolding handle_packet dispatch handle_login
refused_closes env w p body c o set refused = rw (o, c, set, refused) refl

run_cancelled :
    (env : Env) (w : World)
    → is_done w.conn.context ≡ true
    → (reads : List (List ℕ)) → run env w reads ≡ ok (close w)
unfolding run
run_cancelled env w e [] = refl
run_cancelled env w e (input ∷ reads) = rw e refl

-- A refused login ends an open connection: no handler is called, nothing is written or forwarded,
-- the connection is closed and no longer among the server's.
pub handle_packet_refused :
    (env : Env) (w : World) (p : Packet) (body : List ℕ)
    → p.command ≡ Cmd.login
    → opened env.aes w.conn.encrypt_key p ≡ ok body
    → env.has_auth ≡ true
    → env.authenticate w.trace p.vin ≡ false
    → is_closed w.conn.state ≡ false
    → (w' : World) × (handle_packet env w p ≡ ok w')
      × (w'.conn.state ≡ conn_closed)
      × (w'.trace ≡ closes ∷ authenticates p.vin ∷ w.trace)
      × (knows w.conn.id w'.server.connections ≡ false)
unfolding close unregister
handle_packet_refused env w p body c o set refused live = (
  close (logged w (authenticates p.vin)),
  refused_closes env w p body c o set refused,
  rw live refl,
  rw live refl,
  rw live (knows-forget w.conn.id w.server.connections),
)

-- A login that is refused and one that is accepted, one behind the other in the bytes of an open
-- connection. Both are handled, whatever the handler and the network answer: the second one sets the
-- state of the connection, which the first one has closed, to logged in, and enters it in the VIN
-- registry. `run` ends then, whatever else there is to read, and its `Close` unregisters the
-- connection again: it has been taken off the count of connections twice.
pub handle_packet_reopens :
    (env : Env) (w : World) (p q : Packet) (body body' : List ℕ) (login : VehicleLoginData)
    → is_closed w.conn.state ≡ false
    → env.has_auth ≡ true
    → p.command ≡ Cmd.login
    → opened env.aes w.conn.encrypt_key p ≡ ok body
    → env.authenticate w.trace p.vin ≡ false
    → q.command ≡ Cmd.login
    → opened env.aes w.conn.encrypt_key q ≡ ok body'
    → env.authenticate (closes ∷ authenticates p.vin ∷ w.trace) q.vin ≡ true
    → decode_login_data bcd body' ≡ ok login
    → Gives
        (λ w'.
          (w'.conn.state ≡ conn_logged_in)
          × (VinRegistry.get_all w'.server.vin_registry q.vin
              ≡ VinRegistry.get_all (close w).server.vin_registry q.vin ++ (w.conn.self ∷ []))
          × ((reads : List (List ℕ)) → run env w' reads ≡ ok (close w'))
          × ((close w').server.conn_count ≡ decrement (decrement w.server.conn_count)))
        (handle_packet env w p >>= λ w1. handle_packet env w1 q)
unfolding close unregister
handle_packet_reopens env w p q body body' login live set c o refused c' o' accepted l =
    let w1 = close (logged w (authenticates p.vin)) in
    rw (refused_closes env w p body c o set refused) (
      Gives-map (IsEntered w1 q.vin login) _ (handle_packet env w1 q)
        (handle_packet-IsEntered env w1 q body' login c' (rw live o')
          (rw (live, set, accepted) refl) l)
        λ w' e h.
          let done : is_done w'.conn.context ≡ true = ap is_done h.same_context ∙ rw live refl in
          (
            h.logged_in,
            rw live (rw live at h.registered),
            run_cancelled env w' done,
            rw h.logged_in (ap decrement (h.same_count ∙ rw live refl)),
          ))
