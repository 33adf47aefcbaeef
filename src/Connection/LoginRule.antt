-- ===== src/Connection/LoginRule.antt =====
-- What the handling of any packet keeps, logins included.
use gb32960_go_sdk.Base.{
  ℕ, ◌&&◌, not, inl, inr, List, Option, none, some, length, ltb, ◌==◌, if◌then◌else◌, Result, ok,
  Bool-cases,
}
use gb32960_go_sdk.Constant.Cmd
use gb32960_go_sdk.Packet.{Packet}
use gb32960_go_sdk.Packet.Bodies.{LoginResponse, VehicleLoginData}
use gb32960_go_sdk.Decoder.{bcd}
use gb32960_go_sdk.Body.{decode_login_data}
use gb32960_go_sdk.Body.Safe.{body_decoders-Returns}
use gb32960_go_sdk.Connection.{
  ForwardMsg, Env, World, logged, authenticates, calls, writes, forwards, vehicle_login, login_msg,
  close,
}
use gb32960_go_sdk.Connection.Handle.{
  called, sent, opened, login_answer, enter, login_answered, admit, handle_login, dispatch,
  handle_packet,
}
use gb32960_go_sdk.Connection.Rule.{
  Gives, >>=-Gives, choose-Gives, decoded_or-Gives, Kept, opened-Returns, sent-Gives, called-Kept,
  dispatch_other,
}

-- Nothing that a packet may cause touches the property.
pub record Survives (P : World → Type 0) : Type 0 where
  pub kept : Kept P
  pub on_enter : (w : World) (vin : List ℕ) (login : VehicleLoginData) → P w → P (enter w vin login)
  pub on_close : (w : World) → P w → P (close w)

-- Neither what is written or forwarded nor a new key touches the property.
pub record Quiet (P : World → Type 0) : Type 0 where
  pub on_write : (w : World) (frame : List ℕ) → P w → P (logged w (writes frame))
  pub on_forward : (w : World) (vin : List ℕ) (m : ForwardMsg) → P w → P (logged w (forwards vin m))
  pub on_key :
      (w : World) (k : Option (List ℕ))
      → P w
      → P (record w { conn = record w.conn { encrypt_key = k } })

pub Kept-Quiet : (P : World → Type 0) → Kept P → Quiet P
Kept-Quiet P k = record {
  on_write = λ w frame. k.on_event w (writes frame);
  on_forward = λ w vin m. k.on_event w (forwards vin m);
  on_key = k.on_key;
}

module _ (env : Env) (P : World → Type 0) (quiet : Quiet P) where
  login_answer-Gives :
      (w : World) (login : VehicleLoginData) (resp : LoginResponse)
      → P w
      → Gives P (login_answer env w login resp)
  unfolding login_answer
  login_answer-Gives w login resp p =
      >>=-Gives P P (sent env w Cmd.login _) _ (sent-Gives env P quiet.on_write w Cmd.login _ p)
        λ w' q. elim (Bool-cases (ltb 0 (length resp.token))) [
          | inl e ↦ rw e (quiet.on_key w' _ q)
          | inr e ↦ rw e q
        ]

  login_answered-Gives :
      (w : World) (login : VehicleLoginData) (r : Option (Option LoginResponse))
      (more : World → Result World)
      → P w
      → ((w' : World) → P w' → Gives P (more w'))
      → Gives P (login_answered env w login r more)
  login_answered-Gives w login none more p h = p
  login_answered-Gives w login (some none) more p h = h w p
  login_answered-Gives w login (some (some resp)) more p h =
      >>=-Gives P P (login_answer env w login resp) more (login_answer-Gives w login resp p) h

  -- The property holds once the handler of logins, if there is one, has been called.
  pub admit-Gives :
      (w : World) (vin : List ℕ) (login : VehicleLoginData)
      → P (called env.has_handler (enter w vin login) (vehicle_login login))
      → Gives P (admit env w vin login)
  unfolding admit
  admit-Gives w vin login q =
      let w1 = enter w vin login in
      let more : World → Result World = λ w2. ok (logged w2 (forwards vin (login_msg login))) in
      elim (Bool-cases env.has_handler) [
        | inl set ↦ rw set (
            login_answered-Gives (logged w1 (calls (vehicle_login login))) login
              (env.on_vehicle_login w1.trace login) more (rw set at q)
              λ w' q'. quiet.on_forward w' vin (login_msg login) q')
        | inr unset ↦ rw unset (quiet.on_forward w1 vin (login_msg login) (rw unset at q))
      ]

module _ (env : Env) (P : World → Type 0) (s : Survives P) where
  handle_login-Gives : (w : World) (vin body : List ℕ) → P w → Gives P (handle_login env w vin body)
  unfolding handle_login
  handle_login-Gives w vin body p =
      let w1 = if env.has_auth then logged w (authenticates vin) else w in
      let q : P w1 = elim (Bool-cases env.has_auth) [
        | inl e ↦ rw e (s.kept.on_event _ _ p)
        | inr e ↦ rw e p
      ] in
      choose-Gives P (env.has_auth && not (env.authenticate w.trace vin)) _ _ (s.on_close w1 q) (
        decoded_or-Gives P w1 (decode_login_data bcd body) (admit env w1 vin)
          (body_decoders-Returns bcd body).0 q
          λ x.
            admit-Gives env P (Kept-Quiet P s.kept) w1 vin x
              (called-Kept P s.kept env.has_handler _ (vehicle_login x) (s.on_enter w1 vin x q)))

  pub handle_packet-Gives : (w : World) (p : Packet) → P w → Gives P (handle_packet env w p)
  unfolding handle_packet dispatch
  handle_packet-Gives w p h =
      decoded_or-Gives P w (opened env.aes w.conn.encrypt_key p) _
        (opened-Returns env.aes w.conn.encrypt_key p) h
        λ body. elim (Bool-cases (p.command == Cmd.login)) [
          | inl e ↦ rw e (handle_login-Gives w p.vin body h)
          | inr e ↦ dispatch_other env P s.kept w p body e h
        ]
