-- ===== src/Connection/Calls.antt =====
-- Which handlers the packets of a vehicle call, and with what.
use gb32960_go_sdk.Base.{
  ℕ, ◌≡◌, refl, ap, true, false, ◌&&◌, not, inl, inr, List, [], ◌∷◌, Option, none, some, ◌==◌,
  if◌then◌else◌, ok, Bool-cases,
}
use gb32960_go_sdk.Constant.{enc_aes128}
use gb32960_go_sdk.Constant.Cmd
use gb32960_go_sdk.Packet.{Packet}
use gb32960_go_sdk.Decoder.{Decoder, bcd}
use gb32960_go_sdk.Crypto.{BlockCipher}
use gb32960_go_sdk.Body.{decode_login_data, decode_logout_data}
use gb32960_go_sdk.Message.{decode_realtime_data, decode_reissue_data}
use gb32960_go_sdk.Connection.{
  is_done, Call, vehicle_login, vehicle_logout, realtime_data, reissue_data, heartbeat, Event,
  authenticates, calls, writes, forwards, closes, Env, World, logged,
}
use gb32960_go_sdk.Connection.Handle.{
  opened, handle_login, handle_logout, handle_realtime, handle_reissue, handle_heartbeat, dispatch,
  handle_packet,
}
use gb32960_go_sdk.Connection.Rule.{Gives, sent-Gives}
use gb32960_go_sdk.Connection.LoginRule.{Quiet, admit-Gives}

-- The calls of a trace, the latest first.
abbrev pub calls_of : List Event → List Call
calls_of [] = []
calls_of (authenticates vin ∷ t) = calls_of t
calls_of (calls c ∷ t) = c ∷ calls_of t
calls_of (writes f ∷ t) = calls_of t
calls_of (forwards vin m ∷ t) = calls_of t
calls_of (closes ∷ t) = calls_of t

-- A packet in plain data, and the call that it is to lead to.
pub data Means : Packet → Call → Type 0 where
  means_login :
      (p : Packet) (x : _)
      → p.command ≡ Cmd.login
      → decode_login_data bcd p.payload ≡ ok x
      → Means p (vehicle_login x)
  means_logout :
      (p : Packet) (x : _)
      → p.command ≡ Cmd.logout
      → decode_logout_data bcd p.payload ≡ ok x
      → Means p (vehicle_logout x)
  means_realtime :
      (p : Packet) (x : _)
      → p.command ≡ Cmd.realtime
      → decode_realtime_data bcd p.payload ≡ ok x
      → Means p (realtime_data x)
  means_reissue :
      (p : Packet) (x : _)
      → p.command ≡ Cmd.reissue
      → decode_reissue_data bcd p.payload ≡ ok x
      → Means p (reissue_data x)
  means_heartbeat : (p : Packet) → p.command ≡ Cmd.heartbeat → Means p heartbeat

abbrev pub IsPlain : Packet → Type 0
IsPlain p = (p.encrypt_type == enc_aes128) ≡ false

pub data AllMean : List Packet → List Call → Type 0 where
  nothing : AllMean [] []
  also :
      (p : Packet) (c : Call) (ps : List Packet) (cs : List Call)
      → IsPlain p
      → Means p c
      → AllMean ps cs
      → AllMean (p ∷ ps) (c ∷ cs)

-- An authenticator, if there is one, accepts the VIN at any time.
abbrev pub Accepts : Env → List ℕ → Type 0
Accepts env vin = (t : List Event) → (env.has_auth && not (env.authenticate t vin)) ≡ false

opened-plain :
    (aes : BlockCipher) (k : Option (List ℕ)) (p : Packet)
    → IsPlain p
    → opened aes k p ≡ ok p.payload
unfolding opened
opened-plain aes none p e = refl
opened-plain aes (some key) p e = rw e refl

-- What has been called, on a connection whose context is not cancelled and whose decoder is `d`.
pub record Heard (d : Decoder) (cs : List Call) (w : World) : Type 0 where
  pub called : calls_of w.trace ≡ cs
  pub live : is_done w.conn.context ≡ false
  pub same_decoder : w.conn.decoder ≡ d

Heard-Quiet : (d : Decoder) (cs : List Call) → Quiet (Heard d cs)
Heard-Quiet d cs = record {
  on_write = λ w f h. record { called = h.called; live = h.live; same_decoder = h.same_decoder };
  on_forward =
      λ w vin m h. record { called = h.called; live = h.live; same_decoder = h.same_decoder };
  on_key = λ w k h. record { called = h.called; live = h.live; same_decoder = h.same_decoder };
}

module _ (env : Env) (set : env.has_handler ≡ true) where
  handle_login-Heard :
      (w : World) (vin body : List ℕ) (x : _) (cs : List Call)
      → Accepts env vin
      → decode_login_data bcd body ≡ ok x
      → Heard w.conn.decoder cs w
      → Gives (Heard w.conn.decoder (vehicle_login x ∷ cs)) (handle_login env w vin body)
  unfolding handle_login
  handle_login-Heard w vin body x cs accepts e h =
      let w1 : World = if env.has_auth then logged w (authenticates vin) else w in
      let h1 : Heard w.conn.decoder cs w1 = elim (Bool-cases env.has_auth) [
        | inl a ↦ rw a (record { called = h.called; live = h.live; same_decoder = h.same_decoder })
        | inr a ↦ rw a h
      ] in
      rw (accepts w.trace, e)
        (admit-Gives env (Heard w.conn.decoder (vehicle_login x ∷ cs))
          (Heard-Quiet w.conn.decoder (vehicle_login x ∷ cs)) w1 vin x
          (rw set (record {
            called = ap (◌∷◌ (vehicle_login x)) h1.called;
            live = h1.live;
            same_decoder = h1.same_decoder;
          })))

  pub handle_packet-Heard :
      (w : World) (p : Packet) (c : Call) (cs : List Call)
      → IsPlain p
      → Means p c
      → Accepts env p.vin
      → Heard w.conn.decoder cs w
      → Gives (Heard w.conn.decoder (c ∷ cs)) (handle_packet env w p)
  unfolding handle_packet dispatch handle_logout handle_realtime handle_reissue handle_heartbeat
  handle_packet-Heard w p _ cs plain (means_login _ x c e) accepts h =
      rw (opened-plain env.aes w.conn.encrypt_key p plain, c)
        (handle_login-Heard w p.vin p.payload x cs accepts e h)
  handle_packet-Heard w p _ cs plain (means_logout _ x c e) accepts h =
      rw (opened-plain env.aes w.conn.encrypt_key p plain, c, e, set)
        (record {
          called = ap (◌∷◌ (vehicle_logout x)) h.called;
          live = h.live;
          same_decoder = h.same_decoder;
        })
  handle_packet-Heard w p _ cs plain (means_realtime _ x c e) accepts h =
      rw (opened-plain env.aes w.conn.encrypt_key p plain, c, e, set)
        (record {
          called = ap (◌∷◌ (realtime_data x)) h.called;
          live = h.live;
          same_decoder = h.same_decoder;
        })
  handle_packet-Heard w p _ cs plain (means_reissue _ x c e) accepts h =
      rw (opened-plain env.aes w.conn.encrypt_key p plain, c, e, set)
        (record {
          called = ap (◌∷◌ (reissue_data x)) h.called;
          live = h.live;
          same_decoder = h.same_decoder;
        })
  handle_packet-Heard w p _ cs plain (means_heartbeat _ c) accepts h =
      rw (opened-plain env.aes w.conn.encrypt_key p plain, c, set)
        (sent-Gives env (Heard w.conn.decoder (heartbeat ∷ cs))
          (Heard-Quiet w.conn.decoder (heartbeat ∷ cs)).on_write (logged w (calls heartbeat))
          Cmd.heartbeat _
          (record {
            called = ap (◌∷◌ heartbeat) h.called;
            live = h.live;
            same_decoder = h.same_decoder;
          }))
