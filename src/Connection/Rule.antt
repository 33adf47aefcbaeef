-- ===== src/Connection/Rule.antt =====
-- What the handling of a packet keeps: a property of the world that events and new keys do not
-- touch is kept by every command but the login, and by that one too if entering and closing keep it.
use gb32960_go_sdk.Base.{
  ℕ, ◌≡◌, Bool, true, false, inl, inr, not, List, Option, none, some, length, ◌==◌, if◌then◌else◌,
  Result, ok, err, panic, stuck, ◌>>=◌, Returns, Bool-cases, >>=-Returns,
}
use gb32960_go_sdk.Constant.{enc_aes128}
use gb32960_go_sdk.Constant.Cmd
use gb32960_go_sdk.Packet.{Packet}
use gb32960_go_sdk.Packet.Bodies.{ParamQueryResponse}
use gb32960_go_sdk.Decoder.{bcd}
use gb32960_go_sdk.Crypto.{BlockCipher, encrypt_aes128}
use gb32960_go_sdk.Crypto.Safe.{encrypt_aes128-Returns, decrypt_aes128-Returns}
use gb32960_go_sdk.Decoder.RoundTrip.{encode_response-Returns}
use gb32960_go_sdk.Body.Safe.{body_decoders-Returns}
use gb32960_go_sdk.Message.Safe.{decode_realtime_data-Returns, decode_reissue_data-Returns}
use gb32960_go_sdk.Connection.{
  Connection, Event, Call, calls, writes, Env, World, logged, sealed, frame_of, written, is_closed,
  send,
}
use gb32960_go_sdk.Connection.Handle.{
  decoded_or, called, sent, opened, handle_logout, handle_realtime, handle_reissue,
  handle_heartbeat, handle_time_calibr, handle_plat_login, handle_plat_logout, query_answered,
  handle_param_query, handle_param_query_resp, handle_param_setting, dispatch,
}

-- The call ends without an error of its own, in a world with the property.
abbrev pub Gives : (World → Type 0) → Result World → Type 0
Gives P (ok w) = P w
Gives P (err e) = ⊥
Gives P panic = ⊥
Gives P stuck = ⊥

pub >>=-Gives :
    (Q P : World → Type 0) (m : Result World) (f : World → Result World)
    → Gives Q m
    → ((w : World) → Q w → Gives P (f w))
    → Gives P (m >>= f)
>>=-Gives Q P (ok w) f h k = k w h
>>=-Gives Q P (err e) f h k = h
>>=-Gives Q P panic f h k = h
>>=-Gives Q P stuck f h k = h

pub decoded_or-Gives {ℓ} :
    {A : Type ℓ} (P : World → Type 0) (w : World) (r : Result A) (f : A → Result World)
    → Returns r
    → P w
    → ((x : A) → Gives P (f x))
    → Gives P (decoded_or w r f)
decoded_or-Gives P w (ok x) f h p k = k x
decoded_or-Gives P w (err e) f h p k = p
decoded_or-Gives P w panic f h p k = h
decoded_or-Gives P w stuck f h p k = h

pub choose-Gives :
    (P : World → Type 0) (b : Bool) (r s : Result World)
    → Gives P r
    → Gives P s
    → Gives P (if b then r else s)
choose-Gives P true r s h k = h
choose-Gives P false r s h k = k

-- Events and new keys do not touch the property.
pub record Kept (P : World → Type 0) : Type 0 where
  pub on_event : (w : World) (e : Event) → P w → P (logged w e)
  pub on_key :
      (w : World) (k : Option (List ℕ))
      → P w
      → P (record w { conn = record w.conn { encrypt_key = k } })

sealed-Returns :
    (aes : BlockCipher) (k : Option (List ℕ)) (input : List ℕ) → Returns (sealed aes k input)
unfolding sealed
sealed-Returns aes none input = tt
sealed-Returns aes (some key) input = elim (Bool-cases (length input == 0)) [
  | inl e ↦ rw e tt
  | inr e ↦ rw e (
      >>=-Returns (encrypt_aes128 aes input key) _ (encrypt_aes128-Returns aes input key) λ c _. tt)
]

pub frame_of-Returns :
    (aes : BlockCipher) (c : Connection) (command : ℕ) (input : List ℕ)
    → Returns (frame_of aes c command input)
unfolding frame_of
frame_of-Returns aes c command input =
    >>=-Returns (sealed aes c.encrypt_key input) _ (sealed-Returns aes c.encrypt_key input)
      λ r _. encode_response-Returns command c.vin r.0 r.1

pub opened-Returns :
    (aes : BlockCipher) (k : Option (List ℕ)) (p : Packet) → Returns (opened aes k p)
unfolding opened
opened-Returns aes none p = tt
opened-Returns aes (some key) p = elim (Bool-cases (p.encrypt_type == enc_aes128)) [
  | inl e ↦ rw e (decrypt_aes128-Returns aes p.payload key)
  | inr e ↦ rw e tt
]

module _ (env : Env) (P : World → Type 0)
    (on_write : (w : World) (frame : List ℕ) → P w → P (logged w (writes frame))) where
  written-Gives :
      (w : World) (r : Result (List ℕ)) (f : Bool × World → Result World)
      → Returns r
      → P w
      → ((b : Bool) (w' : World) → P w' → Gives P (f (b, w')))
      → Gives P (written env w r >>= f)
  written-Gives w (ok frame) f h p q = q _ _ (on_write w frame p)
  written-Gives w (err e) f h p q = q _ _ p
  written-Gives w panic f h p q = h
  written-Gives w stuck f h p q = h

  pub sent-Gives :
      (w : World) (command : ℕ) (input : List ℕ) → P w → Gives P (sent env w command input)
  unfolding sent send
  sent-Gives w command input p = elim (Bool-cases (is_closed w.conn.state)) [
    | inl e ↦ rw e p
    | inr e ↦ rw e (
        written-Gives w (frame_of env.aes w.conn command input) _
          (frame_of-Returns env.aes w.conn command input) p λ b w' q. q)
  ]

pub called-Kept :
    (P : World → Type 0) (k : Kept P) (set : Bool) (w : World) (c : Call) → P w → P (called set w c)
called-Kept P k true w c p = k.on_event w (calls c) p
called-Kept P k false w c p = p

module _ (env : Env) (P : World → Type 0) (k : Kept P) where
  answered-Gives :
      (w : World) (command : ℕ) (input : List ℕ) → P w → Gives P (sent env w command input)
  answered-Gives = sent-Gives env P (λ w frame. k.on_event w (writes frame))

  query_answered-Gives :
      (w : World) (r : Option (Option ParamQueryResponse)) → P w → Gives P (query_answered env w r)
  query_answered-Gives w none p = p
  query_answered-Gives w (some none) p = p
  query_answered-Gives w (some (some resp)) p = answered-Gives w _ _ p

  unset_or :
      (b : Bool) (w : World) (r : Result World)
      → P w
      → Gives P r
      → Gives P (if not b then ok w else r)
  unset_or true w r p h = h
  unset_or false w r p h = p

  pub dispatch_other :
      (w : World) (p : Packet) (body : List ℕ)
      → (p.command == Cmd.login) ≡ false
      → P w
      → Gives P (dispatch env w p body)
  unfolding dispatch handle_logout handle_realtime handle_reissue handle_heartbeat
      handle_time_calibr handle_plat_login handle_plat_logout handle_param_query
      handle_param_query_resp handle_param_setting
  dispatch_other w p body other h =
      let safe = body_decoders-Returns bcd body in
      rw other (
        choose-Gives P (p.command == Cmd.logout) _ _
          (decoded_or-Gives P w _ _ safe.1 h
            λ x. k.on_event _ _ (k.on_key _ _ (called-Kept P k env.has_handler w _ h)))
          (choose-Gives P (p.command == Cmd.realtime) _ _
            (decoded_or-Gives P w _ _ (decode_realtime_data-Returns bcd body) h
              λ x. k.on_event _ _ (called-Kept P k env.has_handler w _ h))
            (choose-Gives P (p.command == Cmd.reissue) _ _
              (decoded_or-Gives P w _ _ (decode_reissue_data-Returns bcd body) h
                λ x. k.on_event _ _ (called-Kept P k env.has_handler w _ h))
              (choose-Gives P (p.command == Cmd.heartbeat) _ _
                (answered-Gives _ _ _ (called-Kept P k env.has_handler w _ h))
                (choose-Gives P (p.command == Cmd.time_calibr) _ _
                  (answered-Gives _ _ _ (called-Kept P k env.has_time_provider w _ h))
                  (choose-Gives P (p.command == Cmd.plat_login) _ _
                    (unset_or env.has_platform_handler w _ h
                      (decoded_or-Gives P w _ _ safe.2 h λ x. k.on_event _ _ h))
                    (choose-Gives P (p.command == Cmd.plat_logout) _ _
                      (unset_or env.has_platform_handler w _ h
                        (decoded_or-Gives P w _ _ safe.3 h λ x. k.on_event _ _ h))
                      (choose-Gives P (p.command == Cmd.param_query) _ _
                        (unset_or env.has_param_handler w _ h (
                          decoded_or-Gives P w _ _ safe.4 h
                            λ x. query_answered-Gives _ _ (k.on_event _ _ h)))
                        (choose-Gives P (p.command == Cmd.param_query_resp) _ _
                          (unset_or env.has_param_handler w _ h
                            (decoded_or-Gives P w _ _ safe.4 h λ x. k.on_event _ _ h))
                          (choose-Gives P (p.command == Cmd.param_setting) _ _
                            (unset_or env.has_param_handler w _ h
                              (decoded_or-Gives P w _ _ safe.5 h λ x. k.on_event _ _ h))
                            h))))))))))
