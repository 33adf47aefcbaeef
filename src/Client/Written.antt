-- ===== src/Client/Written.antt =====
-- What a client of the stress test writes: a part of its session, from the start on.
use gb32960_go_sdk.Base.{
  ℕ, ◌+◌, ◌≡◌, refl, sym, ap, ◌∙◌, Bool, true, false, not, inl, inr, List, [], ◌∷◌, ◌++◌, map,
  Option-cases, append_assoc,
}
use gb32960_go_sdk.Constant.Cmd
use gb32960_go_sdk.Client.Stress.{
  build_packet, client_vin, client_login, build_realtime, client_logout, Stats, Network, Client,
  wrote, received, send_and_recv, finish_client, realtime_loop, after_login, run_client,
}
use gb32960_go_sdk.Client.Rule.{if_sent-rule, send_only-rule, choose-client}
use gb32960_go_sdk.Client.Journey.{Transmission}

abbrev realtime_of : ℕ → Transmission
realtime_of i = (Cmd.realtime, build_realtime i)

abbrev pub after_realtime : List Transmission
after_realtime = (Cmd.heartbeat, []) ∷ (Cmd.logout, client_logout) ∷ []

-- The whole session of a client.
abbrev pub client_transmissions : ℕ → List Transmission
client_transmissions id =
    (Cmd.login, client_login id) ∷ (map realtime_of (0 ∷ 1 ∷ []) ++ after_realtime)

map-append :
    (f : Transmission → List ℕ) (xs ys : List Transmission)
    → map f (xs ++ ys) ≡ map f xs ++ map f ys
map-append f [] ys = refl
map-append f (x ∷ xs) ys = ap (◌∷◌ (f x)) (map-append f xs ys)

module _ (id : ℕ) where
  abbrev pub client_frame : Transmission → List ℕ
  client_frame t = build_packet t.0 (client_vin id) t.1

  abbrev HasWritten : List Transmission → Client → Type 0
  HasWritten done c = c.frames ≡ map client_frame done

  -- The frames are those of the first transmissions of the session.
  pub record IsPartOf (c : Client) : Type 0 where
    pub done : List Transmission
    pub rest : List Transmission
    pub splits : done ++ rest ≡ client_transmissions id
    pub has_written : HasWritten done c

  wrote-HasWritten :
      (done : List Transmission) (c : Client) (t : Transmission) (n : ℕ)
      → HasWritten done c
      → HasWritten (done ++ (t ∷ [])) (wrote c (client_frame t) n)
  wrote-HasWritten done c t n h =
      ap (λ fs. fs ++ (client_frame t ∷ [])) h ∙ sym (map-append client_frame done (t ∷ []))

  stopped :
      (done rest : List Transmission) (c : Client)
      → done ++ rest ≡ client_transmissions id
      → HasWritten done c
      → IsPartOf c
  stopped done rest c e h = record { done = done; rest = rest; splits = e; has_written = h }

  -- One transmission further.
  further :
      (done rest : List Transmission) (t : Transmission)
      → done ++ (t ∷ rest) ≡ client_transmissions id
      → (done ++ (t ∷ [])) ++ rest ≡ client_transmissions id
  further done rest t e = append_assoc done (t ∷ []) rest ∙ e

  module _ (net : Network) where
    finish_client-IsPartOf :
        (done : List Transmission) (c : Client)
        → done ++ after_realtime ≡ client_transmissions id
        → HasWritten done c
        → IsPartOf (finish_client net (client_vin id) c)
    unfolding finish_client
    finish_client-IsPartOf done c e h =
        let logout : Transmission = (Cmd.logout, client_logout) in
        let beat : Transmission = (Cmd.heartbeat, []) in
        let e1 = further done (logout ∷ []) beat e in
        if_sent-rule IsPartOf net Cmd.heartbeat (client_vin id) [] c _
          (stopped done after_realtime c e h)
          λ n.
            let h1 = wrote-HasWritten done c beat n h in
            send_only-rule IsPartOf net Cmd.logout (client_vin id) client_logout _
              (stopped (done ++ (beat ∷ [])) (logout ∷ []) _ e1 h1)
              λ m.
                stopped ((done ++ (beat ∷ [])) ++ (logout ∷ [])) [] _
                  (further (done ++ (beat ∷ [])) [] logout e1)
                  (wrote-HasWritten (done ++ (beat ∷ [])) (wrote c (client_frame beat) n) logout m
                    h1)

    realtime_loop-IsPartOf :
        (is : List ℕ) (done : List Transmission) (c : Client)
        → done ++ (map realtime_of is ++ after_realtime) ≡ client_transmissions id
        → HasWritten done c
        → IsPartOf (realtime_loop net (client_vin id) is (finish_client net (client_vin id)) c)
    unfolding realtime_loop
    realtime_loop-IsPartOf [] done c e h = finish_client-IsPartOf done c e h
    realtime_loop-IsPartOf (i ∷ is) done c e h =
        if_sent-rule IsPartOf net Cmd.realtime (client_vin id) (build_realtime i) c _
          (stopped done (map realtime_of (i ∷ is) ++ after_realtime) c e h)
          λ n.
            realtime_loop-IsPartOf is (done ++ (realtime_of i ∷ [])) _
              (further done (map realtime_of is ++ after_realtime) (realtime_of i) e)
              (wrote-HasWritten done c (realtime_of i) n h)

    abbrev first : Transmission
    first = (Cmd.login, client_login id)

    after_login-IsPartOf :
        (fine : Bool) (c : Client)
        → HasWritten (first ∷ []) c
        → IsPartOf (after_login net (client_vin id) (fine, c))
    unfolding after_login
    after_login-IsPartOf false c h = stopped (first ∷ []) _ _ refl h
    after_login-IsPartOf true c h = realtime_loop-IsPartOf (0 ∷ 1 ∷ []) (first ∷ []) _ refl h

    received-IsPartOf :
        (c : Client) (got : ℕ × Bool)
        → HasWritten (first ∷ []) c
        → IsPartOf (after_login net (client_vin id) (received c got))
    received-IsPartOf c (n, true) h = after_login-IsPartOf _ c h
    received-IsPartOf c (n, false) h = after_login-IsPartOf true _ h

    login-IsPartOf :
        (c : Client)
        → HasWritten [] c
        → IsPartOf (
            after_login net
              (client_vin id)
              (send_and_recv net Cmd.login (client_vin id) (client_login id) c))
    unfolding send_and_recv after_login
    login-IsPartOf c h = elim (Option-cases (net.write c.frames (client_frame first))) [
      | inl e ↦ rw (e, send_and_recv, after_login) (stopped [] _ _ refl h)
      | inr (n, e) ↦
          rw (e, send_and_recv)
            (received-IsPartOf (wrote c (client_frame first) n)
              (net.read (wrote c (client_frame first) n).frames) (wrote-HasWritten [] c first n h))
    ]

-- Whatever the network does, the frames that a client has written without an error are, in this
-- order, its login, two realtime messages, a heartbeat and a logout, or the first of them: none is
-- left out before another.
pub run_client-IsPartOf : (net : Network) (id : ℕ) (s : Stats) → IsPartOf id (run_client net id s)
unfolding run_client
run_client-IsPartOf net id s =
    choose-client (IsPartOf id) (not net.dials) _ _
      (stopped id [] (client_transmissions id) _ refl refl)
      (login-IsPartOf id net (record { frames = []; stats = record s { conned = s.conned + 1 } })
        refl)
