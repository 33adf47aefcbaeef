-- ===== src/Client/Rule.antt =====
-- A client of the stress test stops where a write fails: rules for its writes.
use gb32960_go_sdk.Base.{ℕ, Bool, true, false, inl, inr, List, if◌then◌else◌, Option-cases}
use gb32960_go_sdk.Client.Stress.{build_packet, Network, Client, wrote, send_only, if_sent}

-- A write either fails, and the client stops as it is, or it goes on with the frame written.
pub if_sent-rule :
    (Q : Client → Type 0) (net : Network) (command : ℕ) (vin body : List ℕ) (c : Client)
    (more : Client → Client)
    → Q c
    → ((n : ℕ) → Q (more (wrote c (build_packet command vin body) n)))
    → Q (if_sent (send_only net command vin body c) more)
unfolding send_only
if_sent-rule Q net command vin body c more stop go =
    elim (Option-cases (net.write c.frames (build_packet command vin body))) [
      | inl e ↦ rw (e, send_only, if_sent) stop
      | inr (n, e) ↦ rw (e, send_only, if_sent) (go n)
    ]

pub send_only-rule :
    (Q : Client → Type 0) (net : Network) (command : ℕ) (vin body : List ℕ) (c : Client)
    → Q c
    → ((n : ℕ) → Q (wrote c (build_packet command vin body) n))
    → Q (send_only net command vin body c).1
unfolding send_only
send_only-rule Q net command vin body c stop go =
    elim (Option-cases (net.write c.frames (build_packet command vin body))) [
      | inl e ↦ rw (e, send_only) stop
      | inr (n, e) ↦ rw (e, send_only) (go n)
    ]

-- Whichever way a test goes.
pub choose-client :
    (Q : Client → Type 0) (b : Bool) (c d : Client) → Q c → Q d → Q (if b then c else d)
choose-client Q true c d h k = h
choose-client Q false c d h k = k
