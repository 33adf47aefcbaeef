-- ===== src/Forward/Tests.antt =====
-- A forwarder of each kind, the one to Kafka failing, and two messages of which one has no encoding.
use gb32960_go_sdk.Base.{
  ℕ, ◌≡◌, refl, true, false, inl, inr, List, [], ◌∷◌, none, some, length, ◌==◌, if◌then◌else◌,
}
use mathlib.Core.List.{Perm}
use mathlib.Core.List.Perm
use gb32960_go_sdk.GoTime.{Time}
use gb32960_go_sdk.Connection.{logout_msg}
use gb32960_go_sdk.Forward.{
  Brokers, Msg, Forwarder, outside, no_broker, no_kafka_topic, kafka_forwarder, mqtt_forwarder,
  sends_message, publishes, started, run_tasks, forward, new_kafka_forwarder, new_mqtt_forwarder,
  connects, add_broker, set_client_id, set_password, set_connect_timeout, set_auto_reconnect,
  set_max_reconnect_interval,
}
use gb32960_go_sdk.Forward.Schedule.{
  ForwarderConfig, to_kafka, to_mqtt, AllOpened, none_opened, one_opened, deliveries,
  run_tasks-perm,
}

-- A VIN has an encoding unless it is empty; Kafka gives the error 7.
abbrev failing : Brokers
failing = record {
  marshal = λ m. if length m.0 == 0 then inl 3 else inr (0x7b ∷ 0x7d ∷ []);
  producer_error = λ t. none;
  connected = λ t. record { in_time = true; error = none };
  send_error = λ t. some 7;
  published = λ t. record { in_time = true; error = none };
  close_error = λ t. none;
}

abbrev left_at : Time
left_at = record { year = 2026; month = 5; day = 14; hour = 14; minute = 53; second = 0 }

abbrev left : List ℕ → Msg
left vin = (vin, logout_msg (record { logout_time = left_at; sequence = 1 }))

abbrev both : List Forwarder
both = kafka_forwarder (0x6b ∷ []) ∷ mqtt_forwarder (0x6d ∷ []) ∷ []

abbrev late_first : List (Forwarder × Msg)
late_first =
    (mqtt_forwarder (0x6d ∷ []), left (0x41 ∷ []))
    ∷ (kafka_forwarder (0x6b ∷ []), left (0x41 ∷ []))
    ∷ (kafka_forwarder (0x6b ∷ []), left [])
    ∷ (mqtt_forwarder (0x6d ∷ []), left [])
    ∷ []

late_first_run : run_tasks failing late_first [] ≡ (
  outside 7 ∷ outside 3 ∷ outside 3 ∷ [],
  publishes (0x6d ∷ []) 1 false (0x7b ∷ 0x7d ∷ [])
      ∷ sends_message (0x6b ∷ []) (0x7b ∷ 0x7d ∷ [])
      ∷ [],
)
unfolding run_tasks forward
late_first_run = refl

no_broker_opened :
    new_mqtt_forwarder failing
      (record { broker = []; client_id = []; topic = 0x6d ∷ []; username = []; password = [] })
      []
    ≡ (inl no_broker, [])
unfolding new_mqtt_forwarder
no_broker_opened = refl

no_topic_opened :
    new_kafka_forwarder failing (record { brokers = (0x62 ∷ []) ∷ []; topic = [] }) []
    ≡ (inl no_kafka_topic, [])
unfolding new_kafka_forwarder
no_topic_opened = refl

-- Without a user name only the password is set.
password_opened :
    new_mqtt_forwarder failing
      (record {
        broker = 0x62 ∷ [];
        client_id = [];
        topic = 0x6d ∷ [];
        username = [];
        password = 0x70 ∷ [];
      })
      []
    ≡ (
      inr (mqtt_forwarder (0x6d ∷ [])),
      connects (
            add_broker (0x62 ∷ [])
            ∷ set_client_id []
            ∷ set_password (0x70 ∷ [])
            ∷ set_connect_timeout 10000000000
            ∷ set_auto_reconnect true
            ∷ set_max_reconnect_interval 30000000000
            ∷ [])
          ∷ [],
    )
unfolding new_mqtt_forwarder
password_opened = refl

abbrev two_configs : List ForwarderConfig
two_configs =
    to_kafka (record { brokers = (0x62 ∷ []) ∷ []; topic = 0x6b ∷ [] })
    ∷ to_mqtt (record {
      broker = 0x62 ∷ [];
      client_id = [];
      topic = 0x6d ∷ [];
      username = [];
      password = [];
    })
    ∷ []

both_opened : AllOpened failing two_configs both
unfolding new_kafka_forwarder new_mqtt_forwarder
both_opened = one_opened _ _ [] refl (one_opened _ _ [] refl none_opened)

run_tasks-perm_example :
    Perm
      (run_tasks failing late_first []).1
      (deliveries failing two_configs (left (0x41 ∷ []) ∷ left [] ∷ []))
unfolding started
run_tasks-perm_example =
    run_tasks-perm failing two_configs both (left (0x41 ∷ []) ∷ left [] ∷ []) late_first []
      both_opened
      (Perm.swap (kafka_forwarder (0x6b ∷ []), left (0x41 ∷ []))
        (mqtt_forwarder (0x6d ∷ []), left (0x41 ∷ [])) _)
