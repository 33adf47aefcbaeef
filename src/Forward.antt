-- ===== src/Forward.antt =====
-- forward/, the forwarders to Kafka and MQTT, and `forward` of server.go, which hands a message to each
-- forwarder. The clients of the brokers are not the SDK's: what is called is recorded, and what they
-- answer is a parameter.
mod Tests
pub mod Schedule
use gb32960_go_sdk.Base.{
  ℕ, ◌*◌, Bool, true, false, not, ◌⊎◌, inl, inr, List, [], ◌∷◌, ◌++◌, map, Option, none, some,
  length, ◌==◌, if◌then◌else◌,
}
use gb32960_go_sdk.Connection.{ForwardMsg}

pub record KafkaConfig : Type 0 where
  pub brokers : List (List ℕ)
  pub topic : List ℕ

pub record MqttConfig : Type 0 where
  pub broker : List ℕ
  pub client_id : List ℕ
  pub topic : List ℕ
  pub username : List ℕ
  pub password : List ℕ

-- The options that `NewMQTTForwarder` sets, in their order, and the settings of a Kafka client.
pub data MqttSetting : Type 0 where
  add_broker set_client_id set_username set_password : List ℕ → MqttSetting
  set_connect_timeout : ℕ → MqttSetting
  set_auto_reconnect : Bool → MqttSetting
  set_max_reconnect_interval : ℕ → MqttSetting

pub data KafkaSetting : Type 0 where
  wait_for_local snappy : KafkaSetting
  return_successes : Bool → KafkaSetting
  retry_max dial_timeout read_timeout write_timeout : ℕ → KafkaSetting

-- The calls of the clients.
pub data ClientCall : Type 0 where
  new_sync_producer : List (List ℕ) → List KafkaSetting → ClientCall
  connects : List MqttSetting → ClientCall
  sends_message : List ℕ → List ℕ → ClientCall
  publishes : List ℕ → ℕ → Bool → List ℕ → ClientCall
  closes_producer : ClientCall
  disconnects : ℕ → ClientCall

-- The errors of the SDK, and those that a client or the encoding gives.
pub data ForwardError : Type 0 where
  no_brokers no_kafka_topic no_broker no_mqtt_topic connect_timeout publish_timeout : ForwardError
  outside : ℕ → ForwardError

-- What a token of the MQTT client says after the wait: whether it was in time, and its error.
pub record Token : Type 0 where
  pub in_time : Bool
  pub error : Option ℕ

-- A message with its VIN.
abbrev pub Msg : Type 0
Msg = List ℕ × ForwardMsg

-- What `json.Marshal` and the clients answer, by the calls so far.
pub record Brokers : Type 0 where
  pub marshal : Msg → ℕ ⊎ List ℕ
  pub producer_error : List ClientCall → Option ℕ
  pub connected : List ClientCall → Token
  pub send_error : List ClientCall → Option ℕ
  pub published : List ClientCall → Token
  pub close_error : List ClientCall → Option ℕ

-- A forwarder with its topic.
pub data Forwarder : Type 0 where
  kafka_forwarder mqtt_forwarder : List ℕ → Forwarder

abbrev seconds : ℕ → ℕ
seconds n = n * 1000000000

abbrev pub kafka_settings : List KafkaSetting
kafka_settings =
    wait_for_local
    ∷ snappy
    ∷ return_successes true
    ∷ retry_max 3
    ∷ dial_timeout (seconds 5)
    ∷ read_timeout (seconds 5)
    ∷ write_timeout (seconds 5)
    ∷ []

abbrev pub outcome : {A : Type 0} → A → Option ℕ → ForwardError ⊎ A
outcome a none = inr a
outcome a (some e) = inl (outside e)

pub new_kafka_forwarder :
    Brokers → KafkaConfig → List ClientCall → (ForwardError ⊎ Forwarder) × List ClientCall
new_kafka_forwarder b cfg t =
    if length cfg.brokers == 0
    then (inl no_brokers, t)
    else if length cfg.topic == 0
    then (inl no_kafka_topic, t)
    else let called = t ++ (new_sync_producer cfg.brokers kafka_settings ∷ []) in
      (outcome (kafka_forwarder cfg.topic) (b.producer_error called), called)

-- A name or a password that is empty is not set.
abbrev pub set_if : List ℕ → MqttSetting → List MqttSetting
set_if s o = if not (length s == 0) then o ∷ [] else []

abbrev pub mqtt_settings : MqttConfig → List MqttSetting
mqtt_settings cfg =
    add_broker cfg.broker
    ∷ set_client_id cfg.client_id
    ∷ (set_if cfg.username (set_username cfg.username)
        ++ (set_if cfg.password (set_password cfg.password)
            ++ (set_connect_timeout (seconds 10)
                ∷ set_auto_reconnect true
                ∷ set_max_reconnect_interval (seconds 30)
                ∷ [])))

-- `WaitTimeout` and `Error` of a token.
abbrev pub waited : {A : Type 0} → A → ForwardError → Token → ForwardError ⊎ A
waited a late token = if not token.in_time then inl late else outcome a token.error

pub new_mqtt_forwarder :
    Brokers → MqttConfig → List ClientCall → (ForwardError ⊎ Forwarder) × List ClientCall
new_mqtt_forwarder b cfg t =
    if length cfg.broker == 0
    then (inl no_broker, t)
    else if length cfg.topic == 0
    then (inl no_mqtt_topic, t)
    else let called = t ++ (connects (mqtt_settings cfg) ∷ []) in
      (waited (mqtt_forwarder cfg.topic) connect_timeout (b.connected called), called)

-- The call of a client that brings a body out.
abbrev pub delivery : Forwarder → List ℕ → ClientCall
delivery (kafka_forwarder topic) body = sends_message topic body
delivery (mqtt_forwarder topic) body = publishes topic 1 false body

-- Its answer: the errors that `Forward` returns.
abbrev pub delivered : Brokers → Forwarder → List ClientCall → List ForwardError
delivered b (kafka_forwarder topic) t = elim (b.send_error t) [
  | none ↦ []
  | some e ↦ outside e ∷ []
]
delivered b (mqtt_forwarder topic) t = elim (waited t publish_timeout (b.published t)) [
  | inl e ↦ e ∷ []
  | inr u ↦ []
]

-- `Forward`, with no error or one.
pub forward : Brokers → Forwarder → Msg → List ClientCall → List ForwardError × List ClientCall
forward b f m t = elim (b.marshal m) [
  | inl e ↦ (outside e ∷ [], t)
  | inr body ↦ let called = t ++ (delivery f body ∷ []) in (delivered b f called, called)
]

-- `Close` of a forwarder; the server drops its error.
abbrev pub close_call : Forwarder → ClientCall
close_call (kafka_forwarder topic) = closes_producer
close_call (mqtt_forwarder topic) = disconnects 500

-- The goroutines that the server's `forward` starts for some messages, one for each forwarder.
pub started : List Forwarder → List Msg → List (Forwarder × Msg)
started fs [] = []
started fs (m ∷ ms) = map (λ f. (f, m)) fs ++ started fs ms

-- These goroutines in some order, with the errors that they log.
pub run_tasks :
    Brokers → List (Forwarder × Msg) → List ClientCall → List ForwardError × List ClientCall
unfolding forward
run_tasks b [] t = ([], t)
run_tasks b ((f, m) ∷ tasks) t =
    let (errors, called) = forward b f m t in
    let (more, done) = run_tasks b tasks called in (errors ++ more, done)

-- The end of `Stop`.
pub close_forwarders : List Forwarder → List ClientCall → List ClientCall
close_forwarders fs t = t ++ map close_call fs
