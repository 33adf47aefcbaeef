-- ===== src/Forward/Schedule.antt =====
-- What the forwarders bring out, whatever the order of their goroutines.
use gb32960_go_sdk.Base.{
  ℕ, ◌≡◌, refl, sym, ap, ◌∙◌, Bool-cases, false, length, ◌==◌, ◌⊎◌, inl, inr, List, [], ◌∷◌, ◌++◌,
  map, Option, none, some, append-nil, append_assoc,
}
use mathlib.Core.List.{Perm, filter_map, filter_map-append}
use mathlib.Core.List.Perm
use gb32960_go_sdk.Forward.{
  kafka_forwarder, mqtt_forwarder, sends_message, publishes, KafkaConfig, MqttConfig, ForwardError,
  Token, outcome, waited, new_kafka_forwarder, new_mqtt_forwarder, connect_timeout, Brokers, Msg,
  Forwarder, ClientCall, delivery, forward, started, run_tasks,
}

-- What a forwarder is made of.
pub data ForwarderConfig : Type 0 where
  to_kafka : KafkaConfig → ForwarderConfig
  to_mqtt : MqttConfig → ForwarderConfig

abbrev pub opens :
    Brokers → ForwarderConfig → List ClientCall → (ForwardError ⊎ Forwarder) × List ClientCall
opens b (to_kafka cfg) t = new_kafka_forwarder b cfg t
opens b (to_mqtt cfg) t = new_mqtt_forwarder b cfg t

-- Forwarders that the constructors gave for some configurations, each at some time.
pub data AllOpened (b : Brokers) : List ForwarderConfig → List Forwarder → Type 0 where
  none_opened : AllOpened b [] []
  one_opened :
      {cs : List ForwarderConfig} {fs : List Forwarder} (c : ForwarderConfig) (f : Forwarder)
      (t : List ClientCall)
      → (opens b c t).0 ≡ inr f
      → AllOpened b cs fs
      → AllOpened b (c ∷ cs) (f ∷ fs)

-- What is to be sent for an encoded message: to Kafka a message with the topic of the configuration,
-- to MQTT a publication with that topic, of quality 1 and not retained.
abbrev pub expected : ForwarderConfig → List ℕ → ClientCall
expected (to_kafka cfg) body = sends_message cfg.topic body
expected (to_mqtt cfg) body = publishes cfg.topic 1 false body

outcome-inr :
    (f g : Forwarder) (e : Option ℕ)
    → ◌≡◌ {A = ForwardError ⊎ Forwarder} (outcome f e) (inr g)
    → f ≡ g
outcome-inr f g none e = cc
outcome-inr f g (some x) e = cc

waited-inr :
    (f g : Forwarder) (late : ForwardError) (token : Token)
    → ◌≡◌ {A = ForwardError ⊎ Forwarder} (waited f late token) (inr g)
    → f ≡ g
waited-inr f g late token e = elim (Bool-cases token.in_time) [
  | inl fine ↦ outcome-inr f g token.error (rw fine at e)
  | inr slow ↦ cc (rw slow at e)
]

new_kafka_forwarder-inr :
    (b : Brokers) (cfg : KafkaConfig) (t : List ClientCall) (f : Forwarder)
    → (new_kafka_forwarder b cfg t).0 ≡ inr f
    → kafka_forwarder cfg.topic ≡ f
unfolding new_kafka_forwarder
new_kafka_forwarder-inr b cfg t f e = elim (Bool-cases (length cfg.brokers == 0)) [
  | inl h ↦ cc (rw h at e)
  | inr h ↦ elim (Bool-cases (length cfg.topic == 0)) [
    | inl k ↦ cc (rw (h, k) at e)
    | inr k ↦ outcome-inr _ f _ (rw (h, k) at e)
  ]
]

new_mqtt_forwarder-inr :
    (b : Brokers) (cfg : MqttConfig) (t : List ClientCall) (f : Forwarder)
    → (new_mqtt_forwarder b cfg t).0 ≡ inr f
    → mqtt_forwarder cfg.topic ≡ f
unfolding new_mqtt_forwarder
new_mqtt_forwarder-inr b cfg t f e = elim (Bool-cases (length cfg.broker == 0)) [
  | inl h ↦ cc (rw h at e)
  | inr h ↦ elim (Bool-cases (length cfg.topic == 0)) [
    | inl k ↦ cc (rw (h, k) at e)
    | inr k ↦ waited-inr _ f connect_timeout _ (rw (h, k) at e)
  ]
]

delivery-expected :
    (b : Brokers) (c : ForwarderConfig) (t : List ClientCall) (f : Forwarder) (body : List ℕ)
    → (opens b c t).0 ≡ inr f
    → delivery f body ≡ expected c body
delivery-expected b (to_kafka cfg) t f body e =
    ap (λ g. delivery g body) (sym (new_kafka_forwarder-inr b cfg t f e))
delivery-expected b (to_mqtt cfg) t f body e =
    ap (λ g. delivery g body) (sym (new_mqtt_forwarder-inr b cfg t f e))

-- The calls that bring an encoded message out for each configuration: none, where it has no encoding.
abbrev pub outgoing : ℕ ⊎ List ℕ → List ForwarderConfig → List ClientCall
outgoing (inl e) cs = []
outgoing (inr body) cs = map (λ c. expected c body) cs

abbrev pub deliveries : Brokers → List ForwarderConfig → List Msg → List ClientCall
deliveries b cs [] = []
deliveries b cs (m ∷ ms) = outgoing (b.marshal m) cs ++ deliveries b cs ms

-- The call of a single goroutine.
abbrev call_of : ℕ ⊎ List ℕ → Forwarder → Option ClientCall
call_of (inl e) f = none
call_of (inr body) f = some (delivery f body)

abbrev task_call : Brokers → Forwarder × Msg → Option ClientCall
task_call b (f, m) = call_of (b.marshal m) f

filter_map-call_of :
    (b : Brokers) (m : Msg) (r : ℕ ⊎ List ℕ)
    → b.marshal m ≡ r
    → (cs : List ForwarderConfig) (fs : List Forwarder) → AllOpened b cs fs
    → filter_map (task_call b) (map (λ f. (f, m)) fs) ≡ outgoing r cs
unfolding filter_map
filter_map-call_of b m (inl e) h _ _ none_opened = refl
filter_map-call_of b m (inr body) h _ _ none_opened = refl
filter_map-call_of b m (inl e) h _ _ (one_opened {cs} {fs} c f t o os) =
    rw h (filter_map-call_of b m (inl e) h cs fs os)
filter_map-call_of b m (inr body) h _ _ (one_opened {cs} {fs} c f t o os) =
    rw (h, delivery-expected b c t f body o)
      (ap (◌∷◌ (expected c body)) (filter_map-call_of b m (inr body) h cs fs os))

filter_map-started :
    (b : Brokers) (cs : List ForwarderConfig) (fs : List Forwarder) (ms : List Msg)
    → AllOpened b cs fs
    → filter_map (task_call b) (started fs ms) ≡ deliveries b cs ms
unfolding started filter_map
filter_map-started b cs fs [] o = refl
filter_map-started b cs fs (m ∷ ms) o =
    rw
      (
        filter_map-append,
        filter_map-call_of b m (b.marshal m) refl cs fs o,
        filter_map-started b cs fs ms o,
      )
      refl

forward-call_of :
    (b : Brokers) (f : Forwarder) (m : Msg) (r : ℕ ⊎ List ℕ)
    → b.marshal m ≡ r
    → (tasks : List (Forwarder × Msg)) (t : List ClientCall)
    → (forward b f m t).1 ++ filter_map (task_call b) tasks
      ≡ t ++ filter_map (task_call b) ((f, m) ∷ tasks)
unfolding forward filter_map
forward-call_of b f m (inl e) h tasks t = rw (forward, h) refl
forward-call_of b f m (inr body) h tasks t =
    rw (forward, h) (append_assoc t (delivery f body ∷ []) (filter_map (task_call b) tasks))

run_tasks-filter_map :
    (b : Brokers) (tasks : List (Forwarder × Msg)) (t : List ClientCall)
    → (run_tasks b tasks t).1 ≡ t ++ filter_map (task_call b) tasks
unfolding run_tasks forward filter_map
run_tasks-filter_map b [] t = sym (append-nil t)
run_tasks-filter_map b ((f, m) ∷ tasks) t =
    run_tasks-filter_map b tasks (forward b f m t).1
    ∙ forward-call_of b f m (b.marshal m) refl tasks t

-- The calls of the clients in the life of some forwarders. The constructors gave the forwarders for
-- some configurations. However the goroutines of some messages are ordered, and whatever the clients
-- answer, an error of one forwarder keeps nothing from the others: the calls are, up to their order,
-- those of before and, for each message that has an encoding and each configuration, one that sends
-- the encoding with the configuration's topic, to MQTT with quality 1 and not retained; a message
-- without an encoding is sent by none.
pub run_tasks-perm :
    (b : Brokers) (cs : List ForwarderConfig) (fs : List Forwarder) (ms : List Msg)
    (order : List (Forwarder × Msg)) (t : List ClientCall)
    → AllOpened b cs fs
    → Perm order (started fs ms)
    → Perm (run_tasks b order t).1 (t ++ deliveries b cs ms)
run_tasks-perm b cs fs ms order t o p =
    rw (run_tasks-filter_map b order t, sym (filter_map-started b cs fs ms o))
      (Perm.append_left t (Perm.filter_map (task_call b) p))
