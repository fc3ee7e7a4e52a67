-- ===== src/App/Setup/Running.antt =====
-- cmd/boiler-mate/main.go: main on the simulated boiler, up to the start of the monitors.
use boiler_mate.Go.Map.{beq_refl, lookup, KeysNe}
use boiler_mate.Prelude.{
  bytes_eq, arith, arith, ℕ, ◌+◌, ◌≤◌, ◌<◌, ◌≡◌, refl, ◌∙◌, true, Bool, List, [], ◌++◌, Bytes,
  codes, Option, some, All, length,
}
use boiler_mate.Prelude.Int.{pos}
use boiler_mate.Config.{Config}
use boiler_mate.Go.Split.{Lacks}
use boiler_mate.Nbe.Types.{Runtime, text}
use boiler_mate.Nbe.Action.{ok}
use boiler_mate.Nbe.Payload.RoundTrip.{Reads}
use boiler_mate.Nbe.Request.{PublicKey}
use boiler_mate.Nbe.Mock.{PrivateKey}
use boiler_mate.Nbe.Mock.Initial.{new_mock_boiler}
use boiler_mate.Nbe.Client.{Nbe, Call}
use boiler_mate.Nbe.Client.Connect.{KeyFormat, rsa_key_from_base64, new_nbe}
use boiler_mate.Nbe.Client.Connect.Boiler.{boiler_network}
use boiler_mate.Nbe.Client.Connect.Fresh.{new_nbe-IsReady, connect-new}
use boiler_mate.Nbe.Client.Connect.Ready.{IsReady, Works}
use boiler_mate.Mqtt.{publish_online, Connection, Client, under, subscribe, payload_of}
use boiler_mate.Mqtt.Options.{
  announced, create_client_options, Files, TlsConfig, ClientOptions, secured, options_of,
  new_client,
}
use boiler_mate.Mqtt.Retained.{
  publish_many-prefix, IsRetaining, kept, Marshals, publish_many-retained,
}
use boiler_mate.Mqtt.Subscriptions.{IsSession, Accepts, publish_many-active}
use boiler_mate.App.{determine_mqtt_prefix}
use boiler_mate.App.Setup.{Url, running, device_status, subscribed, set_up}

module _ {B D V : Type 0} (paho : Connection B D V) (session : IsSession paho)
    (broker : IsRetaining paho) (handler : D) where
  -- What is in place behind the subscription and the status.
  pub record InPlace (prefix : Bytes) (boiler : Nbe (Bytes × Bytes)) (client : Client B D)
      : Type 0 where
    pub prefix_is : client.prefix ≡ prefix
    pub commands :
        session.active (under prefix (codes "set/+/+")) client.connection
        ≡ some (record { qos = 1; callback = handler })
    pub online :
        broker.retained (under (under prefix (codes "device")) (codes "status")) client.connection
        ≡ some (codes "online")
    pub serial_is :
        broker.retained (under (under prefix (codes "device")) (codes "serial")) client.connection
        ≡ kept boiler.serial
    pub ip_address_is :
        broker.retained
          (under (under prefix (codes "device")) (codes "ip_address"))
          client.connection
        ≡ kept boiler.ip_address

  subscribed-InPlace :
      Accepts paho
      → (boiler : Nbe (Bytes × Bytes)) (client : Client B D)
      → InPlace client.prefix boiler (subscribed paho handler boiler client)
  unfolding subscribed payload_of subscribe lookup
  subscribed-InPlace accepts boiler client =
      let listening = (subscribe paho (codes "set/+/+") 1 handler client).0 in
      let values = device_status {V = V} boiler in
      let keys : KeysNe values = ground arith in
      let marshals : Marshals paho broker values =
        ((codes "online", refl), ((boiler.serial, refl), ((boiler.ip_address, refl), tt))) in
      let shown = λ (key : Bytes).
        (publish_many-retained paho broker (codes "device") key values listening keys marshals).1 in
      record {
        prefix_is = publish_many-prefix paho broker (codes "device") values listening marshals;
        commands =
            publish_many-active paho session (codes "device")
              (under client.prefix (codes "set/+/+")) values listening
            ∙ session.active_subscribe (under client.prefix (codes "set/+/+"))
                (under client.prefix (codes "set/+/+")) 1 handler client.connection
                (accepts (under client.prefix (codes "set/+/+")) 1 handler client.connection)
            ∙ rw (beq_refl (under client.prefix (codes "set/+/+"))) refl;
        online = shown (codes "status");
        serial_is = shown (codes "serial");
        ip_address_is = shown (codes "ip_address");
      }

-- What NewNBE makes of the URL, connected to the boiler.
abbrev pub connected : Url → List ℕ × List ℕ → Bytes → PublicKey → Nbe (Bytes × Bytes)
connected url names serial key =
    record (new_nbe names.0 names.1 url.uri.username url.uri.password url.uri.hostname) {
      serial = serial;
      seq_no = pos 2;
      rsa_key = some key;
      queue = [];
    }

module _ {F B D K V : Type 0} (runtime : Runtime F) (tenths : ℕ → F) (format : KeyFormat)
    (files : Files K) (paho : Connection B D V) (session : IsSession paho)
    (broker : IsRetaining paho) (accepts : Accepts paho) (dial : ClientOptions K → B × Bool)
    (parse : Bytes → Option Url) (handler : D) where
  -- When both URLs are parsed, main connects to a new simulated boiler over a network that works,
  -- whatever names it draws, and to a broker that accepts its connection and its subscriptions,
  -- and gets to the start of its monitors with its client ready for a request under the number 2:
  -- the subscription of set/+/+ below the prefix is active with its handler, and the topics of the
  -- device retain online, the boiler's serial and the address of the URL. Serial and key are no
  -- numbers, have no semicolon and together at most 900 bytes, the key is parsed, the TLS files
  -- can be read, and the broker keeps MQTT's promises.
  pub set_up-running :
      (cfg : Config) (url mqtt_url : Url) (names : List ℕ × List ℕ) (call call' : Call)
      (rsa_private_key : PrivateKey) (rsa_key_base64 serial : Bytes) (key : PublicKey)
      (config : Option (TlsConfig K)) {seconds seconds' : ℕ}
      → parse cfg.controller_url ≡ some url
      → parse cfg.mqtt_url ≡ some mqtt_url
      → All (λ n. n < 25) names.0
      → length names.0 ≡ 12
      → All (λ n. n < 25) names.1
      → length names.1 ≡ 6
      → Works runtime call seconds
      → Works runtime call' seconds'
      → Lacks b';' serial
      → Reads runtime (text serial)
      → Lacks b';' rsa_key_base64
      → Reads runtime (text rsa_key_base64)
      → length serial + length rsa_key_base64 ≤ 900
      → rsa_key_from_base64 format rsa_key_base64 ≡ ok key
      → secured files mqtt_url.uri ≡ some config
      → let prefix = determine_mqtt_prefix mqtt_url.path serial in
        let boiler = connected url names serial key in
        let mock = new_mock_boiler tenths rsa_private_key rsa_key_base64 serial in
        (dial (options_of files mqtt_url.uri (codes "nbemqtt-" ++ serial) prefix config)).1 ≡ true
        → (client : Client B D) × (set_up runtime
              (boiler_network runtime)
              format
              files
              paho
              dial
              parse
              handler
              cfg
              (names, (call, call'))
              mock
            ≡ running (record { boiler = boiler; network_state = mock; mqtt_client = client }))
          × InPlace paho session broker handler prefix boiler client
          × IsReady runtime boiler 2
  unfolding set_up new_client create_client_options publish_online
  set_up-running cfg url mqtt_url names call call' rsa_private_key rsa_key_base64 serial key config
        parsed mqtt_parsed app twelve controller six works works' plain read key_plain key_read
        short key_parsed secure dialled =
      let prefix = determine_mqtt_prefix mqtt_url.path serial in
      let boiler = connected url names serial key in
      let fresh =
        new_nbe-IsReady runtime tenths {C = Bytes × Bytes} names.0 names.1 url.uri.username
          url.uri.password url.uri.hostname app twelve controller six in
      let opts = options_of files mqtt_url.uri (codes "nbemqtt-" ++ serial) prefix config in
      let made = (announced files paho dial prefix opts).1 in
      (
        subscribed paho handler boiler made,
        rw
            (
              parsed,
              connect-new runtime tenths {C = Bytes × Bytes} format call call' ([], []) ([], [])
                  names.0 names.1 url.uri.username url.uri.password url.uri.hostname rsa_private_key
                  rsa_key_base64 serial key app twelve controller six works works' plain read
                  key_plain key_read short key_parsed,
              mqtt_parsed,
              secure,
              dialled,
            )
            refl,
        subscribed-InPlace paho session broker handler accepts boiler made,
        record {
          app_ascii = fresh.app_ascii;
          app_full = fresh.app_full;
          controller_ascii = fresh.controller_ascii;
          controller_full = fresh.controller_full;
          seq_no_is = refl;
          seq_no_two = omega arith;
          queue_empty = refl;
        },
      )
