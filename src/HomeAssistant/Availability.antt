-- ===== src/HomeAssistant/Availability.antt =====
-- mqtt/client.go and homeassistant/entity_types.go: the topic that says whether the program runs.
use mathlib.Core.Path.{subst}
use boiler_mate.Prelude.{
  ◌≡◌, refl, ◌∙◌, ap, Bool, true, Bytes, codes, Option, some, bytes_eq, some-injective,
}
use boiler_mate.Go.Map.{lookup, beq_refl}
use boiler_mate.Mqtt.{Connection, Client, under, publish_online}
use boiler_mate.Mqtt.Retained.{IsRetaining, kept}
use boiler_mate.Mqtt.Options.{
  some_before, secured, Uri, Files, TlsConfig, ClientOptions, options_of, create_client_options,
  announced, new_client,
}
use boiler_mate.HomeAssistant.Config.{EntityConfig, text, Device, build}
use boiler_mate.HomeAssistant.Build.{lookup_avty_t-build}

module _ {B C V K : Type 0} (paho : Connection B C V) (broker : IsRetaining paho) (files : Files K)
    (dial : ClientOptions K → B × Bool) where
  -- What a client that is made was made with.
  new_client-options :
      (uri : Uri) (client_id prefix : Bytes) {opts : ClientOptions K} {client : Client B C}
      {connected : Bool}
      → new_client files paho dial uri client_id prefix ≡ some (opts, client, connected)
      → (config : Option (TlsConfig K)) × (announced files paho dial prefix
            (options_of files uri client_id prefix config)
          ≡ (opts, client, connected))
  unfolding new_client create_client_options
  new_client-options uri client_id prefix {opts = opts} {client = client} {connected = connected}
        made =
      let (opts', created, whole) =
        some_before (create_client_options files uri client_id prefix)
          (λ o. some (announced files paho dial prefix o)) made in
      let (config, secured_as, built) =
        some_before (secured files uri) (λ c. some (options_of files uri client_id prefix c))
          created in
      (
        config,
        ap (announced files paho dial prefix) (some-injective _ _ built) ∙ some-injective _ _ whole,
      )

  -- When NewClient has connected and returns, over a broker that retains messages, every entity's
  -- message names the topic of the client's will as the topic of its availability; that topic
  -- retains online, and after the will is published it retains offline.
  pub new_client-availability :
      (uri : Uri) (client_id prefix : Bytes) {opts : ClientOptions K} {client : Client B C}
      → new_client files paho dial uri client_id prefix ≡ some (opts, client, true)
      → {X : Type 0} (e : EntityConfig X) (serial : Bytes) (block : Device)
      → (lookup (codes "avty_t") (build e serial client.prefix block) ≡ some (text opts.will_topic))
        × (broker.retained opts.will_topic client.connection ≡ some (codes "online"))
        × (broker.retained opts.will_topic (
              paho.publish opts.will_topic opts.will_qos opts.will_retained opts.will_payload
                client.connection)
            ≡ some (codes "offline"))
  unfolding publish_online
  new_client-availability uri client_id prefix made e serial block =
      let (config, is) = new_client-options uri client_id prefix made in
      let status = under prefix (codes "device/status") in
      let on_topic : (b : B) (payload : Bytes)
          → broker.retained status (paho.publish status 1 true payload b) ≡ kept payload =
        λ b payload.
          broker.retained_publish status status 1 payload b ∙ rw (beq_refl status) refl in
      subst
        (λ t.
          (lookup (codes "avty_t") (build e serial t.1.prefix block) ≡ some (text t.0.will_topic))
          × (broker.retained t.0.will_topic t.1.connection ≡ some (codes "online"))
          × (broker.retained t.0.will_topic (
                paho.publish t.0.will_topic t.0.will_qos t.0.will_retained t.0.will_payload
                  t.1.connection)
              ≡ some (codes "offline")))
        is
        (
          lookup_avty_t-build e serial prefix block,
          on_topic (dial (options_of files uri client_id prefix config)).0 (codes "online"),
          on_topic _ (codes "offline"),
        )
