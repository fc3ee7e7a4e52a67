-- ===== src/App/Bridge/Commands.antt =====
-- cmd/boiler-mate/main.go: from a message on a set topic to the topic that shows the setting.
use boiler_mate.Prelude.{
  ℕ, ◌≤◌, ◌≡◌, refl, false, [], ◌∷◌, ◌++◌, Bytes, codes, some, length, All, ◌==◌, bytes_eq,
}
use boiler_mate.Go.BigInt.{IsByte}
use boiler_mate.Go.Format.{IsAscii}
use boiler_mate.Go.Map.{Map, lookup}
use boiler_mate.Go.Split.{Lacks}
use boiler_mate.Nbe.Types.{Runtime, Scalar, Value, text, scalar}
use boiler_mate.Nbe.Action.{ok}
use boiler_mate.Nbe.Payload.{parse_value}
use boiler_mate.Nbe.Payload.RoundTrip.{reread-KeysNe}
use boiler_mate.Nbe.Request.{PublicKey}
use boiler_mate.Nbe.Mock.{MockBoiler, as_payload, set_value}
use boiler_mate.Nbe.Mock.Decryption.{IsKeyPair, IsRandom}
use boiler_mate.Nbe.Mock.Settings.{set_data-set_value}
use boiler_mate.Nbe.Client.{Call}
use boiler_mate.Nbe.Client.Connect.Command.{set-answer}
use boiler_mate.Nbe.Client.Connect.Ready.{IsReady, Works}
use boiler_mate.Mqtt.{Connection}
use boiler_mate.Mqtt.Retained.{IsRetaining}
use boiler_mate.Monitor.{Libraries}
use boiler_mate.Monitor.Published.{publish_response}
use boiler_mate.Monitor.Published.Texts.{IsDocumented, HasText}
use boiler_mate.Monitor.Changes.Cache.{settings_response-All}
use boiler_mate.Monitor.Published.Shown.{
  HaveTexts, IsShownAt, publish_response-prefix, Shows, publish_response-shown,
  publish_response-Shows,
}
use boiler_mate.Monitor.Round.Boiler.{
  IsCategory, Holds, next, entries_read, exchange-category, IsReady-next,
}
use boiler_mate.App.Topics.{set_topic}
use boiler_mate.App.Settings.{plain_command}
use boiler_mate.App.Bridge.Entries.{lookup-entries_read}
use boiler_mate.App.Bridge.{Bridge, command, poll}

-- The boiler with a setting of a category set to a text.
abbrev pub with_setting : {F : Type 0} → Bytes → Bytes → Bytes → MockBoiler F → MockBoiler F
with_setting category param value mb = record mb {
  settings = set_value category param (text value) mb.settings;
}

module _ {F R B D : Type 0} (runtime : Runtime F) (libraries : Libraries F R)
    (paho : Connection B D (Value F)) (documented : IsDocumented runtime libraries paho)
    (broker : IsRetaining paho) (category : Bytes) where
  -- The broker shows what the monitor remembers.
  abbrev pub IsShown : Bridge F R B D → Type 0
  IsShown bridge =
      Shows runtime libraries paho documented broker category bridge.monitor bridge.client

  -- The topic of a setting shows a value, and the values of the category all have a text.
  abbrev pub IsTopic : Bytes → Value F → Bridge F R B D → Type 0
  IsTopic k v bridge = IsShownAt runtime libraries paho documented broker category k v bridge.client

  abbrev pub HaveAllTexts : Map Bytes (Scalar F) → Type 0
  HaveAllTexts entries =
      HaveTexts runtime libraries paho documented broker category (entries_read runtime entries)

  -- A round of a category's settings monitor on the simulated boiler leaves the boiler as it is
  -- and makes the topic of every setting of the category retain its value as its text is read, or
  -- nothing when that is empty; after it, as before it, the broker shows what the monitor
  -- remembers. The client waits for nothing and the network works; the category is not the star
  -- and has at most 900 bytes; its entries have different keys of ASCII characters without
  -- capitals, semicolons and equals signs, values without semicolons that all have a text, which
  -- of the values a float alone may lack that is no finite number, and fit one response; a message
  -- stays until the next, and cmp.Equal and json.Marshal are as documented.
  pub poll-IsShown :
      (call : Call) (bridge : Bridge F R B D) (entries : Map Bytes (Scalar F)) {n seconds : ℕ}
      → IsReady runtime bridge.nbe n
      → Works runtime call seconds
      → IsCategory category
      → Holds runtime category bridge.boiler entries
      → HaveAllTexts entries
      → IsShown bridge
      → (bridge' : Bridge F R B D) × (poll runtime libraries paho category call bridge ≡ ok bridge')
        × (bridge'.nbe ≡ next bridge.nbe n)
        × (bridge'.boiler ≡ bridge.boiler)
        × (bridge'.client.prefix ≡ bridge.client.prefix)
        × IsShown bridge'
        × ((k : Bytes) (v : Value F)
            → lookup k (entries_read runtime entries) ≡ some v
            → IsTopic k v bridge')
  unfolding poll
  poll-IsShown call bridge entries {n = n} ready works is holds has_texts shown =
      let payload = entries_read runtime entries in
      let keys = reread-KeysNe runtime (as_payload entries) holds.keys_ne in
      let texts =
        settings_response-All libraries category (HasText runtime libraries paho documented) payload
          bridge.monitor has_texts in
      let done = publish_response libraries paho category payload (bridge.monitor, bridge.client) in
      (
        record {
          nbe = next bridge.nbe n;
          boiler = bridge.boiler;
          monitor = done.0;
          client = done.1;
        },
        rw
            (exchange-category runtime call ([], []) bridge.nbe bridge.boiler ready works category
              entries is holds)
            refl,
        refl,
        refl,
        publish_response-prefix runtime libraries paho documented broker category payload keys
            bridge.monitor bridge.client texts,
        publish_response-Shows runtime libraries paho documented broker category payload keys
            bridge.monitor bridge.client texts shown,
        publish_response-shown runtime libraries paho documented broker category payload keys
            bridge.monitor bridge.client texts shown,
      )

  module _ (call : Call) (prefix param value : Bytes) (bridge : Bridge F R B D) {n seconds : ℕ}
      (ready : IsReady runtime bridge.nbe n) (works : Works runtime call seconds) {key : PublicKey}
      (keys : IsKeyPair key bridge.boiler.rsa_private_key) (random : IsRandom call.random)
      (keyed : bridge.nbe.rsa_key ≡ some key) (pin_ascii : All IsAscii bridge.nbe.pin_code)
      (pin_short : length bridge.nbe.pin_code ≤ 10) (slash : Lacks b'/' category)
      (slash' : Lacks b'/' param) (dot : Lacks b'.' category)
      (equals : Lacks b'=' (category ++ (b'.' ∷ param)))
      (other : (category ++ (b'.' ∷ param) == codes "device.power_switch") ≡ false)
      (bytes : All IsByte ((category ++ (b'.' ∷ param)) ++ (b'=' ∷ value)))
      (short : length ((category ++ (b'.' ∷ param)) ++ (b'=' ∷ value)) ≤ 31) where
    -- A message on the set topic of a setting sets it in the boiler.
    command-boiler :
        command runtime libraries paho category call (set_topic prefix category param) value bridge
        ≡ ok (record bridge {
          nbe = next bridge.nbe n;
          boiler = with_setting category param value bridge.boiler;
        })
    unfolding command
    command-boiler =
        let exchanged =
          (set-answer runtime call (category ++ (b'.' ∷ param), value) bridge.nbe bridge.boiler
            ready works keys random keyed pin_ascii pin_short (category ++ (b'.' ∷ param)) value
            equals bytes short).1 in
        rw
          (
            plain_command prefix category param value slash slash' other,
            exchanged,
            set_data-set_value category param value bridge.boiler.settings dot,
          )
          refl

    -- A message on the set topic of a setting other than the power switch sets it in the simulated
    -- boiler, and the next round of the category's monitor makes the setting's topic retain the
    -- value as its text is read, or nothing when that is empty; after it, as before it, the broker
    -- shows what the monitor remembers, and the client's prefix is the same. The client waits for
    -- nothing, has the boiler's key, and a PIN code of at most ten ASCII characters; the network
    -- works; the names have no slash, the category no dot, and neither an equals sign; the setting
    -- is of at most 31 bytes; the category is not the star and has at most 900 bytes; the entries
    -- that the boiler then has of it, the setting among them, have different keys of ASCII
    -- characters without capitals, semicolons and equals signs, values without semicolons that all
    -- have a text, which of the values a float alone may lack that is no finite number, and fit
    -- one response; a message stays until the next, and cmp.Equal and json.Marshal are as
    -- documented.
    pub command-IsShown :
        (call' : Call) {seconds' : ℕ} (entries : Map Bytes (Scalar F))
        → Works runtime call' seconds'
        → IsCategory category
        → Holds runtime category (with_setting category param value bridge.boiler) entries
        → HaveAllTexts entries
        → IsShown bridge
        → (bridge' : Bridge F R B D) × (bridge'' : Bridge F R B D) × (command runtime libraries paho
              category call
              (set_topic prefix category param)
              value
              bridge
            ≡ ok bridge')
          × (poll runtime libraries paho category call' bridge' ≡ ok bridge'')
          × (bridge''.client.prefix ≡ bridge.client.prefix)
          × IsTopic param (scalar (parse_value runtime value)) bridge''
          × IsShown bridge''
    command-IsShown call' entries works' is holds texts shown =
        let set = record bridge {
          nbe = next bridge.nbe n;
          boiler = with_setting category param value bridge.boiler;
        } in
        let (bridge'', done, nbe_is, boiler_is, prefix_is, shown'', topics) =
          poll-IsShown call' set entries
            (IsReady-next runtime call ([], []) bridge.nbe bridge.boiler ready works) works' is
            holds texts shown in
        (
          set,
          bridge'',
          command-boiler,
          done,
          prefix_is,
          topics param (scalar (parse_value runtime value)) (
              lookup-entries_read runtime category param value bridge.boiler.settings entries
                holds.found_entries),
          shown'',
        )
