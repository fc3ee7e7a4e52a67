-- ===== src/Lib.antt =====
-- boiler-mate bridges a wood pellet boiler with an NBE controller to MQTT and Home Assistant.
-- The client of the package nbe sends request frames over UDP, numbers them, and hands each
-- response to the callback that waits for its number; the monitors poll the boiler and publish
-- what changed; commands from MQTT become set requests; the simulated boiler of the package
-- answers the same frames.
--
-- The modules and the files they model:
--
--  - Prelude: shared notation, lists, texts as bytes, integers with Go's narrowing conversions.
--  - Go: what the program uses of Go's standard library. Go.Decimal, Go.Space, Go.Format,
--    Go.Parse and Go.Split are fmt, strconv and strings over bytes; Go.Map is a map as its list
--    of entries, and Go.Map.Unordered a map as the quotient that forgets their order; Go.BigInt
--    is math/big. They stand for no file of the repository.
--  - Nbe.Types: nbe/types.go and nbe/setting.go. Nbe.Action: the chain of steps on a buffer that
--    the frame code is written in, with errors and panics as outcomes.
--  - Nbe.Helpers and Nbe.Payload: nbe/frame_helpers.go (readBytes is read_bytes,
--    serializePayload is serialize_payload, and so on for every function). Nbe.Helpers.Fields
--    and Nbe.Payload.RoundTrip hold their proofs, with Nbe.Payload.Keys.
--  - Nbe.Request: nbe/request_frame.go (Validate, Pack, Unpack), with the proofs in
--    Nbe.Request.RoundTrip and Nbe.Request.Encryption.
--  - Nbe.Response: nbe/response_frame.go (Pack, Unpack), with the proofs in
--    Nbe.Response.RoundTrip, Nbe.Response.Failure and Nbe.Response.Keys.
--  - Nbe.Mock: nbe/mock_boiler.go (handleRequest, processRequest, getData, setData, SetValue,
--    GetValue), with the proofs in Nbe.Mock.Decryption, Nbe.Mock.Settings, Nbe.Mock.Plain and
--    Nbe.Mock.Category. Nbe.Mock.Initial: NewMockBoiler and initializeData. Nbe.Mock.Server:
--    Start, Stop and listen as a step relation, with the proof in Nbe.Mock.Server.Ends.
--  - Nbe.Client: nbe/nbe.go (SendAsync, GetAsync, SetAsync, handle, randomString), with the
--    proofs in Nbe.Client.Sequence and Nbe.Client.Delivery.
--  - Nbe.Client.Connect: the calls of nbe/nbe.go that wait for their response (NewNBE, connect,
--    Send, Get, Set, getRSAKey), over a network that is a function of its state. Its children
--    hold the proofs: Exchange for a call that is answered, Boiler, Ready and Plain for the
--    simulated boiler as the network, Command for set requests, Silent for a network without
--    answers, Answers for any network, Discovered and Fresh for a client that connects to it.
--  - Nbe.Client.Listen: listen over what its socket reads, with the proof in
--    Nbe.Client.Listen.Delivery.
--  - Nbe.Client.Threads: the goroutines of nbe/nbe.go as a step relation, whose steps are the
--    regions under queueMutex, with the proofs in Sound and Twice below it.
--  - App: cmd/boiler-mate/main.go (determineMQTTPrefix, parseSetTopic, translatePowerCommand,
--    and the subscriber of set/+/+ as set_handler), with the proofs in App.Topics and
--    App.Settings. App.Startup: the ready signals that main waits for before the discovery, as a
--    step relation, with the proofs in App.Startup.Order. App.Bridge: the subscriber of set/+/+
--    and a round of a settings monitor over one state, of the client, the simulated boiler, the
--    monitor and the MQTT client, with the proofs in App.Bridge.Commands, and any run of them in
--    App.Bridge.Runs. App.Setup: main up to the start of the monitors, with the proofs in
--    App.Setup.Running, on the simulated boiler, and App.Setup.Silent, where the boiler does not
--    answer.
--  - Config: config/config.go (Load, lookupEnvOrString, lookupEnvOrBool, SetupLogging).
--  - Monitor: monitor/monitor.go (the callbacks of the three monitors, isNumeric, updateGauge),
--    with the proofs in Monitor.Changes, Monitor.Changes.Repeats, Monitor.Changes.Cache,
--    Monitor.States and Monitor.Registration. Monitor.Published: a settings monitor's callback
--    with what it publishes, with the proofs in Monitor.Published.Texts,
--    Monitor.Published.Shown, Monitor.Published.Order and Monitor.Published.Failure.
--    Monitor.Round: one round of each monitor over the client, and Monitor.Round.Boiler its
--    proofs against the simulated boiler.
--  - Mqtt: mqtt/client.go (PublishMany, PublishRaw, PublishJSON, Subscribe, the handler of a new
--    connection as on_connect, the broker's address), with the proofs in Mqtt.Subscriptions and
--    Mqtt.Retained. Mqtt.Options: createClientOptions and NewClient.
--  - HomeAssistant: HomeAssistant.Config is homeassistant/entity_types.go (Build in parts,
--    GetDiscoveryTopic), HomeAssistant.Entities is homeassistant/entities.go (AllEntities),
--    HomeAssistant.Discovery is homeassistant/discovery.go (PublishDiscovery,
--    createDeviceBlock), with the proofs in HomeAssistant.Build, HomeAssistant.Topics,
--    HomeAssistant.Controls, HomeAssistant.Availability and HomeAssistant.Discovery.Retained.
--  - The modules named Fixtures, Examples and Tests: concrete data, tests, and the theorems at
--    concrete inputs.
--
-- Conventions. A Go string or byte slice is a list of numbers below 256. The reader is a
-- bytes.Reader and the writer a bytes.Buffer, as in every call of the program: writing never
-- fails, and io.ReadFull takes the bytes or uses up a short input. A panic is an outcome of its
-- own. Integers of 8 and 16 bits are integers that the conversions narrow; the sequence number
-- is narrowed where Go increments it. The frame that an Unpack leaves behind on an error is not
-- modelled, since every caller drops it. A map is the list of its entries in the order in which
-- the run walks it, so that Go's unspecified order is any order of that list. A callback is a
-- value, and to call it is to return it with its response. `%06s` pads a text with zeros, as fmt
-- does.
--
-- A monitor's state is what its goroutine captures; the change set is its result, and whether
-- publishing it succeeds changes nothing in the monitor.
--
-- Parameters. cmp.Equal and the Prometheus registry are the record Monitor.Libraries, and what
-- cmp.Equal documents is Monitor.IsEqual; what Prometheus documents of a registry is
-- Monitor.Registration.IsRegistry. The connection of paho with json.Marshal is the record
-- Mqtt.Connection, and what MQTT promises of it is Mqtt.Subscriptions.IsSession and
-- Mqtt.Retained.IsRetaining; what json.Marshal and cmp.Equal document of a payload's values,
-- with the MarshalJSON and Equal of a float, is Monitor.Published.Texts.IsDocumented, by which a
-- float without a JSON number, as NaN, has no text. url.Parse is an argument of App.Setup.
-- Floats are a type F: strconv.ParseFloat, the two ways of printing a float and the lower case
-- of a text that is not ASCII are the record Nbe.Types.Runtime, without laws. The clock, the
-- random bytes and what the network does to a packet that is sent are arguments of each call,
-- and so is the flag package for Config. An RSA key pair and rand.Read enter Nbe.Mock.Decryption
-- by their documented behaviour, the records IsKeyPair and IsRandom.
--
-- Fuel. Decimal digits, bytes of a number, runes and the trimming of white space recur on a
-- number that bounds their rounds by the length of the text or by the number itself; the round
-- trips of Go.Decimal and Go.BigInt show that it is enough.
--
-- The network. A network takes a packet and its own state, and gives the packet that comes back
-- within the three seconds that Send waits, if one does; the packet comes from the host of the
-- URL, since listen drops every other one, as Nbe.Client.Listen has it. base64 and crypto/x509
-- are the record Nbe.Client.Connect.KeyFormat, without laws. In Nbe.Client.Threads a packet with
-- any number may come at any time, and a callback's own work is no step. In Nbe.Mock.Server a
-- read may fail at any time, a packet may be handled at any time after its read, and Start is
-- called once, where ListenPacket succeeds; a panic of handleRequest ends the run, as it ends
-- the program.
--
-- Not modelled: sockets, the TLS handshake, the flag parser, HTTP endpoints, logging, the sleeps
-- of the polling loops, and the start of the monitors' goroutines in main. The subscription and
-- the status of the device follow one another in App.Setup; main publishes the status in a
-- goroutine.
pub mod Prelude
pub mod Go
pub mod Nbe
pub mod App
pub mod Config
pub mod Monitor
pub mod Mqtt
pub mod HomeAssistant
