-- ===== src/Mqtt/Options.antt =====
-- mqtt/client.go: the options of a connection and NewClient. The files of the certificates and the
-- connecting of paho are arguments.
use boiler_mate.Prelude.{
  arith, ◌≡◌, ℕ, Bool, true, [], Bytes, codes, Option, none, some, if◌then◌else◌, ◌==◌, bytes_eq,
  ◌||◌, refl, ◌≡◌, arith,
}
use boiler_mate.Mqtt.{Connection, Client, under, broker_address, publish_online}

infixl 5 ◌>>=◌
abbrev pub ◌>>=◌ : {A B : Type 0} → Option A → (A → Option B) → Option B
none >>= f = none
some a >>= f = f a

-- A chain that ends with a value had one at its first step.
pub some_before :
    {A B : Type 0} (o : Option A) (f : A → Option B) {b : B}
    → (o >>= f) ≡ some b
    → (a : A) × (o ≡ some a) × (f a ≡ some b)
some_before none f e = ground arith
some_before (some a) f e = (a, refl, e)

-- The parts of a URL; `query` is `uri.Query().Get`.
pub record Uri : Type 0 where
  pub scheme : Bytes
  pub hostname : Bytes
  pub port : Bytes
  pub username : Bytes
  pub password : Bytes
  pub query : Bytes → Bytes

-- `tls.LoadX509KeyPair` and `os.ReadFile`; `none` is an error.
pub record Files (K : Type 0) : Type 0 where
  pub load_x509_key_pair : Bytes → Bytes → Option K
  pub read_file : Bytes → Option Bytes

-- `tls.Config`: the certificate of the client, and the file of the roots.
pub record TlsConfig (K : Type 0) : Type 0 where
  pub insecure_skip_verify : Bool
  pub certificate : Option K
  pub root_cas : Option Bytes

-- `mqtt.ClientOptions`; times are in seconds.
pub record ClientOptions (K : Type 0) : Type 0 where
  pub broker : Bytes
  pub tls_config : Option (TlsConfig K)
  pub username : Bytes
  pub password : Bytes
  pub client_id : Bytes
  pub keep_alive : ℕ
  pub max_reconnect_interval : ℕ
  pub auto_reconnect : Bool
  pub will_topic : Bytes
  pub will_payload : Bytes
  pub will_qos : ℕ
  pub will_retained : Bool

module _ {K : Type 0} (files : Files K) where
  -- The client's certificate, which stays out where one of its files is not given; the outer `none`
  -- is the end of the program.
  loaded : Option K → Option (Option K)
  loaded none = none
  loaded (some cert) = some (some cert)

  certificate_of : Bytes → Bytes → Option (Option K)
  unfolding loaded
  certificate_of tls_cert tls_key =
      if tls_cert == [] || tls_key == []
      then some none
      else loaded (files.load_x509_key_pair tls_cert tls_key)

  read : Option Bytes → Option (Option Bytes)
  read none = none
  read (some content) = some (some content)

  root_cas_of : Bytes → Option (Option Bytes)
  unfolding read
  root_cas_of ca_cert = if ca_cert == [] then some none else read (files.read_file ca_cert)

  -- The TLS part of `createClientOptions`.
  tls_config_of : Uri → Option (TlsConfig K)
  unfolding certificate_of root_cas_of
  tls_config_of uri = do
    cert ← certificate_of (uri.query (codes "tls_cert")) (uri.query (codes "tls_key"))
    roots ← root_cas_of (uri.query (codes "tls_cacert"))
    some (record {
      insecure_skip_verify = uri.query (codes "insecure") == codes "true";
      certificate = cert;
      root_cas = roots;
    })

  unfoldable pub secured : Uri → Option (Option (TlsConfig K))
  unfolding tls_config_of
  secured uri =
      if uri.scheme == codes "mqtts"
      then (do config ← tls_config_of uri; some (some config))
      else some none

  -- The options, with a TLS configuration or none.
  abbrev pub options_of : Uri → Bytes → Bytes → Option (TlsConfig K) → ClientOptions K
  options_of uri client_id prefix config = record {
    broker = broker_address uri.scheme uri.hostname uri.port;
    tls_config = config;
    username = uri.username;
    password = uri.password;
    client_id = client_id;
    keep_alive = 30;
    max_reconnect_interval = 10;
    auto_reconnect = true;
    will_topic = under prefix (codes "device/status");
    will_payload = codes "offline";
    will_qos = 1;
    will_retained = true;
  }

  -- `createClientOptions` with `SetWill`; `none` is the end of the program.
  unfoldable pub create_client_options : Uri → Bytes → Bytes → Option (ClientOptions K)
  unfolding secured
  create_client_options uri client_id prefix = do
    config ← secured uri
    some (options_of uri client_id prefix config)

  module _ {B C V : Type 0} (paho : Connection B C V) (dial : ClientOptions K → B × Bool) where
    -- The client that is connected and announced; the status is published whether the connection
    -- was made or not.
    abbrev pub announced : Bytes → ClientOptions K → ClientOptions K × Client B C × Bool
    announced prefix opts = (
      opts,
      publish_online paho
          (record { prefix = prefix; connection = (dial opts).0; subscriptions = [] }),
      (dial opts).1,
    )

    -- `NewClient`, with the options and whether the error is nil.
    unfoldable pub new_client : Uri → Bytes → Bytes → Option (ClientOptions K × Client B C × Bool)
    unfolding create_client_options
    new_client uri client_id prefix = do
      opts ← create_client_options uri client_id prefix
      some (announced prefix opts)
