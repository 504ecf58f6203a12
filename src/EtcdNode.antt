-- ===== src/EtcdNode.antt =====
-- internal/etcd/etcd.go: the start of a node of the embedded etcd. The disk, the TLS files, the client
-- and the server of etcd are an interface; the log and the contexts' deadlines are left out.
pub mod Members
pub mod Endpoints
pub mod Start
pub mod Join
pub mod Listing
use Prim.Native.String.{◌++◌}
use mrmfactorytest.Prelude.{
  ℕ, String, Option, none, some, List, [], ◌∷◌, Bool, not, ◌==◌, if◌then◌else◌,
}
use mrmfactorytest.Prelude.Outcomes.{Outcome, value, failure, rename, chain}
use mrmfactorytest.Store.Decimal.{ℤ, pos, show}

pub record TlsConfig : Type 0 where
  pub ca_file : String
  pub server_cert_file : String
  pub server_key_file : String
  pub peer_cert_file : String
  pub peer_key_file : String
  pub client_cert_file : String
  pub client_key_file : String

abbrev pub is_enabled : TlsConfig → Bool
is_enabled t = not (t.ca_file == "")

abbrev pub get_scheme : TlsConfig → String
get_scheme t = if is_enabled t then "https" else "http"

-- The times are in nanoseconds.
pub record NodeConfig : Type 0 where
  pub node_id : String
  pub host_id : String
  pub data_dir : String
  pub initial_cluster : String
  pub cluster_state : String
  pub client_port : ℤ
  pub peer_port : ℤ
  pub tick_ms : ℕ
  pub election_ms : ℕ
  pub initial_cluster_token : String
  pub startup_timeout : ℕ
  pub dial_timeout : ℕ
  pub op_timeout : ℕ
  pub tls : TlsConfig

abbrev no_tls : TlsConfig
no_tls = record {
  ca_file = "";
  server_cert_file = "";
  server_key_file = "";
  peer_cert_file = "";
  peer_key_file = "";
  client_cert_file = "";
  client_key_file = "";
}

abbrev pub new_default_config : NodeConfig
new_default_config = record {
  node_id = "";
  host_id = "";
  data_dir = "";
  initial_cluster = "";
  cluster_state = "new";
  client_port = pos 0;
  peer_port = pos 0;
  tick_ms = 1000;
  election_ms = 5000;
  initial_cluster_token = "mrm-etcd-cluster-token";
  startup_timeout = 600_000_000_000;
  dial_timeout = 5_000_000_000;
  op_timeout = 30_000_000_000;
  tls = no_tls;
}

pub data NodeError : Type 0 where
  bad_key_pair bad_ca_file : String → NodeError
  no_ca_certificate : NodeError
  bad_url : String → NodeError
  bad_listen_peer bad_advertise_peer bad_listen_client bad_advertise_client : NodeError → NodeError
  bad_embed_config : NodeError → NodeError
  start_failed : String → NodeError
  too_slow : NodeError
  no_member_list remove_failed add_failed : String → NodeError
  not_removed : NodeError → NodeError

-- etcdserverpb.Member
pub record Member : Type 0 where
  pub id : ℕ
  pub name : String
  pub peer_urls : List String

-- transport.TLSInfo; the client's certificate is asked for wherever it is set.
pub record TlsInfo : Type 0 where
  pub cert_file : String
  pub key_file : String
  pub trusted_ca_file : String

-- The fields of embed.Config that are set here.
pub record EmbedConfig (Url : Type 0) : Type 0 where
  pub name : String
  pub dir : String
  pub log_level : String
  pub initial_cluster : String
  pub cluster_state : String
  pub initial_cluster_token : String
  pub tick_ms : ℕ
  pub election_ms : ℕ
  pub client_tls_info : Option TlsInfo
  pub peer_tls_info : Option TlsInfo
  pub listen_peer_urls : List Url
  pub advertise_peer_urls : List Url
  pub listen_client_urls : List Url
  pub advertise_client_urls : List Url

pub record Host : Type 1 where
  pub World : Type 0
  pub Url : Type 0
  pub Certificate : Type 0
  pub Pool : Type 0
  pub Client : Type 0
  pub Server : Type 0
  pub parse_url : String → Outcome String Url
  pub hostname : Url → String
  pub port : Url → String
  -- certificate and key file
  pub load_key_pair : String → String → World → Outcome String Certificate
  pub read_file : String → World → Outcome String String
  -- AppendCertsFromPEM on an empty pool
  pub pool_of : String → Option Pool
  -- os.IsNotExist of os.Stat's error
  pub is_missing : String → World → Bool
  pub remove_all : String → World → World
  pub new_client : List String → Option (Certificate × Pool) → Outcome String Client
  pub sync : Client → World → Option String × World
  pub close : Client → World → World
  pub member_list : Client → World → Outcome String (List Member) × World
  pub member_remove : Client → ℕ → World → Outcome String (Unit {0}) × World
  -- the members after the addition
  pub member_add : Client → List String → World → Outcome String (List Member) × World
  pub start_etcd : EmbedConfig Url → World → Outcome String Server × World
  -- whether the server is ready before the time is over
  pub is_ready : Server → ℕ → World → Bool × World
  -- Stop and Close
  pub stop : Server → World → World

-- fmt.Sprintf("%s://%s:%d", …)
abbrev pub address : String → String → ℤ → String
address scheme host port = scheme ++ ("://" ++ (host ++ (":" ++ show port)))

abbrev pub peer_url : NodeConfig → String
peer_url cfg = address (get_scheme cfg.tls) cfg.host_id cfg.peer_port

module _ (h : Host) where
  abbrev appended :
      h.Certificate → Option h.Pool → Outcome NodeError (Option (h.Certificate × h.Pool))
  appended cert none = failure no_ca_certificate
  appended cert (some pool) = value (some (cert, pool))

  abbrev with_ca :
      h.Certificate → Outcome String String → Outcome NodeError (Option (h.Certificate × h.Pool))
  with_ca cert (failure e) = failure (bad_ca_file e)
  with_ca cert (value pem) = appended cert (h.pool_of pem)

  abbrev with_key_pair :
      TlsConfig
      → h.World
      → Outcome String h.Certificate
      → Outcome NodeError (Option (h.Certificate × h.Pool))
  with_key_pair t w (failure e) = failure (bad_key_pair e)
  with_key_pair t w (value cert) = with_ca cert (h.read_file t.ca_file w)

  -- `none` stands for the nil of a disabled TLS.
  unfoldable pub create_client_tls_config :
      TlsConfig → h.World → Outcome NodeError (Option (h.Certificate × h.Pool))
  create_client_tls_config t w =
      if not (is_enabled t)
      then value none
      else with_key_pair t w (h.load_key_pair t.client_cert_file t.client_key_file w)

  abbrev parsed_before :
      Outcome String h.Url → Outcome NodeError (List h.Url) → Outcome NodeError (List h.Url)
  parsed_before (failure e) rest = failure (bad_url e)
  parsed_before (value u) (failure e) = failure e
  parsed_before (value u) (value us) = value (u ∷ us)

  unfoldable pub parse_urls : List String → Outcome NodeError (List h.Url)
  parse_urls [] = value []
  parse_urls (u ∷ us) = parsed_before (h.parse_url u) (parse_urls us)

  abbrev tls_info : TlsConfig → String → String → Option TlsInfo
  tls_info t cert key =
      if is_enabled t
      then some (record { cert_file = cert; key_file = key; trusted_ca_file = t.ca_file })
      else none

  -- The list of one address.
  abbrev parsed : (NodeError → NodeError) → String → Outcome NodeError (List h.Url)
  parsed f u = rename f (parse_urls (u ∷ []))

  unfoldable pub new_embed_config : NodeConfig → Outcome NodeError (EmbedConfig h.Url)
  new_embed_config cfg =
      let scheme = get_scheme cfg.tls in
      chain (parsed bad_listen_peer (address scheme "0.0.0.0" cfg.peer_port)) λ listen_peer.
        chain (parsed bad_advertise_peer (address scheme cfg.host_id cfg.peer_port))
          λ advertise_peer.
            chain (parsed bad_listen_client (address scheme "0.0.0.0" cfg.client_port))
              λ listen_client.
                chain (parsed bad_advertise_client (address scheme cfg.host_id cfg.client_port))
                  λ advertise_client. value (record {
                    name = cfg.node_id;
                    dir = cfg.data_dir;
                    log_level = "error";
                    initial_cluster = cfg.initial_cluster;
                    cluster_state = cfg.cluster_state;
                    initial_cluster_token = cfg.initial_cluster_token;
                    tick_ms = cfg.tick_ms;
                    election_ms = cfg.election_ms;
                    client_tls_info =
                        tls_info cfg.tls cfg.tls.server_cert_file cfg.tls.server_key_file;
                    peer_tls_info = tls_info cfg.tls cfg.tls.peer_cert_file cfg.tls.peer_key_file;
                    listen_peer_urls = listen_peer;
                    advertise_peer_urls = advertise_peer;
                    listen_client_urls = listen_client;
                    advertise_client_urls = advertise_client;
                  })
