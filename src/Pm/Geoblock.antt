-- ===== src/Pm/Geoblock.antt =====
-- pm/geoblock.cpp and pm/geoblock.hpp: the eligibility check, one request on a connection of its own.
pub mod OneShot
use polymarket_cpp.Prelude.{
  ℕ, ◌*◌, Bool, ◌&&◌, ◌||◌, not, Option, none, some, [], ◌∷◌, Bytes, codes, length, is_empty, all,
  leb, ◌==◌, is_digit, is_lower, is_upper, if◌then◌else◌, Result, ok, err, invalid_argument, ◌>>=◌,
  ◌>>◌, throw_if,
}
use polymarket_cpp.Net.HttpClient.Requests.{
  Headers, HttpsClient, HttpsClientOptions, Outcome, Attempt, get, make_client,
}

abbrev pub geoblock_path : Bytes
geoblock_path = codes "/api/geoblock"

abbrev pub geoblock_header_limit : ℕ
geoblock_header_limit = 64 * 1024

abbrev pub geoblock_body_limit : ℕ
geoblock_body_limit = 4 * 1024 * 1024

pub record GeoblockConfig : Type 0 where
  pub host : Bytes
  pub port : Bytes
  pub user_agent : Bytes
  pub transport : HttpsClientOptions

-- The members' initial values; the timeouts in milliseconds.
abbrev pub default_config : GeoblockConfig
default_config = record {
  host = codes "polymarket.com";
  port = codes "443";
  user_agent = codes "polymarket-cpp/0.1";
  transport = record {
    resolve_timeout = 10000;
    connect_timeout = 10000;
    handshake_timeout = 10000;
    write_timeout = 15000;
    read_timeout = 15000;
    retry_count = 0;
    header_limit = geoblock_header_limit;
    body_limit = geoblock_body_limit;
  };
}

abbrev pub is_host_char : ℕ → Bool
is_host_char c = is_lower c || is_upper c || is_digit c || c == b'-' || c == b'.'

unfoldable pub valid_host : Bytes → Bool
valid_host value = not (is_empty value) && leb (length value) 253 && all is_host_char value

unfoldable pub valid_port : Bytes → Bool
valid_port value = not (is_empty value) && leb (length value) 5 && all is_digit value

unfoldable pub valid_user_agent : Bytes → Bool
valid_user_agent value =
    not (is_empty value) && leb (length value) 128 && all (λ c. leb 0x21 c && leb c 0x7e) value

-- The options of the one request, whatever the caller's are.
abbrev pub one_shot_options : HttpsClientOptions → HttpsClientOptions
one_shot_options transport = record transport {
  retry_count = 0;
  header_limit = geoblock_header_limit;
  body_limit = geoblock_body_limit;
}

abbrev pub one_shot_headers : GeoblockConfig → Headers
one_shot_headers config =
    (codes "User-Agent", config.user_agent) ∷ (codes "Connection", codes "close") ∷ []

-- The client that is made for the request, with what comes of it.
unfoldable pub one_shot_get :
    (ℕ → Attempt) → GeoblockConfig → Bytes → Result (HttpsClient × Outcome)
one_shot_get transport config target = do
  client ← make_client config.host config.port (one_shot_options config.transport)
  ok (get transport target (one_shot_headers config) client)

-- The check before the handler is made, which keeps the configuration.
unfoldable pub make_get : GeoblockConfig → Result GeoblockConfig
unfolding valid_host valid_port valid_user_agent
make_get config = do
  throw_if
      (not (valid_host config.host)
        || not (valid_port config.port)
        || not (valid_user_agent config.user_agent))
      (invalid_argument "pm: invalid geoblock transport config")
  ok config

-- `GeoblockClient(config)` and one `check()`.
unfoldable pub check : (ℕ → Attempt) → GeoblockConfig → Result (HttpsClient × Outcome)
unfolding make_get one_shot_get
check transport config = do kept ← make_get config; one_shot_get transport kept geoblock_path

-- `GeoblockClient(get)` and one `check()`: an empty function is `none`.
unfoldable pub check_with : {S A : Type 0} → Option (Bytes → S → S × A) → Result (S → S × A)
check_with none = err (invalid_argument "pm: geoblock transport is not configured")
check_with (some get_) = ok (get_ geoblock_path)
