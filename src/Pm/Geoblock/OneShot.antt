-- ===== src/Pm/Geoblock/OneShot.antt =====
-- The eligibility check is one try with narrow bounds, and it does go out.
use polymarket_cpp.Prelude.{ℕ, ◌<◌, ◌≡◌, refl, true, false, [], arith, codes, ◌==◌, ok}
use polymarket_cpp.Net.HttpClient.Requests.{
  HttpsClient, HttpsClientOptions, Outcome, Attempt, get, get_verb, make_client,
}
use polymarket_cpp.Net.HttpClient.Retries.{TriedAtMost, request-TriedAtMost}
use polymarket_cpp.Pm.Geoblock.{
  GeoblockConfig, geoblock_path, valid_host, valid_port, valid_user_agent, one_shot_options,
  one_shot_headers, check,
}

abbrev pub HasTimeouts : HttpsClientOptions → Type 0
HasTimeouts o =
    (0 < o.resolve_timeout)
    × (0 < o.connect_timeout)
    × (0 < o.handshake_timeout)
    × (0 < o.write_timeout)
    × (0 < o.read_timeout)

-- The client of a check, before its request.
abbrev pub fresh : GeoblockConfig → HttpsClient
fresh config = record {
  host = config.host;
  port = config.port;
  options = one_shot_options config.transport;
  has_stream = false;
  tries = 0;
  sent = [];
}

positive : (n : ℕ) → 0 < n → (n == 0) ≡ false
positive n h = ground arith

make_client-fresh :
    (config : GeoblockConfig)
    → HasTimeouts config.transport
    → make_client config.host config.port (one_shot_options config.transport) ≡ ok (fresh config)
unfolding make_client
make_client-fresh config h =
    rw
      (
        positive config.transport.resolve_timeout h.0,
        positive config.transport.connect_timeout h.1,
        positive config.transport.handshake_timeout h.2,
        positive config.transport.write_timeout h.3,
        positive config.transport.read_timeout h.4,
      )
      refl

-- With a valid host, port and user agent and with timeouts that are not zero, whatever retries and limits the
-- caller asks for, a check is one request on a fresh client without retries and with the fixed limits on
-- header and body: it tries once at most, and where it fails it tried exactly once and holds no connection.
pub check-TriedAtMost :
    (transport : ℕ → Attempt) (config : GeoblockConfig)
    → valid_host config.host ≡ true
    → valid_port config.port ≡ true
    → valid_user_agent config.user_agent ≡ true
    → HasTimeouts config.transport
    → (p : HttpsClient × Outcome) × (check transport config ≡ ok p)
      × (p ≡ get transport geoblock_path (one_shot_headers config) (fresh config))
      × TriedAtMost 1 p
unfolding check get
check-TriedAtMost transport config host port agent timeouts = (
  get transport geoblock_path (one_shot_headers config) (fresh config),
  rw (host, port, agent, make_client-fresh config timeouts) refl,
  refl,
  request-TriedAtMost transport get_verb geoblock_path [] (one_shot_headers config)
      (codes "application/json") (fresh config),
)
