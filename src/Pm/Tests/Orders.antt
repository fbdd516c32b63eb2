-- ===== src/Pm/Tests/Orders.antt =====
-- The theorems about the order client applied to a concrete client.
use polymarket_cpp.Pm.Clob.ServerTime.{stoll, server_clock}
use polymarket_cpp.Prelude.{
  pos, negsuc, out_of_range, none, digits_prefix, ℕ, ◌≡◌, refl, false, some, inl, [], codes, ok,
  err, replicate, invalid_argument, value, runtime_error,
}
use polymarket_cpp.Net.HttpClient.Requests.{
  Attempt, HttpResponse, default_options, complete_response,
}
use polymarket_cpp.Net.HttpClient.Retries.{SentOnce}
use polymarket_cpp.Pm.Protocol.{ctf_v2}
use polymarket_cpp.Pm.Amounts.{buy}
use polymarket_cpp.Pm.Clob.Session.{ClobLibrary, Identity, ClobClient, failed, exception}
use polymarket_cpp.Pm.Clob.Queries.{heartbeat_mismatch_id}
use polymarket_cpp.Pm.Clob.Orders.{
  PlaceOrderArgs, PreparedOrder, valid_prepared, post_prepared_order, place_order,
}
use polymarket_cpp.Pm.Clob.Sending.{post_prepared_order-SentOnce, place_order-SentOnce}
use polymarket_cpp.Pm.Clob.Says.{Says}
use polymarket_cpp.Pm.Tests.Crypto.{toy}
use polymarket_cpp.Pm.Tests.Libraries.{fraction, fractions, numbers}

abbrev library : ClobLibrary fractions
library = record {
  clock_ms = λ n. 1700000000000;
  random_u64 = λ n. 42;
  parse_creds = λ body. err (runtime_error "pm: creds parse");
  read_tick_size = λ body. ok (inl "0.01");
  near = λ key d. false;
  read_neg_risk = λ body. ok false;
  read_mismatch = λ body. some (some (codes "Invalid Heartbeat ID"), some (codes "hb-7"));
  write_cancel = λ id. id;
  write_heartbeat = λ id. id;
  write_order = λ body. body.order.maker_amount;
}

abbrev self : Identity
self = record {
  signature_type = 0;
  signer = replicate 32 5;
  signer_address = replicate 20 1;
  funder_address = replicate 20 1;
  builder = replicate 32 0;
  builder_text = [];
}

abbrev answered : Attempt
answered = record {
  connect_error = λ step. false;
  write_error = false;
  written = 120;
  read_answer = complete_response (record { status = 200; body = codes "{}"; headers = [] }) false;
}

abbrev transport : ℕ → Attempt
transport n = answered

abbrev client : ClobClient
client = record {
  http = record {
    host = codes "clob";
    port = codes "443";
    options = default_options;
    has_stream = false;
    tries = 0;
    sent = [];
  };
  gamma = record {
    host = codes "gamma";
    port = codes "443";
    options = default_options;
    has_stream = false;
    tries = 0;
    sent = [];
  };
  creds = record { api_key = codes "key"; secret = codes "s"; passphrase = codes "p" };
}

abbrev args : PlaceOrderArgs fractions
args = record {
  token_id = codes "123";
  side = buy;
  price = fraction 37 2;
  size = fraction 525 2;
  order_type = "GTC";
  post_only = false;
  defer_exec = false;
  expiration_s = 0;
  tick_size = some "0.01";
  neg_risk = some false;
  protocol = ctf_v2;
  protect_market_buy_price = false;
}

abbrev malformed : PreparedOrder
malformed = record { order_id = codes "0x12"; body = codes "{}" }

post_prepared_order-SentOnce_example :
    SentOnce client.http
      (post_prepared_order fractions numbers transport library toy self malformed client).0.http
    × (valid_prepared malformed ≡ false
        → post_prepared_order fractions numbers transport library toy self malformed client
          ≡ (client, failed (exception (invalid_argument "pm: invalid prepared order"))))
post_prepared_order-SentOnce_example =
    post_prepared_order-SentOnce fractions numbers transport library toy self malformed client refl

place_order-SentOnce_example :
    SentOnce client.http
      (place_order fractions numbers transport library toy self args client).0.http
place_order-SentOnce_example =
    place_order-SentOnce fractions numbers transport library toy self args client "0.01" false refl
      refl refl

abbrev mismatch : HttpResponse
mismatch = record { status = 400; body = codes "{}"; headers = [] }

mismatch_read : heartbeat_mismatch_id transport fractions library mismatch ≡ some (codes "hb-7")
unfolding heartbeat_mismatch_id
mismatch_read = refl

clock_tests :
    (stoll (codes " -12x") ≡ ok (negsuc 11))
    × (stoll (codes "9223372036854775808") ≡ err (out_of_range "stoll"))
    × (server_clock (pos 1700000000) 1000 1301 ≡ some (pos 1700000000150))
    × (server_clock (pos 2) 1301 1000 ≡ some (pos 1850))
    × (server_clock (pos 9223372036854775) 0 4000 ≡ none)
unfolding stoll server_clock digits_prefix value
clock_tests = (refl, refl, refl, refl, refl)
