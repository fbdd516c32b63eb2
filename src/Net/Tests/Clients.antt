-- ===== src/Net/Tests/Clients.antt =====
-- The theorems about the two clients applied to concrete runs.
use polymarket_cpp.Prelude.{
  List, inl, inr, ℕ, ◌+◌, ◌/◌, ◌≤◌, ◌≡◌, refl, true, false, none, [], ◌∷◌, max, ◌==◌, if◌then◌else◌,
  codes, ok, arith,
}
use polymarket_cpp.Net.WsClient.State.{
  begin_stage, wait_stage_timer, Environment, WsClient, new_client, resolve, connect,
  send_first_now,
}
use polymarket_cpp.Net.WsClient.Handlers.{stop, backoff_ms, do_connect, stage_done, stage_succeeded}
use polymarket_cpp.Net.WsClient.Events.{
  Event, reconnect_timer_event, handle, start_event, stop_event, stage_event, stage_timer_event,
}
use polymarket_cpp.Net.WsClient.Runs.{Among, started, ran}
use polymarket_cpp.Net.WsClient.Stopping.{here, after, stop-Later}
use polymarket_cpp.Net.WsClient.Reachable.{begun, IsRetired, backoff_ms_bounds}
use polymarket_cpp.Net.HttpClient.Url.{
  parse_https_url, parse_https_url-print, print_url, print_default,
}
use polymarket_cpp.Net.HttpClient.Requests.{
  Attempt, HttpsClient, default_options, complete_response, post_verb, request, request_once,
}
use polymarket_cpp.Net.HttpClient.Retries.{
  TriedAtMost, SentOnce, request-TriedAtMost, request_once-SentOnce,
}

abbrev quiet : Environment
quiet = record {
  host_hash = 17;
  keepalive_interval = 10000;
  keepalive_text = codes "PING";
  open_calls = send_first_now (codes "auth") ∷ [];
  message_calls = λ text. [];
  failure_policy = none;
  sni_setup = λ g. true;
  hostname_setup = λ g. true;
}

abbrev connecting : WsClient
connecting = handle quiet start_event new_client

abbrev resolved : WsClient
resolved = handle quiet (stage_event resolve 1 none) connecting

abbrev late : WsClient
late = handle quiet (stage_timer_event 1 false) resolved

start_begun :
    Among (begin_stage resolve 1) connecting.effects
    × (connecting.generation ≡ 1)
    × Among (wait_stage_timer 1) resolved.effects
    × (resolved.generation ≡ 1)
unfolding handle do_connect stage_done stage_succeeded
start_begun = (inl refl, refl, inr (inr (inl refl)), refl)

-- `stop` while the socket connects, and then the completion of the connect.
abbrev stopping : WsClient
stopping = handle quiet (stop_event true) resolved

stop_begun : Among (begin_stage connect 1) stopping.effects × (stopping.generation ≡ 2)
unfolding handle do_connect stage_done stage_succeeded stop
stop_begun = (inr (inr (inr (inr (inr (inl refl))))), refl)

stop-Later_example :
    IsRetired (begun resolved.effects) (handle quiet (stage_event connect 1 none) stopping)
stop-Later_example =
    let (resolves, g1, _, g2) = start_begun in
    let (connects, g3) = stop_begun in
    stop-Later quiet true resolved (handle quiet (stage_event connect 1 none) stopping)
      (ran (stage_event resolve 1 none) (ran start_event started tt (omega arith)) resolves
        (omega arith))
      (omega arith) (after (stage_event connect 1 none) here connects (omega arith))

backoff_ms_bounds_example :
    (500 ≤ backoff_ms 17 3 500)
    × (backoff_ms 17 3 500 ≤ 500 + max 25 (500 / 5))
    × (backoff_ms 17 3 500 ≤ 30000)
backoff_ms_bounds_example = backoff_ms_bounds 17 3 500 (omega arith)

parse_https_url-print_example :
    (parse_https_url
        (print_url (record { host = codes "rpc"; port = codes "8443"; target = b'/' ∷ codes "v1" }))
      ≡ ok (record { host = codes "rpc"; port = codes "8443"; target = b'/' ∷ codes "v1" }))
    × (parse_https_url (print_default (codes "rpc") (codes "v1"))
        ≡ ok (record { host = codes "rpc"; port = codes "443"; target = b'/' ∷ codes "v1" }))
parse_https_url-print_example =
    parse_https_url-print (codes "rpc") (codes "8443") (codes "v1") (λ e. cc) (λ e. cc)
      (omega arith) (omega arith) (omega arith)

-- The idle connection was closed by the peer; the second try answers.
abbrev dropped : Attempt
dropped = record {
  connect_error = λ step. false;
  write_error = true;
  written = 0;
  read_answer = complete_response (record { status = 200; body = codes "{}"; headers = [] }) false;
}

abbrev answered : Attempt
answered = record dropped { write_error = false; written = 120 }

transport : ℕ → Attempt
transport n = if n == 0 then dropped else answered

abbrev client : HttpsClient
client = record {
  host = codes "clob";
  port = codes "443";
  options = default_options;
  has_stream = true;
  tries = 0;
  sent = [];
}

request-TriedAtMost_example :
    TriedAtMost 2 (
      request transport post_verb
        (codes "/order")
        (codes "{}")
        []
        (codes "application/json")
        client)
request-TriedAtMost_example =
    request-TriedAtMost transport post_verb (codes "/order") (codes "{}") []
      (codes "application/json") client

request_once-SentOnce_example :
    SentOnce client
      (request_once transport post_verb
        (codes "/order")
        (codes "{}")
        []
        (codes "application/json")
        client).0
request_once-SentOnce_example =
    request_once-SentOnce transport post_verb (codes "/order") (codes "{}") []
      (codes "application/json") client

-- A connect that fails twice.
abbrev failing : List Event
failing = stage_timer_event 1 false ∷ reconnect_timer_event false ∷ stage_timer_event 3 false ∷ []
