-- ===== src/Pm/Tests/Queries.antt =====
-- The theorems about the public queries and the eligibility check applied to concrete values.
use polymarket_cpp.Prelude.{replicate, ℕ, suc, ◌≡◌, refl, ◌⊎◌, true, false, [], codes, arith, ok}
use polymarket_cpp.Net.HttpClient.Requests.{
  Attempt, HttpsClient, Outcome, response, complete_response, get,
}
use polymarket_cpp.Net.HttpClient.Retries.{TriedAtMost}
use polymarket_cpp.Pm.AccountRest.Client.{AccountRestClient}
use polymarket_cpp.Pm.PublicRest.{PublicRestClient}
use polymarket_cpp.Pm.PublicRest.Targets.{event_by_slug, Sent, Refused, perform-SentOrRefused}
use polymarket_cpp.Pm.Geoblock.{
  default_config, geoblock_path, one_shot_headers, check, valid_host, valid_port, valid_user_agent,
}
use polymarket_cpp.Pm.Geoblock.OneShot.{fresh, check-TriedAtMost}

abbrev client : PublicRestClient ℕ
client = record {
  clob_get = λ target n. (suc n, response (record { status = 200; body = target; headers = [] }));
  gamma_get = λ target n. (suc n, response (record { status = 404; body = target; headers = [] }));
}

perform-SentOrRefused_example :
    Sent client (event_by_slug (codes "fed-2026")) 0
    ⊎ Refused client (event_by_slug (codes "fed-2026")) 0
perform-SentOrRefused_example = perform-SentOrRefused client (event_by_slug (codes "fed-2026")) 0

abbrev transport : ℕ → Attempt
transport n = record {
  connect_error = λ step. false;
  write_error = true;
  written = 0;
  read_answer = complete_response (record { status = 200; body = []; headers = [] }) false;
}

host_valid : valid_host default_config.host ≡ true
unfolding valid_host
host_valid = refl

port_valid : valid_port default_config.port ≡ true
unfolding valid_port
port_valid = refl

agent_valid : valid_user_agent default_config.user_agent ≡ true
unfolding valid_user_agent
agent_valid = refl

check-TriedAtMost_example :
    (p : HttpsClient × Outcome) × (check transport default_config ≡ ok p)
    × (p ≡ get transport geoblock_path (one_shot_headers default_config) (fresh default_config))
    × TriedAtMost 1 p
check-TriedAtMost_example =
    check-TriedAtMost transport default_config host_valid port_valid agent_valid (omega arith)

abbrev account : AccountRestClient ℕ
account = record {
  creds = record { api_key = codes "key"; secret = codes "s"; passphrase = codes "p" };
  signer_address = replicate 20 1;
  signature_type = 0;
  unix_seconds = λ n. (suc n, 1700000000);
  clob_get = λ target headers n.
      (suc n, response (record { status = 200; body = target; headers = headers }));
  data_get = λ target n. (suc n, response (record { status = 200; body = target; headers = [] }));
}
