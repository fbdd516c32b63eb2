-- ===== src/Pm/Tests/Relaying.antt =====
-- The theorems about deposit wallets and the relayer applied to concrete values.
use polymarket_cpp.Prelude.{
  ℕ, ◌+◌, ◌≡◌, refl, ◌⊎◌, inl, false, Option, some, List, [], ◌∷◌, ◌++◌, Bytes, codes, arith,
  length, replicate, ok, to_string, if◌then◌else◌, ◌==◌,
}
use polymarket_cpp.Net.HttpClient.Requests.{Headers, HttpResponse, Attempt, default_options}
use polymarket_cpp.Pm.Crypto.{address_word}
use polymarket_cpp.Pm.Hex.{to_hex0x, from_hex}
use polymarket_cpp.Pm.Keys.{address}
use polymarket_cpp.Pm.Signing.{chain_id}
use polymarket_cpp.Pm.Signing.Words.{Collision}
use polymarket_cpp.Pm.DepositWallet.{
  DepositWalletCall, uups_init_code, beacon_init_code, derive_deposit_wallet_uups,
  derive_deposit_wallet_beacon,
}
use polymarket_cpp.Pm.DepositWallet.InitCode.{copied_from, copied_size, init_code_copied}
use polymarket_cpp.Pm.DepositWallet.Batch.{SameCalls, batch_digest-SameCalls}
use polymarket_cpp.Pm.DepositRpc.{
  DepositWalletResolution, returned, Run as RpcRun, resolve_deposit_wallet,
}
use polymarket_cpp.Pm.DepositRpc.Refinement.{
  Chain, IsChain, AnswersFor, Implements, resolve-Implements,
}
use polymarket_cpp.Pm.Relayer.{
  RelayerConfig, done, scalar, text, RelayerLibrary, RelayerClient, Run, request, get_nonce,
}
use polymarket_cpp.Pm.Relayer.Submit.{get_nonce-print}
use polymarket_cpp.Pm.Tests.Libraries.{numbers}
use polymarket_cpp.Pm.Tests.Crypto.{toy}

abbrev wallet : Bytes
wallet = replicate 20 7

uups_run : (code : Bytes) × (uups_init_code (replicate 20 1) (replicate 64 2) ≡ ok code)
unfolding uups_init_code from_hex
uups_run = (_, refl)

beacon_run : (code : Bytes) × (beacon_init_code (replicate 20 1) (replicate 64 2) ≡ ok code)
unfolding beacon_init_code from_hex
beacon_run = (_, refl)

init_code_copied_example :
    (copied_from uups_run.0 + copied_size uups_run.0 ≡ length uups_run.0)
    × (copied_from beacon_run.0 + copied_size beacon_run.0 ≡ length beacon_run.0)
init_code_copied_example =
    init_code_copied (replicate 20 1) (replicate 64 2) refl (omega arith) uups_run.1 beacon_run.1

abbrev transfer_call : DepositWalletCall numbers
transfer_call = record { target = replicate 20 3; value = 1000000; call_data = 0xa9 ∷ 0x05 ∷ [] }

abbrev calls : List (DepositWalletCall numbers)
calls = transfer_call ∷ []

batch_digest-SameCalls_example :
    ((chain_id ≡ chain_id)
      × (wallet ≡ wallet)
      × (◌≡◌ {A = ℕ} 1 1)
      × (◌≡◌ {A = ℕ} 1700000000 1700000000)
      × SameCalls calls calls)
    ⊎ Collision numbers toy
batch_digest-SameCalls_example =
    batch_digest-SameCalls numbers toy chain_id wallet 1 1700000000 calls chain_id wallet 1
      1700000000 calls (omega arith, omega arith) (refl, refl) (omega arith)
      ((refl, omega arith), tt) ((refl, omega arith), tt) refl

-- A chain with a beacon and no code but at one address, and a node for it.
abbrev chain : Chain
chain = record { beacon = replicate 20 6; bytecode = λ a. [] }

abbrev node : Bytes → Bytes → RpcRun ℕ Bytes
node method params n = (
  n + 1,
  returned (if length method == 8 then to_hex0x (address_word chain.beacon) else to_hex0x []),
)

node-AnswersFor : AnswersFor chain node
node-AnswersFor = record { beacon_answer = λ factory s h. refl; code_answer = λ a s. refl }

chain-IsChain : IsChain chain
chain-IsChain = record { beacon_size = refl; beacon_bytes = omega arith; code_bytes = λ a. tt }

abbrev owner : Bytes
owner = replicate 20 8

resolve-Implements_example :
    (u : Bytes) × (b : Bytes) × (r : DepositWalletResolution) × (derive_deposit_wallet_uups numbers
        toy owner
      ≡ ok u)
    × (derive_deposit_wallet_beacon numbers toy owner chain.beacon ≡ ok b)
    × ((resolve_deposit_wallet numbers toy node owner 0).1 ≡ returned r)
    × Implements chain owner u b r
resolve-Implements_example =
    resolve-Implements numbers toy node chain chain-IsChain node-AnswersFor owner 0

-- A relayer that answers every request with a nonce.
abbrev library : RelayerLibrary
library = record {
  Number = ℕ;
  to_u64 = λ n. n;
  read_generic = λ body. some (scalar (text body));
  read_transaction = λ body. some (body, []);
}

abbrev nonce_answer : HttpResponse
nonce_answer = record { status = 200; body = to_string 17; headers = [] }

abbrev callback : Option (Bytes → Bytes → Bytes → Headers → Run ℕ HttpResponse)
callback =
    some (λ method target body headers c. (record c { outside = c.outside + 1 }, done nonce_answer))

abbrev transport : ℕ → Attempt
transport n = record {
  connect_error = λ step. false;
  write_error = false;
  written = 0;
  read_answer = polymarket_cpp.Net.HttpClient.Requests.read_error 0;
}

abbrev client : RelayerClient ℕ
client = record {
  http = record {
    host = codes "relayer";
    port = codes "443";
    options = default_options;
    has_stream = false;
    tries = 0;
    sent = [];
  };
  outside = 0;
}

abbrev after : RelayerClient ℕ
after = record client { outside = 1 }

nonce_asked :
    request transport library callback
      (codes "GET")
      (codes "/nonce?address=" ++ (to_hex0x owner ++ codes "&type=WALLET"))
      []
      []
      client
    ≡ (after, done nonce_answer)
unfolding request
nonce_asked = refl

get_nonce-print_example : get_nonce transport library callback owner client ≡ (after, done 17)
get_nonce-print_example =
    get_nonce-print transport library callback owner 17 nonce_answer client after nonce_asked
      (omega arith) (omega arith) (omega arith) (inl refl)

abbrev with_builder : RelayerConfig
with_builder = record {
  url = codes "https://relayer";
  builder_creds = record { key = codes "k"; secret = codes "s"; passphrase = codes "p" };
  relayer_creds = record { key = []; address = [] };
}

abbrev without_creds : RelayerConfig
without_creds = record with_builder {
  builder_creds = record { key = []; secret = []; passphrase = [] };
}

abbrev key : Bytes
key = replicate 32 5
