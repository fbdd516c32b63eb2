-- ===== src/Pm/Relayer/Submit.antt =====
-- What a relayer client reads and what it sends.
use polymarket_cpp.Prelude.{
  ℕ, ◌≤◌, ◌<◌, ◌≡◌, ◌≢◌, refl, ap, ◌∙◌, ◌⊎◌, inl, inr, false, Option, some, List, [], ◌∷◌, ◌++◌,
  Bytes, codes, arith, AllDigits, leb, ◌==◌, le→ltb, to_string, digits_prefix-digits, value,
  value-to_string, to_string-AllDigits, to_string-ne-nil, max_u64, Result, ok, err, runtime_error,
}
use polymarket_cpp.Net.HttpClient.Requests.{Headers, HttpResponse, Attempt}
use polymarket_cpp.Pm.U256.{U256Library}
use polymarket_cpp.Pm.Crypto.{CryptoLibrary}
use polymarket_cpp.Pm.Hex.{to_hex0x, eth_address_from_hex}
use polymarket_cpp.Pm.Keys.{address}
use polymarket_cpp.Pm.Auth.{b64url_encode, b64url_decode, hmac_sha256}
use polymarket_cpp.Pm.DepositWallet.{DepositWalletCall, sign_deposit_wallet_batch}
use polymarket_cpp.Pm.Signing.{chain_id}
use polymarket_cpp.Pm.Relayer.Requests.{
  builder_complete, relayer_complete, build_deposit_wallet_create_request,
  build_deposit_wallet_batch_request, stoull, without_space, is_space,
}
use polymarket_cpp.Pm.Relayer.{
  RelayerConfig, RelayerError, exception, failed, done, Scalar, Generic, scalar, object, text,
  RelayerLibrary, RelayerClient, Run, and_then, lift, lookup_field, require_success, nonce_of,
  request, get_nonce, submit_headers, submit, deploy_deposit_wallet, execute_deposit_wallet_batch,
}

stoull-digits :
    (ds : Bytes) → AllDigits ds → ds ≢ [] → value ds ≤ max_u64 → stoull ds ≡ ok (value ds)
unfolding stoull without_space
stoull-digits [] h ne small = absurd (ne refl)
stoull-digits (c ∷ cs) h ne small =
    let space : is_space c ≡ false = ground (arith, h.0) in
    let minus : (c == b'-') ≡ false = ground (arith, h.0) in
    let plus : (c == b'+') ≡ false = ground (arith, h.0) in
    rw (space, minus, plus, digits_prefix-digits (c ∷ cs) h, le→ltb max_u64 (value (c ∷ cs)) small)
      refl

stoull-to_string : (n : ℕ) → n ≤ max_u64 → stoull (to_string n) ≡ ok n
stoull-to_string n h =
    stoull-digits (to_string n) (to_string-AllDigits n) (to_string-ne-nil n)
      (rw (value-to_string n) h)
    ∙ ap ok (value-to_string n)

-- A response that says the nonce, as a text by itself or in the field of its name.
abbrev pub SaysNonce : {N : Type 0} → ℕ → Option (Generic N) → Type 0
SaysNonce {N} n answer =
    (answer ≡ some (scalar (text (to_string n))))
    ⊎ ((fields : List (Bytes × Scalar N)) × (answer ≡ some (object fields))
        × (lookup_field (codes "nonce") fields ≡ some (text (to_string n))))

nonce_of-SaysNonce :
    (lib : RelayerLibrary) (n : ℕ) (answer : Option (Generic lib.Number))
    → n ≤ max_u64
    → SaysNonce n answer
    → nonce_of lib answer ≡ ok n
unfolding nonce_of
nonce_of-SaysNonce lib n answer h (inl e) = rw e (stoull-to_string n h)
nonce_of-SaysNonce lib n answer h (inr (fields, e, f)) = rw (e, f) (stoull-to_string n h)

module _ {S : Type 0} (transport : ℕ → Attempt) (lib : RelayerLibrary)
    (callback : Option (Bytes → Bytes → Bytes → Headers → Run S HttpResponse)) where
  -- A nonce of 64 bits that the relayer writes in decimal digits, in a response of a status from 200 to 299,
  -- is the nonce that `get_nonce` returns; the client is as the request left it.
  pub get_nonce-print :
      (owner : Bytes) (n : ℕ) (r : HttpResponse) (c d : RelayerClient S)
      → request transport lib callback
          (codes "GET")
          (codes "/nonce?address=" ++ (to_hex0x owner ++ codes "&type=WALLET"))
          []
          []
          c
        ≡ (d, done r)
      → 200 ≤ r.status
      → r.status < 300
      → n ≤ max_u64
      → SaysNonce n (lib.read_generic r.body)
      → get_nonce transport lib callback owner c ≡ (d, done n)
  unfolding get_nonce require_success
  get_nonce-print owner n r c d asked low high fits says =
      let over : leb 300 r.status ≡ false = ground arith in
      rw
        (
          asked,
          le→ltb r.status 200 low,
          over,
          nonce_of-SaysNonce lib n (lib.read_generic r.body) fits says,
        )
        refl

  module _ (big : U256Library) (crypto : CryptoLibrary big) (clock_s : RelayerClient S → ℕ)
      (config : RelayerConfig) where
    -- The headers speak for the body: with builder credentials by their HMAC over the time, the method, the
    -- path and the body, and otherwise with the key and address of the relayer.
    abbrev pub Authorizes : Bytes → ℕ → Headers → Type 0
    Authorizes body time headers =
        ((secret : Bytes) × (b64url_decode big crypto config.builder_creds.secret ≡ ok secret)
          × (headers
              ≡ (codes "POLY_BUILDER_API_KEY", config.builder_creds.key)
                ∷ (codes "POLY_BUILDER_TIMESTAMP", to_string time)
                ∷ (codes "POLY_BUILDER_PASSPHRASE", config.builder_creds.passphrase)
                ∷ (
                  codes "POLY_BUILDER_SIGNATURE",
                  b64url_encode big crypto (
                      hmac_sha256 big crypto secret
                        (to_string time ++ (codes "POST" ++ (codes "/submit" ++ body)))),
                )
                ∷ []))
        ⊎ ((a : Bytes) × (builder_complete config.builder_creds ≡ false)
            × (eth_address_from_hex config.relayer_creds.address ≡ ok a)
            × (headers
                ≡ (codes "RELAYER_API_KEY", config.relayer_creds.key)
                  ∷ (codes "RELAYER_API_KEY_ADDRESS", to_hex0x a)
                  ∷ []))

    submit-refused :
        (body : Bytes) (timestamp_s : ℕ) (c : RelayerClient S)
        → builder_complete config.builder_creds ≡ false
        → relayer_complete config.relayer_creds ≡ false
        → (e : RelayerError) × (submit transport lib callback big crypto clock_s config body
              timestamp_s c
            ≡ (c, failed e))
    unfolding submit submit_headers
    submit-refused body timestamp_s c hb hr =
        (exception (runtime_error "relayer submit credentials unavailable"), rw (hb, hr) refl)

    -- Without credentials nothing is sent: neither a deployment nor a batch touches the client, and both fail.
    pub submit_refused :
        (key owner wallet : Bytes) (nonce deadline : ℕ) (calls : List (DepositWalletCall big))
        (timestamp_s : ℕ) (c : RelayerClient S)
        → builder_complete config.builder_creds ≡ false
        → relayer_complete config.relayer_creds ≡ false
        → ((e : RelayerError) × (deploy_deposit_wallet transport lib callback big crypto clock_s
                config owner timestamp_s c
              ≡ (c, failed e)))
          × ((e : RelayerError) × (execute_deposit_wallet_batch transport lib callback big crypto
                  clock_s config key wallet nonce deadline calls timestamp_s c
                ≡ (c, failed e)))
    unfolding deploy_deposit_wallet execute_deposit_wallet_batch
    submit_refused key owner wallet nonce deadline calls timestamp_s c hb hr = (
      lift_refused (build_deposit_wallet_create_request owner) _ (λ body. refused body),
      lift_refused (sign_deposit_wallet_batch big crypto key chain_id wallet nonce deadline calls) _
          (λ signature.
            lift_refused
              (build_deposit_wallet_batch_request big (address big crypto key) wallet nonce deadline
                calls signature)
              _ (λ body. refused body)),
    )
      where
        refused :
            (body : Bytes)
            → (e : RelayerError) × (submit transport lib callback big crypto clock_s config body
                  timestamp_s c
                ≡ (c, failed e))
        refused body = submit-refused body timestamp_s c hb hr

        lift_refused :
            {A B : Type 0} (r : Result A) (f : A → Run S B)
            → ((a : A) → (e : RelayerError) × (f a c ≡ (c, failed e)))
            → (e : RelayerError) × (and_then (lift r c) f ≡ (c, failed e))
        lift_refused (ok a) f h = h a
        lift_refused (err x) f h = (exception x, refl)
