-- ===== src/Pm/Auth.antt =====
-- pm/codec.cpp and pm/auth.cpp: base64 and HMAC by libsodium, and the headers that authenticate a request.
use polymarket_cpp.Prelude.{
  ℕ, Option, none, some, [], ◌∷◌, ◌++◌, Bytes, codes, ◌==◌, if◌then◌else◌, to_string, Result, ok,
  err, invalid_argument, ◌>>=◌,
}
use polymarket_cpp.Net.HttpClient.Requests.{Headers}
use polymarket_cpp.Pm.U256.{U256Library}
use polymarket_cpp.Pm.Crypto.{CryptoLibrary}
use polymarket_cpp.Pm.Hex.{to_hex0x}
use polymarket_cpp.Pm.Keys.{address}
use polymarket_cpp.Pm.Signing.{sign_clob_auth}
use polymarket_cpp.Pm.Feeds.{ApiCreds}

-- `out.resize(out.find('\0'))`, where there is one.
unfoldable pub until_nul : Bytes → Bytes
until_nul [] = []
until_nul (c ∷ cs) = if c == 0 then [] else c ∷ until_nul cs

module _ (big : U256Library) (crypto : CryptoLibrary big) where
  abbrev pub b64url_encode : Bytes → Bytes
  b64url_encode bytes = until_nul (crypto.bin2base64 bytes)

  abbrev decoded : Option Bytes → Result Bytes
  decoded none = err (invalid_argument "b64url_decode: invalid input")
  decoded (some bytes) = ok bytes

  abbrev pub b64url_decode : Bytes → Result Bytes
  b64url_decode text = decoded (crypto.base642bin text)

  abbrev pub hmac_sha256 : Bytes → Bytes → Bytes
  hmac_sha256 key message = crypto.hmac key message

  unfoldable pub l1_headers : Bytes → ℕ → ℕ → Result Headers
  l1_headers key timestamp_s nonce = do
    sig ← sign_clob_auth big crypto key (address big crypto key) timestamp_s nonce
    ok (
        (codes "POLY_ADDRESS", to_hex0x (address big crypto key))
        ∷ (codes "POLY_SIGNATURE", to_hex0x sig)
        ∷ (codes "POLY_TIMESTAMP", to_string timestamp_s)
        ∷ (codes "POLY_NONCE", to_string nonce)
        ∷ [])

  unfoldable pub l2_headers : ApiCreds → Bytes → ℕ → Bytes → Bytes → Bytes → Result Headers
  l2_headers creds signer timestamp_s method path body = do
    let message = to_string timestamp_s ++ (method ++ (path ++ body))
    secret ← b64url_decode creds.secret
    let mac = hmac_sha256 secret message
    ok (
        (codes "POLY_ADDRESS", to_hex0x signer)
        ∷ (codes "POLY_SIGNATURE", b64url_encode mac)
        ∷ (codes "POLY_TIMESTAMP", to_string timestamp_s)
        ∷ (codes "POLY_API_KEY", creds.api_key)
        ∷ (codes "POLY_PASSPHRASE", creds.passphrase)
        ∷ [])
