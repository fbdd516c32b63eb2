-- ===== src/Net/HttpClient/Requests.antt =====
-- `HttpsClient`: one request on the keep-alive connection, and the two loops that try it again. What
-- OpenSSL, Asio and Beast answer to the operations of one try is an `Attempt`.
use polymarket_cpp.Prelude.{
  ℕ, zero, suc, ◌+◌, ◌*◌, Bool, true, false, ◌&&◌, ◌||◌, not, Option, none, some, List, [], ◌∷◌,
  ◌++◌, Bytes, String, codes, length, is_empty, is_upper, filter, ltb, ◌==◌, str_eq, if◌then◌else◌,
  to_string, Result, ok, invalid_argument, ◌>>◌, throw_if,
}

abbrev pub Headers : Type 0
Headers = List (Bytes × Bytes)

pub record HttpResponse : Type 0 where
  pub status : ℕ
  pub body : Bytes
  pub headers : Headers

pub record HttpsClientOptions : Type 0 where
  pub resolve_timeout : ℕ
  pub connect_timeout : ℕ
  pub handshake_timeout : ℕ
  pub write_timeout : ℕ
  pub read_timeout : ℕ
  pub retry_count : ℕ
  pub header_limit : ℕ
  pub body_limit : ℕ

abbrev pub default_options : HttpsClientOptions
default_options = record {
  resolve_timeout = 10000;
  connect_timeout = 10000;
  handshake_timeout = 10000;
  write_timeout = 15000;
  read_timeout = 30000;
  retry_count = 1;
  header_limit = 64 * 1024;
  body_limit = 16 * 1024 * 1024;
}

abbrev pub to_lower : ℕ → ℕ
to_lower c = if is_upper c then c + 32 else c

-- `beast::iequals`
unfoldable pub iequals : Bytes → Bytes → Bool
iequals [] [] = true
iequals [] (y ∷ ys) = false
iequals (x ∷ xs) [] = false
iequals (x ∷ xs) (y ∷ ys) = to_lower x == to_lower y && iequals xs ys

-- `HttpResponse::header`: the first field of the name, empty where there is none.
unfoldable pub find_header : Bytes → Headers → Bytes
unfolding iequals
find_header name [] = []
find_header name ((k, v) ∷ rest) = if iequals k name then v else find_header name rest

abbrev pub header : Bytes → HttpResponse → Bytes
header name response = find_header name response.headers

-- `basic_fields::set`: the fields of the name go, and the new one comes.
unfoldable pub set_field : Bytes → Bytes → Headers → Headers
unfolding iequals
set_field name value fields = filter (λ f. not (iequals f.0 name)) fields ++ (name, value) ∷ []

unfoldable pub set_all : Headers → Headers → Headers
unfolding set_field
set_all [] fields = fields
set_all ((k, v) ∷ rest) fields = set_all rest (set_field k v fields)

pub data Verb : Type 0 where
  get_verb post_verb delete_verb : Verb

abbrev is_post : Verb → Bool
is_post post_verb = true
is_post _ = false

pub record Request : Type 0 where
  pub method : Verb
  pub target : Bytes
  pub fields : Headers
  pub body : Bytes

-- The request that `do_request` writes; `prepare_payload` sets the length of the body.
unfoldable pub build_request : Bytes → Verb → Bytes → Bytes → Headers → Bytes → Request
unfolding set_field set_all
build_request host method target body headers content_type =
    let base = set_field (codes "Accept") (codes "application/json") (
      set_field (codes "User-Agent") (codes "polymarket-cpp/0.1")
        (set_field (codes "Host") host [])) in
    let own = set_all headers base in
    if not (is_empty body) || is_post method
    then record {
      method = method;
      target = target;
      fields =
          set_field (codes "Content-Length") (to_string (length body))
            (set_field (codes "Content-Type") content_type own);
      body = body;
    }
    else record { method = method; target = target; fields = own; body = [] }

-- The checks of `connect`, in order.
pub data ConnectStep : Type 0 where
  sni hostname_verification resolve connect keep_alive tls_handshake : ConnectStep

pub data ReadAnswer : Type 0 where
  -- `body_limit`, with the bytes read, the status and the headers.
  over_body_limit : ℕ → ℕ → Headers → ReadAnswer
  read_error : ℕ → ReadAnswer
  -- A response, and whether the connection has to be closed after it.
  complete_response : HttpResponse → Bool → ReadAnswer

-- What the transport answers to one try; `true` is an error.
pub record Attempt : Type 0 where
  pub connect_error : ConnectStep → Bool
  pub write_error : Bool
  pub written : ℕ
  pub read_answer : ReadAnswer

-- What a try throws.
pub data Failure : Type 0 where
  system_error : ConnectStep → Failure
  transfer_failure : String → ℕ → Failure
  body_limit_error : ℕ → Headers → ℕ → Failure

pub data Outcome : Type 0 where
  response : HttpResponse → Outcome
  thrown : Failure → Outcome

-- `has_stream` is `m_stream != nullptr`; `tries` counts the tries, and `sent` has the requests that were
-- written with the number of their bytes that left, newest first.
pub record HttpsClient : Type 0 where
  pub host : Bytes
  pub port : Bytes
  pub options : HttpsClientOptions
  pub has_stream : Bool
  pub tries : ℕ
  pub sent : List (Request × ℕ)

unfoldable pub make_client : Bytes → Bytes → HttpsClientOptions → Result HttpsClient
make_client host port options = do
  throw_if
      (options.resolve_timeout == 0
        || options.connect_timeout == 0
        || options.handshake_timeout == 0
        || options.write_timeout == 0
        || options.read_timeout == 0
        || options.header_limit == 0
        || options.body_limit == 0
        || ltb (1024 * 1024) options.header_limit
        || ltb (256 * 1024 * 1024) options.body_limit)
      (invalid_argument "HttpsClient timeouts must be positive")
  let client : HttpsClient = record {
    host = host;
    port = port;
    options = options;
    has_stream = false;
    tries = 0;
    sent = [];
  } in
      ok client

abbrev pub close : HttpsClient → HttpsClient
close c = record c { has_stream = false }

abbrev pub connect_checks : (ConnectStep → Bool) → Option Failure
connect_checks e =
    if e sni
    then some (system_error sni)
    else if e hostname_verification
    then some (system_error hostname_verification)
    else if e resolve
    then some (system_error resolve)
    else if e connect
    then some (system_error connect)
    else if e keep_alive
    then some (system_error keep_alive)
    else if e tls_handshake
    then some (system_error tls_handshake)
    else none

-- `if (!m_stream) connect();` as a failure or none; a failed connect leaves its stream in place.
unfoldable pub connect_if_needed : Attempt → HttpsClient → HttpsClient × Option Failure
connect_if_needed a c =
    if c.has_stream
    then (c, none)
    else (record c { has_stream = true }, connect_checks a.connect_error)

-- What follows the write.
unfoldable pub read_response : Attempt → HttpsClient → HttpsClient × Outcome
read_response a c = elim a.read_answer [
  | over_body_limit n status headers ↦
      (c, thrown (body_limit_error status headers c.options.body_limit))
  | read_error n ↦ (c, thrown (transfer_failure "read" n))
  | complete_response r must_close ↦ (if must_close then close c else c, response r)
]

abbrev pub transfer : Request → Attempt → HttpsClient × Option Failure → HttpsClient × Outcome
transfer req a (c, some f) = (c, thrown f)
transfer req a (c, none) =
    let wrote = record c { sent = (req, a.written) ∷ c.sent } in
    if a.write_error
    then (wrote, thrown (transfer_failure "write" a.written))
    else read_response a wrote

-- A failure that is not tried again.
abbrev pub give_up : HttpsClient × Outcome → HttpsClient × Outcome
give_up (c, response r) = (c, response r)
give_up (c, thrown f) = (close c, thrown f)

abbrev pub or_retry : HttpsClient × Outcome → HttpsClient × Outcome → HttpsClient × Outcome
or_retry (c, response r) rest = (c, response r)
or_retry (c, thrown f) rest = rest

-- `failure.stage == "write" && failure.transferred == 0` of a `TransferFailure`.
abbrev pub is_unsent : Failure → Bool
is_unsent (transfer_failure stage n) = str_eq stage "write" && n == 0
is_unsent _ = false

module _ (transport : ℕ → Attempt) (req : Request) where
  unfoldable pub do_request : HttpsClient → HttpsClient × Outcome
  unfolding connect_if_needed read_response
  do_request c =
      let a = transport c.tries in
      transfer req a (connect_if_needed a (record c { tries = suc c.tries }))

  -- The loop of `request`, with the number of retries that are left.
  unfoldable pub request_loop : ℕ → HttpsClient → HttpsClient × Outcome
  unfolding do_request
  request_loop zero c = give_up (do_request c)
  request_loop (suc left) c =
      let first = do_request c in
      let rest = request_loop left (close first.0) in or_retry first rest

  -- The second round of the loop of `request_once` has `attempt == 1`, and so no third one follows.
  abbrev pub or_once_more : HttpsClient × Outcome → HttpsClient × Outcome → HttpsClient × Outcome
  or_once_more (c, response r) again = (c, response r)
  or_once_more (c, thrown f) again = if is_unsent f then again else (close c, thrown f)

  unfoldable pub request_once_loop : HttpsClient → HttpsClient × Outcome
  unfolding do_request
  request_once_loop c =
      let first = do_request c in or_once_more first (give_up (do_request (close first.0)))

module _ (transport : ℕ → Attempt) where
  unfoldable pub request :
      Verb → Bytes → Bytes → Headers → Bytes → HttpsClient → HttpsClient × Outcome
  unfolding request_loop build_request
  request method target body headers content_type c =
      request_loop transport (build_request c.host method target body headers content_type)
        c.options.retry_count c

  unfoldable pub request_once :
      Verb → Bytes → Bytes → Headers → Bytes → HttpsClient → HttpsClient × Outcome
  unfolding request_once_loop build_request
  request_once method target body headers content_type c =
      request_once_loop transport (build_request c.host method target body headers content_type) c

  unfoldable pub get : Bytes → Headers → HttpsClient → HttpsClient × Outcome
  unfolding request
  get target headers c = request get_verb target [] headers (codes "application/json") c

  unfoldable pub post : Bytes → Bytes → Headers → Bytes → HttpsClient → HttpsClient × Outcome
  unfolding request
  post target body headers content_type c = request post_verb target body headers content_type c

  unfoldable pub post_once : Bytes → Bytes → Headers → Bytes → HttpsClient → HttpsClient × Outcome
  unfolding request_once
  post_once target body headers content_type c =
      request_once post_verb target body headers content_type c
