-- ===== src/Pm/Clob/ServerTime.antt =====
-- `ClobClient::server_time_ms`, with `std::stoll` and its signed arithmetic.
use polymarket_cpp.Prelude.{
  ℕ, suc, ◌*◌, ◌/◌, ◌^◌, Bool, true, false, Option, none, some, [], ◌∷◌, Bytes, codes, is_empty,
  ltb, ◌==◌, if◌then◌else◌, ℤ, pos, negsuc, sub_ℕ, ◌+ℤ◌, digits_prefix, value, Result, ok, err,
  invalid_argument, out_of_range,
}
use polymarket_cpp.Net.HttpClient.Requests.{Attempt, HttpResponse}
use polymarket_cpp.Pm.Double.{DoubleLibrary}
use polymarket_cpp.Pm.Relayer.Requests.{without_space}
use polymarket_cpp.Pm.Clob.Session.{
  ClobLibrary, Run, ◌>>=◌, return, throw, bad_status, lift, http_get,
}

-- `int64_t`, and what signed arithmetic gives: outside it is undefined behaviour, which is `none`.
abbrev pub fits_int64 : ℤ → Bool
fits_int64 (pos n) = ltb n (2 ^ 63)
fits_int64 (negsuc n) = ltb n (2 ^ 63)

abbrev pub in_int64 : ℤ → Option ℤ
in_int64 z = if fits_int64 z then some z else none

-- -n
abbrev minus : ℕ → ℤ
minus n = sub_ℕ 0 n

-- `/ 2`, which rounds to zero.
abbrev pub half : ℤ → ℤ
half (pos n) = pos (n / 2)
half (negsuc n) = minus (suc n / 2)

abbrev pub times_1000 : ℤ → ℤ
times_1000 (pos n) = pos (n * 1000)
times_1000 (negsuc n) = minus (suc n * 1000)

abbrev stoll_digits : Bool → Bytes → Result ℤ
stoll_digits negative ds =
    let z = if negative then minus (value ds) else pos (value ds) in
    if is_empty ds
    then err (invalid_argument "stoll")
    else if fits_int64 z
    then ok z
    else err (out_of_range "stoll")

abbrev stoll_sign : Bytes → Result ℤ
stoll_sign [] = err (invalid_argument "stoll")
stoll_sign (c ∷ cs) =
    if c == b'-'
    then stoll_digits true (digits_prefix cs)
    else if c == b'+'
    then stoll_digits false (digits_prefix cs)
    else stoll_digits false (digits_prefix (c ∷ cs))

unfoldable pub stoll : Bytes → Result ℤ
unfolding without_space
stoll text = stoll_sign (without_space text)

-- `sec * 1000 + (t1 - t0) / 2`
unfoldable pub server_clock : ℤ → ℕ → ℕ → Option ℤ
unfolding ◌+ℤ◌
server_clock sec t0 t1 = elim (in_int64 (times_1000 sec)) [
  | none ↦ none
  | some ms ↦ in_int64 (ms +ℤ half (sub_ℕ t1 t0))
]

module _ (transport : ℕ → Attempt) (dbl : DoubleLibrary) (lib : ClobLibrary dbl) where
  abbrev now_ms : Run ℕ
  now_ms c = return (lib.clock_ms c.http.tries) c

  abbrev accepted : HttpResponse → Run Bytes
  accepted r =
      if r.status == 200 then return r.body else throw (bad_status (codes "/time") r.status [])

  -- Where the arithmetic is defined.
  unfoldable pub server_time_ms : Run (Option ℤ)
  unfolding stoll server_clock
  server_time_ms = do
    t0 ← now_ms
    r ← http_get transport (codes "/time") []
    t1 ← now_ms
    body ← accepted r
    sec ← lift (stoll body)
    return (server_clock sec t0 t1)
