-- ===== src/Pm/PublicRest.antt =====
-- pm/public_rest.cpp: the public queries of `PublicRestClient`, their validation and their targets. The two
-- transports are handlers over a state of their own.
pub mod Targets
use polymarket_cpp.Prelude.{
  ℕ, Bool, true, false, ◌&&◌, ◌||◌, not, Option, none, some, [], ◌∷◌, ◌++◌, Bytes, codes, length,
  is_empty, drop, all, ◌==◌, starts_with, is_digit, is_lower, is_upper, is_hex, Result, ok, err,
  Error, invalid_argument, ◌>>◌, throw_if,
}
use polymarket_cpp.Net.HttpClient.Requests.{Outcome}

unfoldable pub decimal_token_id : Bytes → Bool
decimal_token_id value = not (is_empty value) && all is_digit value

unfoldable pub condition_id : Bytes → Bool
condition_id value =
    length value == 66 && starts_with value (codes "0x") && all is_hex (drop 2 value)

abbrev pub is_slug_char : ℕ → Bool
is_slug_char c = is_lower c || is_upper c || is_digit c || c == b'-'

unfoldable pub event_slug : Bytes → Bool
event_slug value = not (is_empty value) && all is_slug_char value

abbrev pub server_time_target : Bytes
server_time_target = codes "/time"

unfoldable pub book_target : Bytes → Result Bytes
unfolding decimal_token_id
book_target token_id =
    throw_if (not (decimal_token_id token_id))
      (invalid_argument "pm: public book token id must be decimal")
    >> ok (codes "/book?token_id=" ++ token_id)

unfoldable pub fee_rate_target : Bytes → Result Bytes
unfolding decimal_token_id
fee_rate_target token_id =
    throw_if (not (decimal_token_id token_id))
      (invalid_argument "pm: public fee-rate token id must be decimal")
    >> ok (codes "/fee-rate/" ++ token_id)

unfoldable pub clob_market_info_target : Bytes → Result Bytes
unfolding condition_id
clob_market_info_target value =
    throw_if (not (condition_id value))
      (invalid_argument "pm: public CLOB market condition id must be 0x-prefixed hex")
    >> ok (codes "/clob-markets/" ++ value)

unfoldable pub event_by_slug_target : Bytes → Result Bytes
unfolding event_slug
event_by_slug_target slug =
    throw_if (not (event_slug slug)) (invalid_argument "pm: invalid Gamma event slug")
    >> ok (codes "/events/slug/" ++ slug)

-- What a handler gives back, or what was thrown before it was called.
pub data Answer : Type 0 where
  answered : Outcome → Answer
  refused : Error → Answer

abbrev pub Handler : Type 0 → Type 0
Handler S = Bytes → S → S × Outcome

pub record PublicRestClient (S : Type 0) : Type 0 where
  pub clob_get : Handler S
  pub gamma_get : Handler S

abbrev made_with :
    {S : Type 0} → Option (Handler S) → Option (Handler S) → Result (PublicRestClient S)
made_with (some clob) (some gamma) = ok (record { clob_get = clob; gamma_get = gamma })
made_with _ _ = err (invalid_argument "pm: public REST transports must be configured")

-- The constructor that takes handlers; an empty function is `none`.
unfoldable pub make_public_rest :
    {S : Type 0} → Option (Handler S) → Option (Handler S) → Result (PublicRestClient S)
make_public_rest clob gamma = made_with clob gamma

-- `get(target)`, where the target throws before the call.
abbrev pub call_with : {S : Type 0} → Handler S → Result Bytes → S → S × Answer
call_with handler (ok target) s =
    let (after, outcome) = handler target s in (after, answered outcome)
call_with handler (err e) s = (s, refused e)

module _ {S : Type 0} (client : PublicRestClient S) where
  unfoldable pub get_server_time : S → S × Answer
  get_server_time = call_with client.clob_get (ok server_time_target)

  unfoldable pub get_book : Bytes → S → S × Answer
  unfolding book_target
  get_book token_id = call_with client.clob_get (book_target token_id)

  unfoldable pub get_fee_rate : Bytes → S → S × Answer
  unfolding fee_rate_target
  get_fee_rate token_id = call_with client.clob_get (fee_rate_target token_id)

  unfoldable pub get_clob_market_info : Bytes → S → S × Answer
  unfolding clob_market_info_target
  get_clob_market_info condition = call_with client.clob_get (clob_market_info_target condition)

  unfoldable pub get_event_by_slug : Bytes → S → S × Answer
  unfolding event_by_slug_target
  get_event_by_slug slug = call_with client.gamma_get (event_by_slug_target slug)
