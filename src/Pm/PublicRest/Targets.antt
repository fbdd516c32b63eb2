-- ===== src/Pm/PublicRest/Targets.antt =====
-- Which target reaches which server.
use polymarket_cpp.Prelude.{
  ℕ, ◌≡◌, refl, ◌⊎◌, inl, inr, Bool, true, false, ◌&&◌, not, [], ◌∷◌, ◌++◌, Bytes, arith, codes,
  drop, all, starts_with, is_digit, is_hex, ok, Error, invalid_argument, throw_if, ◌>>◌,
}
use polymarket_cpp.Pm.PublicRest.{
  decimal_token_id, condition_id, event_slug, is_slug_char, Answer, answered, refused, Handler,
  PublicRestClient, call_with, get_server_time, get_book, get_fee_rate, get_clob_market_info,
  get_event_by_slug,
}

-- The public queries.
pub data Query : Type 0 where
  server_time : Query
  book fee_rate clob_market_info event_by_slug : Bytes → Query

abbrev pub perform : {S : Type 0} → PublicRestClient S → Query → S → S × Answer
perform client server_time = get_server_time client
perform client (book id) = get_book client id
perform client (fee_rate id) = get_fee_rate client id
perform client (clob_market_info id) = get_clob_market_info client id
perform client (event_by_slug id) = get_event_by_slug client id

-- The path of a query, what it asks for, and the server.
abbrev pub path : Query → Bytes
path server_time = codes "/time"
path (book id) = codes "/book?token_id="
path (fee_rate id) = codes "/fee-rate/"
path (clob_market_info id) = codes "/clob-markets/"
path (event_by_slug id) = codes "/events/slug/"

abbrev pub identity : Query → Bytes
identity server_time = []
identity (book id) = id
identity (fee_rate id) = id
identity (clob_market_info id) = id
identity (event_by_slug id) = id

abbrev pub server : {S : Type 0} → PublicRestClient S → Query → Handler S
server client (event_by_slug id) = client.gamma_get
server client _ = client.clob_get

-- One call of the server, with the target as it is given.
abbrev pub Sent : {S : Type 0} → PublicRestClient S → Query → S → Type 0
Sent client q s =
    (perform client q s ≡ (
      (server client q (path q ++ identity q) s).0,
      answered (server client q (path q ++ identity q) s).1,
    ))
    × (all is_slug_char (identity q) ≡ true)

abbrev pub Refused : {S : Type 0} → PublicRestClient S → Query → S → Type 0
Refused client q s = (e : Error) × (perform client q s ≡ (s, refused e))

digit_is_slug : (c : ℕ) → is_digit c ≡ true → is_slug_char c ≡ true
digit_is_slug c h = ground arith

hex_is_slug : (c : ℕ) → is_hex c ≡ true → is_slug_char c ≡ true
hex_is_slug c h = ground arith

all_weaken :
    (p q : ℕ → Bool) (text : Bytes)
    → ((c : ℕ) → p c ≡ true → q c ≡ true)
    → all p text ≡ true
    → all q text ≡ true
all_weaken p q [] w h = refl
all_weaken p q (c ∷ cs) w h = ground (arith, w c, all_weaken p q cs w)

pub and_true : (a b : Bool) → (a && b) ≡ true → (a ≡ true) × (b ≡ true)
and_true true b h = (refl, h)
and_true false b h = cc

prefix_hex :
    (value : Bytes)
    → starts_with value (codes "0x") ≡ true
    → all is_hex (drop 2 value) ≡ true
    → all is_slug_char value ≡ true
prefix_hex [] h k = cc
prefix_hex (a ∷ []) h k = ground arith
prefix_hex (a ∷ b ∷ rest) h k = ground (arith, all_weaken is_hex is_slug_char rest hex_is_slug)

-- A target that is checked first: it is sent as it is given, or refused.
checked :
    {S : Type 0} (handler : Handler S) (good : Bool) (e : Error) (target : Bytes) (s : S)
    → ((good ≡ true)
        × (call_with handler (throw_if (not good) e >> ok target) s
            ≡ ((handler target s).0, answered (handler target s).1)))
      ⊎ ((x : Error) × (call_with handler (throw_if (not good) e >> ok target) s ≡ (s, refused x)))
checked handler true e target s = inl (refl, refl)
checked handler false e target s = inr (e, refl)

module _ {S : Type 0} (client : PublicRestClient S) where
  -- Every query is sent once to the server that it is for, or is refused before any call. What is sent is
  -- the path of the query with the identity as it was given, which then has letters, digits and dashes only,
  -- so that it ends neither the path nor the parameter that it stands in.
  pub perform-SentOrRefused : (q : Query) (s : S) → Sent client q s ⊎ Refused client q s
  unfolding get_server_time get_book get_fee_rate get_clob_market_info get_event_by_slug
  perform-SentOrRefused server_time s = inl (refl, refl)
  perform-SentOrRefused (book id) s =
      elim (checked client.clob_get (decimal_token_id id)
        (invalid_argument "pm: public book token id must be decimal")
        (codes "/book?token_id=" ++ id) s) [
          | inr no_call ↦ inr no_call
          | inl (good, run) ↦
              inl (run, all_weaken is_digit is_slug_char id digit_is_slug (and_true _ _ good).1)
        ]
  perform-SentOrRefused (fee_rate id) s =
      elim (checked client.clob_get (decimal_token_id id)
        (invalid_argument "pm: public fee-rate token id must be decimal") (codes "/fee-rate/" ++ id)
        s) [
          | inr no_call ↦ inr no_call
          | inl (good, run) ↦
              inl (run, all_weaken is_digit is_slug_char id digit_is_slug (and_true _ _ good).1)
        ]
  perform-SentOrRefused (clob_market_info id) s =
      elim (checked client.clob_get (condition_id id)
        (invalid_argument "pm: public CLOB market condition id must be 0x-prefixed hex")
        (codes "/clob-markets/" ++ id) s) [
          | inr no_call ↦ inr no_call
          | inl (good, run) ↦
              let parts = and_true _ _ good in
              let lengths = and_true _ _ parts.0 in inl (run, prefix_hex id lengths.1 parts.1)
        ]
  perform-SentOrRefused (event_by_slug id) s =
      elim (checked client.gamma_get (event_slug id)
        (invalid_argument "pm: invalid Gamma event slug") (codes "/events/slug/" ++ id) s) [
          | inr no_call ↦ inr no_call
          | inl (good, run) ↦ inl (run, (and_true _ _ good).1)
        ]
