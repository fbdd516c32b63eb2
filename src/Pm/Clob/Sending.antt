-- ===== src/Pm/Clob/Sending.antt =====
-- An order is sent once at most.
use polymarket_cpp.Prelude.{
  ℕ, ◌≡◌, refl, sym, ap, ◌∙◌, subst, Bool, false, not, Option, none, some, [], Bytes, String, codes,
  is_empty, arith, if_case, Result, ok, err, invalid_argument,
}
use polymarket_cpp.Net.HttpClient.Requests.{
  Headers, Attempt, HttpResponse, HttpsClient, Outcome, response, thrown, post_once, post_verb,
}
use polymarket_cpp.Net.HttpClient.Retries.{SentOnce, request_once-SentOnce}
use polymarket_cpp.Pm.Double.{DoubleLibrary}
use polymarket_cpp.Pm.U256.{U256Library}
use polymarket_cpp.Pm.Crypto.{CryptoLibrary}
use polymarket_cpp.Pm.Signing
use polymarket_cpp.Pm.Signing.{OrderV2}
use polymarket_cpp.Pm.Protocol.{validate_order_asset}
use polymarket_cpp.Pm.Amounts.{valid_tick_size, snap_price}
use polymarket_cpp.Pm.Clob.Session.{
  ClobLibrary, Identity, ClobClient, ClobResult, done, failed, exception, Run, and_then, lift,
  answered, require_200, http_post_once, ensure_l2_creds, l2_now, sign_l2,
}
use polymarket_cpp.Pm.Clob.Queries.{get_tick_size, get_neg_risk}
use polymarket_cpp.Pm.Clob.Orders.{
  PlaceOrderArgs, PreparedOrder, ensure, given, tick_error, range_error, prepared_error, send_body,
  post_body, with_amounts, with_risk, ask_risk, check_range, with_tick, with_asset, valid_prepared,
  amounts_for, check_amounts, price_out_of_range, order_now, sign_body, with_signature, with_creds,
  signature_bytes, prepare_order, post_prepared_order, place_order,
}

-- What holds after a step that leaves the client as it is, and what follows it.
keep_then :
    {A B : Type 0} (P : ClobClient → Type 0) (c : ClobClient) (p : ClobClient × ClobResult A)
    (f : A → Run B)
    → p.0 ≡ c
    → ((a : A) → P (f a c).0)
    → P c
    → P (and_then p f).0
keep_then P c (d, done a) f e h k = subst (λ x. P (f a x).0) (sym e) (h a)
keep_then P c (d, failed x) f e h k = subst P (sym e) k

lift_keeps : {A : Type 0} (r : Result A) (c : ClobClient) → (lift r c).0 ≡ c
lift_keeps (ok a) c = refl
lift_keeps (err e) c = refl

require_200_keeps :
    (what : Bytes) (r : HttpResponse) (c : ClobClient) → (require_200 what r c).0 ≡ c
unfolding require_200
require_200_keeps what r c =
    if_case (λ (p : ClobClient × ClobResult Bytes). p.0 ≡ c) _ (λ _. refl) (λ _. refl)

answered-http :
    (c : ClobClient) (p : HttpsClient × Outcome) → (answered c p).0 ≡ record c { http = p.0 }
answered-http c (h, response r) = refl
answered-http c (h, thrown f) = refl

none_sent : (c : HttpsClient) → SentOnce c c
none_sent c = (omega arith, ([], refl, omega arith))

given_keeps :
    {A : Type 0} (o : Option A) (ask : Run A) (c : ClobClient) {a : A}
    → o ≡ some a
    → (given o ask c).0 ≡ c
given_keeps (some a) ask c h = refl
given_keeps none ask c h = cc

module _ (dbl : DoubleLibrary) (big : U256Library) (transport : ℕ → Attempt) (lib : ClobLibrary dbl)
    (crypto : CryptoLibrary big) (self : Identity) where
  ensure_l2_creds_present :
      (c : ClobClient)
      → is_empty c.creds.api_key ≡ false
      → ensure_l2_creds transport dbl lib big crypto self c ≡ (c, done c.creds)
  unfolding ensure_l2_creds
  ensure_l2_creds_present c h = rw h refl

  l2_now_present :
      (method path body : Bytes) (c : ClobClient)
      → is_empty c.creds.api_key ≡ false
      → l2_now transport dbl lib big crypto self method path body c
        ≡ sign_l2 transport dbl lib big crypto self method path body c.creds c
  unfolding l2_now
  l2_now_present method path body c h = rw (ensure_l2_creds_present c h) refl

  post_once_step :
      (body : Bytes) (headers : Headers) (c : ClobClient)
      → SentOnce c.http
          (and_then
            (http_post_once transport (codes "/order") body headers c)
            (require_200 (codes "order"))).0.http
  unfolding post_once
  post_once_step body headers c =
      let sent =
        request_once-SentOnce transport post_verb (codes "/order") body headers
          (codes "application/json") c.http in
      let p = post_once transport (codes "/order") body headers (codes "application/json") c.http in
      keep_then (λ d. SentOnce c.http d.http) (record c { http = p.0 })
        (http_post_once transport (codes "/order") body headers c) (require_200 (codes "order"))
        (answered-http c p)
        (λ r.
          subst (λ d. SentOnce c.http d.http)
            (sym (require_200_keeps (codes "order") r (record c { http = p.0 }))) sent)
        sent

  -- With credentials at hand, posting a prepared order sends it once at most, and not at all where it is not
  -- well formed; then the client stays as it was.
  pub post_prepared_order-SentOnce :
      (prepared : PreparedOrder) (c : ClobClient)
      → is_empty c.creds.api_key ≡ false
      → SentOnce c.http (post_prepared_order dbl big transport lib crypto self prepared c).0.http
        × (valid_prepared prepared ≡ false
            → post_prepared_order dbl big transport lib crypto self prepared c
              ≡ (c, failed (exception (invalid_argument "pm: invalid prepared order"))))
  unfolding post_prepared_order
  post_prepared_order-SentOnce prepared c h = (
    keep_then (λ d. SentOnce c.http d.http) c
        (ensure dbl big transport lib crypto self (valid_prepared prepared)
          (prepared_error dbl big transport lib crypto self) c)
        (λ _. send_body dbl big transport lib crypto self prepared.body) refl
        (λ _.
          keep_then (λ d. SentOnce c.http d.http) c
            (l2_now transport dbl lib big crypto self (codes "POST") (codes "/order") prepared.body
              c)
            (post_body dbl big transport lib crypto self prepared.body)
            (ap (λ p. p.0) (l2_now_present (codes "POST") (codes "/order") prepared.body c h)
              ∙ lift_keeps _ c)
            (λ headers. post_once_step prepared.body headers c) (none_sent c.http))
        (none_sent c.http),
    λ bad. rw bad refl,
  )

  kept :
      {A B : Type 0} (c : ClobClient) (p : ClobClient × ClobResult A) (f : A → Run B)
      → p.0 ≡ c
      → ((a : A) → (f a c).0 ≡ c)
      → (and_then p f).0 ≡ c
  kept c p f e h = keep_then (λ d. d ≡ c) c p f e h refl

  -- Signing keeps the client where the credentials are at hand.
  sign_body_keeps :
      (args : PlaceOrderArgs dbl) (neg_risk : Bool) (o : OrderV2 big) (c : ClobClient)
      → is_empty c.creds.api_key ≡ false
      → (sign_body dbl big transport lib crypto self args neg_risk o c).0 ≡ c
  sign_body_keeps args neg_risk o c h =
      kept c (lift (signature_bytes dbl big transport lib crypto self args neg_risk o) c)
        (with_signature dbl big transport lib crypto self args neg_risk o) (lift_keeps _ c)
        (λ signature.
          kept c (ensure_l2_creds transport dbl lib big crypto self c)
            (with_creds dbl big transport lib crypto self args neg_risk o signature)
            (ap (λ p. p.0) (ensure_l2_creds_present c h))
            (λ creds.
              kept c (lift (Signing.order_digest big crypto o args.protocol neg_risk) c) _
                (lift_keeps _ c) (λ digest. refl)))

  with_risk_keeps :
      (args : PlaceOrderArgs dbl) (tick : String) (neg_risk : Bool) (c : ClobClient)
      → is_empty c.creds.api_key ≡ false
      → (with_risk dbl big transport lib crypto self args tick neg_risk c).0 ≡ c
  with_risk_keeps args tick neg_risk c h =
      kept c (lift (snap_price dbl args.price tick) c) _ (lift_keeps _ c) (λ price.
        kept c (lift (amounts_for dbl big args tick price) c)
          (with_amounts dbl big transport lib crypto self args tick neg_risk) (lift_keeps _ c)
          (λ amounts.
            kept c (lift (check_amounts dbl big args tick amounts) c) _ (lift_keeps _ c) (λ _.
              kept c (order_now dbl big transport lib crypto self args amounts c)
                (sign_body dbl big transport lib crypto self args neg_risk) (lift_keeps _ c)
                (λ o. sign_body_keeps args neg_risk o c h))))

  -- With the tick size, the risk flag and the credentials at hand, preparing an order asks nothing.
  prepare_order_keeps :
      (args : PlaceOrderArgs dbl) (c : ClobClient) (tick : String) (neg_risk : Bool)
      → args.tick_size ≡ some tick
      → args.neg_risk ≡ some neg_risk
      → is_empty c.creds.api_key ≡ false
      → (prepare_order dbl big transport lib crypto self args c).0 ≡ c
  unfolding prepare_order
  prepare_order_keeps args c tick neg_risk ht hn hc =
      kept c (lift (validate_order_asset big args.token_id args.protocol) c)
        (λ _. with_asset dbl big transport lib crypto self args) (lift_keeps _ c)
        (λ _.
          kept c (given args.tick_size (get_tick_size transport dbl lib args.token_id) c)
            (with_tick dbl big transport lib crypto self args) (given_keeps args.tick_size _ c ht)
            (λ t.
              kept c
                (ensure dbl big transport lib crypto self (valid_tick_size t)
                  (tick_error dbl big transport lib crypto self t) c)
                (λ _. check_range dbl big transport lib crypto self args t) refl
                (λ _.
                  kept c
                    (ensure dbl big transport lib crypto self
                      (not (price_out_of_range dbl big args t))
                      (range_error dbl big transport lib crypto self) c)
                    (λ _. ask_risk dbl big transport lib crypto self args t) refl
                    (λ _.
                      kept c (given args.neg_risk (get_neg_risk transport dbl lib args.token_id) c)
                        (with_risk dbl big transport lib crypto self args t)
                        (given_keeps args.neg_risk _ c hn) (λ n. with_risk_keeps args t n c hc)))))

  -- Placing an order, with the tick size, the risk flag and the credentials at hand, tries the venue twice at
  -- most and gets the order out once at most.
  pub place_order-SentOnce :
      (args : PlaceOrderArgs dbl) (c : ClobClient) (tick : String) (neg_risk : Bool)
      → args.tick_size ≡ some tick
      → args.neg_risk ≡ some neg_risk
      → is_empty c.creds.api_key ≡ false
      → SentOnce c.http (place_order dbl big transport lib crypto self args c).0.http
  unfolding place_order
  place_order-SentOnce args c tick neg_risk ht hn hc =
      keep_then (λ d. SentOnce c.http d.http) c
        (prepare_order dbl big transport lib crypto self args c)
        (post_prepared_order dbl big transport lib crypto self)
        (prepare_order_keeps args c tick neg_risk ht hn hc)
        (λ prepared. (post_prepared_order-SentOnce prepared c hc).0) (none_sent c.http)
