-- ===== src/Net/HttpClient/Retries.antt =====
-- How often a request is tried.
use polymarket_cpp.Prelude.{
  ℕ, zero, suc, ◌+◌, ◌≤◌, ◌≡◌, refl, ap, sym, ◌∙◌, ◌&&◌, subst, append_assoc, Bool, true, false,
  Option, none, some, List, [], ◌∷◌, ◌++◌, Bytes, arith, ◌==◌, if◌then◌else◌, if_case, str_eq,
}
use polymarket_cpp.Net.HttpClient.Requests.{
  Headers, Verb, Request, Attempt, Failure, system_error, transfer_failure, body_limit_error,
  Outcome, response, thrown, over_body_limit, read_error, complete_response, HttpsClient, close,
  ConnectStep, sni, hostname_verification, resolve, connect, keep_alive, tls_handshake,
  connect_checks, connect_if_needed, transfer, read_response, do_request, give_up, or_retry,
  request_loop, request, build_request, or_once_more, is_unsent, request_once_loop, request_once,
}

-- How many of the written requests got a byte out.
abbrev pub leaked : List (Request × ℕ) → ℕ
leaked [] = 0
leaked ((r, zero) ∷ es) = leaked es
leaked ((r, suc n) ∷ es) = suc (leaked es)

leaked-append : (xs ys : List (Request × ℕ)) → leaked (xs ++ ys) ≡ leaked xs + leaked ys
leaked-append [] ys = omega arith
leaked-append ((r, zero) ∷ xs) ys = leaked-append xs ys
leaked-append ((r, suc n) ∷ xs) ys = omega (arith, leaked-append xs ys)

abbrev UnsentWhere : List (Request × ℕ) → Outcome → Type 0
UnsentWhere news (response r) = Unit {0}
UnsentWhere news (thrown f) = is_unsent f ≡ true → leaked news ≡ 0

-- One try from a client with these tries and requests written: it is counted, it writes its request once
-- at most, and no byte has left where the failure says so.
abbrev IsTry : ℕ → List (Request × ℕ) → HttpsClient × Outcome → Type 0
IsTry tries sent (c, o) =
    (c.tries ≡ suc tries)
    × ((news : List (Request × ℕ)) × (c.sent ≡ news ++ sent)
        × (leaked news ≤ 1)
        × UnsentWhere news o)

leaked_one : (r : Request) (n : ℕ) → leaked ((r, n) ∷ []) ≤ 1
leaked_one r zero = omega arith
leaked_one r (suc n) = omega arith

leaked-unsent :
    (r : Request) (n : ℕ) → is_unsent (transfer_failure "write" n) ≡ true → leaked ((r, n) ∷ []) ≡ 0
leaked-unsent r zero h = refl
leaked-unsent r (suc n) h = absurd (nonzero n (second (str_eq "write" "write") (suc n == 0) h))
  where
    nonzero : (n : ℕ) → (suc n == 0) ≡ true → ⊥
    nonzero n k = ground arith

    second : (a b : Bool) → (a && b) ≡ true → b ≡ true
    second a b k = ground arith

read_response-IsTry :
    (a : Attempt) (c : HttpsClient) (req : Request) (n tries : ℕ) (sent : List (Request × ℕ))
    → c.tries ≡ suc tries
    → c.sent ≡ (req, n) ∷ sent
    → IsTry tries sent (read_response a c)
unfolding read_response
read_response-IsTry a c req n tries sent e f =
    elim a.read_answer
      as (λ x. IsTry tries sent (elim x [
        | over_body_limit n' status headers ↦
            (c, thrown (body_limit_error status headers c.options.body_limit))
        | read_error n' ↦ (c, thrown (transfer_failure "read" n'))
        | complete_response r must_close ↦ (if must_close then close c else c, response r)
      ])) [
        | over_body_limit n' status headers ↦
            (e, ((req, n) ∷ [], f, leaked_one req n, λ h. absurd (cc)))
        | read_error n' ↦ (e, ((req, n) ∷ [], f, leaked_one req n, λ h. absurd (cc)))
        | complete_response r must_close ↦ (
          if_case (λ (d : HttpsClient). d.tries ≡ suc tries) must_close (λ _. e) (λ _. e),
          (
            (req, n) ∷ [],
            if_case (λ (d : HttpsClient). d.sent ≡ (req, n) ∷ sent) must_close (λ _. f) (λ _. f),
            leaked_one req n,
            tt,
          ),
        )
      ]

transfer-IsTry :
    (req : Request) (a : Attempt) (p : HttpsClient × Option Failure) (tries : ℕ)
    (sent : List (Request × ℕ))
    → p.0.tries ≡ suc tries
    → p.0.sent ≡ sent
    → ((f : Failure) → p.1 ≡ some f → is_unsent f ≡ false)
    → IsTry tries sent (transfer req a p)
transfer-IsTry req a (c, some f) tries sent e g h =
    (e, ([], g, omega arith, λ k. let other = h f refl in absurd (cc)))
transfer-IsTry req a (c, none) tries sent e g h =
    if_case (IsTry tries sent) a.write_error
      (λ _. (
        e,
        (
          (req, a.written) ∷ [],
          ap (◌∷◌ (req, a.written)) g,
          leaked_one req a.written,
          λ k. leaked-unsent req a.written k,
        ),
      ))
      (λ _.
        read_response-IsTry a (record c { sent = (req, a.written) ∷ c.sent }) req a.written tries
          sent e (ap (◌∷◌ (req, a.written)) g))

-- A failed connect says nothing of a write.
abbrev NotUnsent : Option Failure → Type 0
NotUnsent o = (f : Failure) → o ≡ some f → is_unsent f ≡ false

none-NotUnsent : NotUnsent none
none-NotUnsent f h = absurd (cc)

connect_checks-NotUnsent : (e : ConnectStep → Bool) → NotUnsent (connect_checks e)
connect_checks-NotUnsent e =
    if_case NotUnsent (e sni) (λ _. at sni)
      (λ _.
        if_case NotUnsent (e hostname_verification) (λ _. at hostname_verification)
          (λ _.
            if_case NotUnsent (e resolve) (λ _. at resolve)
              (λ _.
                if_case NotUnsent (e connect) (λ _. at connect)
                  (λ _.
                    if_case NotUnsent (e keep_alive) (λ _. at keep_alive)
                      (λ _.
                        if_case NotUnsent (e tls_handshake) (λ _. at tls_handshake)
                          (λ _ f h. absurd (cc)))))))
  where
    at : (step : ConnectStep) → NotUnsent (some (system_error step))
    at step f h =
        let same : system_error step ≡ f = cc in subst (λ g. is_unsent g ≡ false) same refl

module _ (transport : ℕ → Attempt) (req : Request) where
  do_request-IsTry : (c : HttpsClient) → IsTry c.tries c.sent (do_request transport req c)
  unfolding do_request connect_if_needed
  do_request-IsTry c =
      if_case
        (λ (p : HttpsClient × Option Failure).
          IsTry c.tries c.sent (transfer req (transport c.tries) p))
        c.has_stream
        (λ _. transfer-IsTry req (transport c.tries) _ c.tries c.sent refl refl none-NotUnsent)
        (λ _.
          transfer-IsTry req (transport c.tries) _ c.tries c.sent refl refl
            (connect_checks-NotUnsent (transport c.tries).connect_error))

-- What a call tells of the tries: `n` at most where it returns, and exactly `n` where it throws, with
-- the stream closed.
abbrev pub TriedAtMost : ℕ → HttpsClient × Outcome → Type 0
TriedAtMost n (c, response r) = c.tries ≤ n
TriedAtMost n (c, thrown f) = (c.tries ≡ n) × (c.has_stream ≡ false)

give_up-TriedAtMost :
    (n : ℕ) (p : HttpsClient × Outcome) → p.0.tries ≡ n → TriedAtMost n (give_up p)
give_up-TriedAtMost n (c, response r) h = omega arith
give_up-TriedAtMost n (c, thrown f) h = (h, refl)

or_retry-TriedAtMost :
    (n : ℕ) (p rest : HttpsClient × Outcome)
    → p.0.tries ≤ n
    → TriedAtMost n rest
    → TriedAtMost n (or_retry p rest)
or_retry-TriedAtMost n (c, response r) rest h k = h
or_retry-TriedAtMost n (c, thrown f) rest h k = k

module _ (transport : ℕ → Attempt) (req : Request) where
  request_loop-TriedAtMost :
      (left : ℕ) (c : HttpsClient)
      → TriedAtMost (c.tries + suc left) (request_loop transport req left c)
  unfolding request_loop
  request_loop-TriedAtMost zero c =
      let counted = (do_request-IsTry transport req c).0 in
      give_up-TriedAtMost (c.tries + 1) _ (counted ∙ omega arith)
  request_loop-TriedAtMost (suc left) c =
      let counted = (do_request-IsTry transport req c).0 in
      or_retry-TriedAtMost (c.tries + suc (suc left)) _ _ (omega (arith, counted)) (
        subst
          (λ n.
            TriedAtMost n (request_loop transport req left (close (do_request transport req c).0)))
          (ap (λ n. n + suc left) counted ∙ shift c.tries left)
          (request_loop-TriedAtMost left (close (do_request transport req c).0)))
    where
      shift : (n m : ℕ) → suc n + suc m ≡ n + suc (suc m)
      shift n m = omega arith

-- `request` returns after at most `retry_count` + 1 tries, and throws only after that many tries have
-- failed, with the stream closed.
pub request-TriedAtMost :
    (transport : ℕ → Attempt) (method : Verb) (target body : Bytes) (headers : Headers)
    (content_type : Bytes) (c : HttpsClient)
    → TriedAtMost
        (c.tries + suc c.options.retry_count)
        (request transport method target body headers content_type c)
unfolding request
request-TriedAtMost transport method target body headers content_type c =
    request_loop-TriedAtMost transport
      (build_request c.host method target body headers content_type) c.options.retry_count c

-- Two tries at most, of which one at most gets a byte of the request out.
abbrev pub SentOnce : HttpsClient → HttpsClient → Type 0
SentOnce c d =
    (d.tries ≤ c.tries + 2)
    × ((news : List (Request × ℕ)) × (d.sent ≡ news ++ c.sent) × (leaked news ≤ 1))

give_up-IsTry :
    (tries : ℕ) (sent : List (Request × ℕ)) (p : HttpsClient × Outcome)
    → IsTry tries sent p
    → ((give_up p).0.tries ≡ suc tries)
      × ((news : List (Request × ℕ)) × ((give_up p).0.sent ≡ news ++ sent) × (leaked news ≤ 1))
give_up-IsTry tries sent (c, response r) (e, (news, f, one, _)) = (e, (news, f, one))
give_up-IsTry tries sent (c, thrown f) (e, (news, g, one, _)) = (e, (news, g, one))

module _ (transport : ℕ → Attempt) (req : Request) where
  or_once_more-SentOnce :
      (c : HttpsClient) (p again : HttpsClient × Outcome)
      → IsTry c.tries c.sent p
      → ((again.0.tries ≡ suc p.0.tries)
          × ((news : List (Request × ℕ)) × (again.0.sent ≡ news ++ p.0.sent) × (leaked news ≤ 1)))
      → SentOnce c (or_once_more transport req p again).0
  or_once_more-SentOnce c (d, response r) again (e, (news, f, one, _)) k =
      (omega arith, (news, f, one))
  or_once_more-SentOnce c (d, thrown x) again (e, (news, f, one, none_left))
        (e', (more, f', one')) =
      if_case (λ (p : HttpsClient × Outcome). SentOnce c p.0) (is_unsent x)
        (λ h. (
          omega arith,
          (
            more ++ news,
            f' ∙ ap (λ l. more ++ l) f ∙ sym (append_assoc more news c.sent),
            omega (arith, leaked-append more news, none_left h),
          ),
        ))
        (λ _. (omega arith, (news, f, one)))

  request_once_loop-SentOnce : (c : HttpsClient) → SentOnce c (request_once_loop transport req c).0
  unfolding request_once_loop
  request_once_loop-SentOnce c =
      or_once_more-SentOnce c (do_request transport req c) _ (do_request-IsTry transport req c) (
        give_up-IsTry _ _ _ (do_request-IsTry transport req (close (do_request transport req c).0)))

-- `request_once`, through which signed orders go, never sends a request twice: of two tries at most, one
-- at most gets a byte of the request out.
pub request_once-SentOnce :
    (transport : ℕ → Attempt) (method : Verb) (target body : Bytes) (headers : Headers)
    (content_type : Bytes) (c : HttpsClient)
    → SentOnce c (request_once transport method target body headers content_type c).0
unfolding request_once
request_once-SentOnce transport method target body headers content_type c =
    request_once_loop-SentOnce transport
      (build_request c.host method target body headers content_type) c
