-- ===== src/Pm/Feeds/Delta.antt =====
-- The server's set of subscriptions follows the desired one.
use polymarket_cpp.Prelude.{
  ◌≡◌, refl, ap, ◌∙◌, Bool, true, false, ◌&&◌, ◌||◌, not, List, [], ◌∷◌, ◌++◌, Bytes, is_empty,
  arith, bytes_eq, bytes_eq_sound, if◌then◌else◌,
}
use polymarket_cpp.Pm.Feeds.{
  contains, missing, Frame, market_initial, subscribe_op, unsubscribe_op, user_initial, action,
  SocketCall, send_call, send_first_call, Subscriptions,
}
use polymarket_cpp.Pm.Feeds.MarketWs.{delta, subscribe}

-- The server's view of one connection: its subscriptions as membership, and whether a subscription was made
-- on it. The full message of an initial frame counts only on a connection without one; a subscribe adds, an
-- unsubscribe removes.
pub record Server : Type 0 where
  pub has : Bytes → Bool
  pub live : Bool

abbrev pub fresh_server : Server
fresh_server = record { has = λ x. false; live = false }

abbrev pub full_message : List Bytes → Server → Server
full_message ids sv = if sv.live then sv else record { has = λ x. contains x ids; live = true }

abbrev pub serve : Frame → Server → Server
serve (market_initial ids) sv = full_message ids sv
serve (user_initial creds ids) sv = full_message ids sv
serve (subscribe_op ids) sv = record { has = λ x. contains x ids || sv.has x; live = true }
serve (unsubscribe_op ids) sv = record sv { has = λ x. sv.has x && not (contains x ids) }
serve (action text) sv = sv

abbrev pub serve_call : SocketCall → Server → Server
serve_call (send_call f) sv = serve f sv
serve_call (send_first_call f) sv = serve f sv
serve_call _ sv = sv

abbrev pub serve_all : List SocketCall → Server → Server
serve_all [] sv = sv
serve_all (c ∷ cs) sv = serve_all cs (serve_call c sv)

contains_resp :
    (x y : Bytes) (ys : List Bytes) → bytes_eq y x ≡ true → contains y ys ≡ contains x ys
contains_resp x y ys e = ap (λ z. contains z ys) (bytes_eq_sound y x e)

contains-missing :
    (x : Bytes) (xs ys : List Bytes)
    → contains x (missing xs ys) ≡ (contains x xs && not (contains x ys))
unfolding missing
contains-missing x [] ys = refl
contains-missing x (z ∷ xs) ys =
    distribute (contains z ys)
    ∙ combine (bytes_eq z x) (contains z ys) (contains x xs) (contains x ys)
        (contains x (missing xs ys)) (contains_resp x z ys) (contains-missing x xs ys)
  where
    distribute :
        (b : Bool)
        → contains x (if b then missing xs ys else z ∷ missing xs ys)
          ≡ (if b then contains x (missing xs ys) else (bytes_eq z x || contains x (missing xs ys)))
    distribute true = refl
    distribute false = refl

    combine :
        (a b c d r : Bool)
        → (a ≡ true → b ≡ d)
        → r ≡ (c && not d)
        → (if b then r else (a || r)) ≡ ((a || c) && not d)
    combine a b c d r h k = ground arith

empty_contains : (x : Bytes) (xs : List Bytes) → is_empty xs ≡ true → contains x xs ≡ false
empty_contains x [] h = refl
empty_contains x (y ∷ ys) h = cc

pub serve_all-append :
    (xs ys : List SocketCall) (sv : Server)
    → serve_all (xs ++ ys) sv ≡ serve_all ys (serve_all xs sv)
serve_all-append [] ys sv = refl
serve_all-append (c ∷ xs) ys sv = serve_all-append xs ys (serve_call c sv)

abbrev optional : Bool → Frame → List SocketCall
optional b f = if b then [] else send_call f ∷ []

serve_add :
    (ids : List Bytes) (sv : Server) (x : Bytes)
    → (serve_all (optional (is_empty ids) (subscribe_op ids)) sv).has x
      ≡ (contains x ids || sv.has x)
serve_add [] sv x = refl
serve_add (i ∷ ids) sv x = refl

serve_remove :
    (ids : List Bytes) (sv : Server) (x : Bytes)
    → (serve_all (optional (is_empty ids) (unsubscribe_op ids)) sv).has x
      ≡ (sv.has x && not (contains x ids))
serve_remove [] sv x = ground arith
serve_remove (i ∷ ids) sv x = refl

abbrev add_calls : List Bytes → List Bytes → List SocketCall
add_calls ids active = optional (is_empty (missing ids active)) (subscribe_op (missing ids active))

abbrev remove_calls : List Bytes → List Bytes → List SocketCall
remove_calls ids active =
    optional (is_empty (missing active ids)) (unsubscribe_op (missing active ids))

-- Whether a server has an element after a change, by whether it is in the new set, in the active one, and
-- whether the server had it.
abbrev pub follow : Bool → Bool → Bool → Bool
follow new old had = ((new && not old) || had) && not (old && not new)

-- What a change of the subscriptions does to each element at the server.
pub serve_all-subscribe :
    (ids : List Bytes) (s : Subscriptions) (sv : Server) (x : Bytes)
    → (serve_all (subscribe true ids s).1 sv).has x
      ≡ follow (contains x ids) (contains x s.active) (sv.has x)
unfolding subscribe delta
serve_all-subscribe ids s sv x =
    ap (λ r. r.has x) (serve_all-append (add_calls ids s.active) (remove_calls ids s.active) sv)
    ∙ serve_remove (missing s.active ids) (serve_all (add_calls ids s.active) sv) x
    ∙ ap (λ y. y && not (contains x (missing s.active ids))) (serve_add (missing ids s.active) sv x)
    ∙ ap (λ y. (y || sv.has x) && not (contains x (missing s.active ids)))
        (contains-missing x ids s.active)
    ∙ ap (λ y. follow_with (contains x ids && not (contains x s.active)) (sv.has x) y)
        (contains-missing x s.active ids)
  where
    follow_with : Bool → Bool → Bool → Bool
    follow_with a h r = (a || h) && not r

-- While connected, a change of the subscriptions takes the server from the active set to exactly the new one:
-- if the server has what is active, then it has what is desired once it has served the frames, and the
-- active set is the desired one; while not connected, nothing is sent and only the desired set changes.
pub subscribe-serve :
    (ids : List Bytes) (s : Subscriptions) (sv : Server)
    → ((x : Bytes) → sv.has x ≡ contains x s.active)
    → ((x : Bytes) → (serve_all (subscribe true ids s).1 sv).has x ≡ contains x ids)
      × ((subscribe true ids s).0 ≡ record { desired = ids; active = ids })
      × (subscribe false ids s ≡ (record s { desired = ids }, []))
unfolding subscribe
subscribe-serve ids s sv h = (
  λ x.
      serve_all-subscribe ids s sv x
      ∙ synced (contains x ids) (contains x s.active) (sv.has x) (h x),
  refl,
  refl,
)
  where
    synced : (a b c : Bool) → c ≡ b → follow a b c ≡ a
    synced a b c e = ground arith
