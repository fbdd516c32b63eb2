-- ===== src/Pm/Feeds/UserWs.antt =====
-- pm/user_ws.cpp: `UserWs`, whose first frame on a connection carries the credentials.
use polymarket_cpp.Prelude.{Bool, false, List, [], ◌∷◌, ◌++◌, Bytes, codes, bytes_eq, if◌then◌else◌}
use polymarket_cpp.Net.WsClient.State.{Environment, Dispatched, send_first_now}
use polymarket_cpp.Pm.Feeds.{
  missing, SubscriptionDelta, ApiCreds, Frame, user_initial, SocketCall, send_first_call,
  start_call, stop_call, kick_call, AppCall, raw_call, open_call, completion_call, Subscriptions,
  call_if, changes,
}

unfoldable pub delta : List Bytes → List Bytes → SubscriptionDelta
unfolding missing
delta desired active = record { add = missing desired active; remove = missing active desired }

-- `desired_` and `active_` are `subscriptions`; the handlers are by whether they are set.
pub record UserWs : Type 0 where
  pub creds : ApiCreds
  pub subscriptions : Subscriptions
  pub raw_handler : Bool
  pub open_handler : Bool

-- The characters that a string held, overwritten, and the string.
pub record Cleared : Type 0 where
  pub buffer : Bytes
  pub value : Bytes

abbrev pub zeros : Bytes → Bytes
zeros [] = []
zeros (b ∷ bs) = 0 ∷ zeros bs

unfoldable pub secure_clear : Bytes → Cleared
secure_clear value = record { buffer = zeros value; value = [] }

unfoldable pub make_user_ws : ApiCreds → UserWs
make_user_ws creds = record {
  creds = creds;
  subscriptions = record { desired = []; active = [] };
  raw_handler = false;
  open_handler = false;
}

unfoldable pub send_initial : UserWs → UserWs × List SocketCall
send_initial u = (
  record u {
    subscriptions = record { desired = u.subscriptions.desired; active = u.subscriptions.desired };
  },
  send_first_call (user_initial u.creds u.subscriptions.desired) ∷ [],
)

-- With what `connected()` answers.
unfoldable pub subscribe : Bool → List Bytes → UserWs → UserWs × List SocketCall
unfolding delta
subscribe connected condition_ids u =
    if connected
    then (
      record u { subscriptions = record { desired = condition_ids; active = condition_ids } },
      changes (delta condition_ids u.subscriptions.active),
    )
    else (
      record u {
        subscriptions = record { desired = condition_ids; active = u.subscriptions.active };
      },
      [],
    )

unfoldable pub replace_subscription_and_reconnect : List Bytes → UserWs → UserWs × List SocketCall
replace_subscription_and_reconnect condition_ids u = (
  record u { subscriptions = record { desired = condition_ids; active = u.subscriptions.active } },
  kick_call ∷ [],
)

unfoldable pub on_message : UserWs → Bytes → List AppCall
on_message u msg = if bytes_eq msg (codes "PONG") then [] else call_if u.raw_handler (raw_call msg)

unfoldable pub on_open : UserWs → (UserWs × List SocketCall) × List AppCall
unfolding send_initial
on_open u = (send_initial u, call_if u.open_handler open_call)

abbrev now : (Frame → Bytes) → List SocketCall → List Dispatched
now text [] = []
now text (send_first_call f ∷ cs) = send_first_now (text f) ∷ now text cs
now text (_ ∷ cs) = now text cs

-- The calls that the application's handlers make back, of the environment, where they are called.
abbrev pub app_calls : List AppCall → Environment → List Dispatched
app_calls [] env = []
app_calls (open_call ∷ cs) env = env.open_calls ++ app_calls cs env
app_calls (raw_call msg ∷ cs) env = env.message_calls msg ++ app_calls cs env
app_calls (_ ∷ cs) env = app_calls cs env

-- `set_keepalive`, `set_on_message` and `set_on_open`: `send_first` runs at once, since the callback is on
-- the strand.
unfoldable pub environment : (Frame → Bytes) → UserWs → Environment → Environment
unfolding on_open on_message
environment text u env = record env {
  keepalive_interval = 10000;
  keepalive_text = codes "PING";
  open_calls = now text (on_open u).0.1 ++ app_calls (on_open u).1 env;
  message_calls = λ msg. app_calls (on_message u msg) env;
}

abbrev pub start : List SocketCall
start = start_call ∷ []

abbrev pub stop : List SocketCall
stop = stop_call ∷ []

abbrev pub kick : List SocketCall
kick = kick_call ∷ []

-- The completion that `stop` hands on; `completion` is whether the caller gave one.
unfoldable pub stop_completion : Bool → UserWs → UserWs × List AppCall
unfolding secure_clear
stop_completion completion u = (
  record u {
    creds = record {
      api_key = (secure_clear u.creds.api_key).value;
      secret = (secure_clear u.creds.secret).value;
      passphrase = (secure_clear u.creds.passphrase).value;
    };
  },
  call_if completion completion_call,
)
