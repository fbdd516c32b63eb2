-- ===== src/Net/WsClient/Stopping.antt =====
-- What can come after `stop`, with the operations that were under way.
use polymarket_cpp.Prelude.{ℕ, ◌+◌, ◌^◌, ◌<◌, ◌≡◌, refl, Bool, if_case}
use polymarket_cpp.Net.WsClient.State.{Environment, WsClient}
use polymarket_cpp.Net.WsClient.Handlers.{stop}
use polymarket_cpp.Net.WsClient.Events.{Event, stop_event, handle}
use polymarket_cpp.Net.WsClient.Reachable.{begun, begun-close_of, IsRetired, handle-IsRetired}
use polymarket_cpp.Net.WsClient.Runs.{Begun, Begun-Admissible, event_cost, Runs, ran, Runs-IsFresh}

-- The events that follow on a state, each possible where it comes.
pub data Later (env : Environment) (s : WsClient) : WsClient → Type 0 where
  here : Later env s s
  after :
      {t : WsClient} (e : Event)
      → Later env s t
      → Begun e t.effects
      → t.generation + event_cost env e < 2 ^ 64
      → Later env s (handle env e t)

stop-IsRetired : (c : Bool) (s : WsClient) → IsRetired (begun s.effects) (stop c s)
unfolding stop
stop-IsRetired c s =
    let closed = begun-close_of s.socket _ in
    (refl, refl, refl, if_case (λ es. begun es ≡ begun s.effects) c (λ _. closed) (λ _. closed))

module _ (env : Environment) where
  Later-Runs : (s t : WsClient) → Runs env s → Later env s t → Runs env t
  Later-Runs s _ r here = r
  Later-Runs s _ r (after {t} e l m w) = ran e (Later-Runs s t r l) m w

  stays : (s t : WsClient) (n : ℕ) → Runs env s → IsRetired n s → Later env s t → IsRetired n t
  stays s _ n r v here = v
  stays s _ n r v (after {t} e l m w) =
      handle-IsRetired env e t n (stays s t n r v l)
        (Begun-Admissible e t (Runs-IsFresh env t (Later-Runs s t r l)) m)

  -- Stopping is final. After `stop` in any run of a client, whatever comes: calls of `start`, `kick` and `send`,
  -- timers, and completions of the operations that were under way, however late and with any outcome, as long
  -- as the counter of generations does not wrap. The client stays stopped, unconnected and without a stream,
  -- and no asynchronous operation and no wait is begun that was not begun before `stop`.
  pub stop-Later :
      (completion : Bool) (s t : WsClient)
      → Runs env s
      → s.generation + 3 < 2 ^ 64
      → Later env (handle env (stop_event completion) s) t
      → IsRetired (begun s.effects) t
  unfolding handle
  stop-Later completion s t r w l =
      stays (stop completion s) t (begun s.effects) (ran (stop_event completion) r tt w)
        (stop-IsRetired completion s) l
