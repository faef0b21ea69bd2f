-- ===== src/Metrics/Balance.antt =====
-- The counters over any number of requests.
use shepard.Base.{ℕ, ◌+◌, ◌≡◌, String, List, [], ◌∷◌, arith}
use shepard.Config.Types.{Config}
use shepard.Identity.{Request}
use shepard.Proxy.{proxy}
use shepard.Proxy.State.{
  Metrics, ProxyState, ProxyEnv, refused, relayed, Finished, waiting_for, returned, Codec,
}
use shepard.Proxy.Accounting.{IsPending, IsCounted, proxy-IsCounted}
use shepard.Proxy.Flow.{FinishedSat}

-- One call of the handler: the configuration that it loads, and what it meets.
pub record Call : Type 0 where
  pub config : Config
  pub env : ProxyEnv
  pub client : String
  pub request : Request
  pub body : List ℕ

abbrev pub state_of : Finished → ProxyState
state_of (waiting_for st) = st
state_of (returned reply completed st) = st

unfoldable pub run_calls : Codec → List Call → ProxyState → ProxyState
run_calls codec [] st = st
run_calls codec (call ∷ calls) st =
    run_calls codec calls
      (state_of (proxy codec call.config call.env call.client call.request call.body st))

-- Every request is completed, failed or still active.
abbrev pub IsBalanced : Metrics → Type 0
IsBalanced m = m.requests ≡ m.completed + m.failed + m.active

FinishedSat-IsBalanced :
    (m : Metrics) (elapsed : ℕ) (r : Finished)
    → IsBalanced m
    → FinishedSat (IsPending m) (IsCounted m elapsed) r
    → IsBalanced (state_of r).metrics
FinishedSat-IsBalanced m elapsed (waiting_for st) b v = ground arith
FinishedSat-IsBalanced m elapsed (returned (refused status message retry) completed st) b v =
    ground arith
FinishedSat-IsBalanced m elapsed (returned (relayed status header chunks) completed st) b v =
    ground arith

-- The counters balance: if the requests are those that completed, failed or are active, then so
-- they are after any calls of the handler, whatever configuration and environment each of them
-- meets.
pub run_calls-IsBalanced :
    (codec : Codec) (calls : List Call) (st : ProxyState)
    → IsBalanced st.metrics
    → IsBalanced (run_calls codec calls st).metrics
unfolding run_calls
run_calls-IsBalanced codec [] st b = b
run_calls-IsBalanced codec (call ∷ calls) st b = run_calls-IsBalanced codec calls _ (
    FinishedSat-IsBalanced st.metrics call.env.elapsed _ b
      (proxy-IsCounted codec call.config call.env call.client call.request call.body st))
