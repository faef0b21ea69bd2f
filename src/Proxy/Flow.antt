-- ===== src/Proxy/Flow.antt =====
-- The rules of the handler's frame: what holds of every way in which it ends.
use shepard.Base.{ℕ, ◌≡◌, refl, Bool, Option, none, some, List}
use shepard.Queue.{Round, Admission}
use shepard.Limiter.{AdmissionScope, LimitStore}
use shepard.Admission.{Shared, admit_with_queue}
use shepard.Proxy.State.{
  ProxyState, ClientReply, Finished, waiting_for, returned, finally, set_shared, give_back,
  count_wait, count_rejection, admitted_or, after_wait, with_admission,
}

-- One predicate for a handler that still waits, and one for a return.
abbrev pub FinishedSat {ℓ} :
    (ProxyState → Type ℓ) → (ClientReply → Bool → ProxyState → Type ℓ) → Finished → Type ℓ
FinishedSat W R (waiting_for st) = W st
FinishedSat W R (returned reply completed st) = R reply completed st

module _ {ℓ} (W : ProxyState → Type ℓ) (R S : ClientReply → Bool → ProxyState → Type ℓ) where
  pub finally-FinishedSat :
      (f : ProxyState → ProxyState) (result : Finished)
      → ((reply : ClientReply) (b : Bool) (st : ProxyState) → S reply b st → R reply b (f st))
      → FinishedSat W S result
      → FinishedSat W R (finally f result)
  finally-FinishedSat f (waiting_for st) h s = s
  finally-FinishedSat f (returned reply b st) h s = h reply b st s

-- The state after a wait that returned.
abbrev pub admitted_state : Admission (List AdmissionScope) → Shared → ProxyState → ProxyState
admitted_state a w st = record (set_shared w st) { metrics = count_wait a.queued st.metrics }

module _ {ℓ} (W : ProxyState → Type ℓ) (R : ClientReply → Bool → ProxyState → Type ℓ)
    (S : List AdmissionScope → ClientReply → Bool → ProxyState → Type ℓ)
    (rejected body : ProxyState → Finished) (st : ProxyState) where
  admitted_or-FinishedSat :
      (st' : ProxyState) (release : Option (List AdmissionScope))
      → (release ≡ none
          → FinishedSat W R (rejected (record st' { metrics = count_rejection st'.metrics })))
      → ((held : List AdmissionScope) → release ≡ some held → FinishedSat W (S held) (body st'))
      → ((held : List AdmissionScope) (reply : ClientReply) (b : Bool) (u : ProxyState)
          → S held reply b u
          → R reply b (give_back held u))
      → FinishedSat W R (admitted_or rejected body st' release)
  admitted_or-FinishedSat st' none no_one some_one back = no_one refl
  admitted_or-FinishedSat st' (some held) no_one some_one back =
      finally-FinishedSat W R (S held) (give_back held) (body st') (back held) (some_one held refl)

  after_wait-FinishedSat :
      (result : Option (Admission (List AdmissionScope)) × Shared)
      → ((w : Shared) → result ≡ (none, w) → W (set_shared w st))
      → ((a : Admission (List AdmissionScope)) (w : Shared)
          → result ≡ (some a, w)
          → a.release ≡ none
          → FinishedSat W R (
              rejected (record (admitted_state a w st) {
                metrics = count_rejection (count_wait a.queued st.metrics);
              })))
      → ((a : Admission (List AdmissionScope)) (w : Shared) (held : List AdmissionScope)
          → result ≡ (some a, w)
          → a.release ≡ some held
          → FinishedSat W (S held) (body (admitted_state a w st)))
      → ((held : List AdmissionScope) (reply : ClientReply) (b : Bool) (u : ProxyState)
          → S held reply b u
          → R reply b (give_back held u))
      → FinishedSat W R (after_wait rejected body st result)
  unfolding after_wait
  after_wait-FinishedSat (none, w) waits no_one some_one back = waits w refl
  after_wait-FinishedSat (some a, w) waits no_one some_one back =
      admitted_or-FinishedSat (admitted_state a w st) a.release (no_one a w refl)
        (λ held. some_one a w held refl) back

  pub with_admission-FinishedSat :
      (scopes : List AdmissionScope) (rounds : List (Round (ℕ × LimitStore)))
      → ((w : Shared) → admit_with_queue scopes rounds st.shared ≡ (none, w) → W (set_shared w st))
      → ((a : Admission (List AdmissionScope)) (w : Shared)
          → admit_with_queue scopes rounds st.shared ≡ (some a, w)
          → a.release ≡ none
          → FinishedSat W R (
              rejected (record (admitted_state a w st) {
                metrics = count_rejection (count_wait a.queued st.metrics);
              })))
      → ((a : Admission (List AdmissionScope)) (w : Shared) (held : List AdmissionScope)
          → admit_with_queue scopes rounds st.shared ≡ (some a, w)
          → a.release ≡ some held
          → FinishedSat W (S held) (body (admitted_state a w st)))
      → ((held : List AdmissionScope) (reply : ClientReply) (b : Bool) (u : ProxyState)
          → S held reply b u
          → R reply b (give_back held u))
      → FinishedSat W R (with_admission scopes rounds rejected body st)
  unfolding with_admission
  with_admission-FinishedSat scopes rounds =
      after_wait-FinishedSat (admit_with_queue scopes rounds st.shared)
