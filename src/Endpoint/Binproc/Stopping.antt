-- ===== src/Endpoint/Binproc/Stopping.antt =====
-- How a bound endpoint stops (src/transports/inproc/binproc.c).
use nanomsg_copy.Prelude.{
  ℕ, ◌≡◌, refl, true, false, List, [], ◌∷◌, ◌++◌, map, has, erase, returned, ◌>>=◌, arith,
}
use nanomsg_copy.Endpoint.{State, FromSession, Event, Call, Endpoint, Result, is_nil}
use nanomsg_copy.Endpoint.Binproc.{shutdown, destroy}

-- The endpoint handles NN_SINPROC_STOPPED of the sessions, in this order.
abbrev pub drain : List ℕ → Endpoint → Result
drain [] self = returned ([], self)
drain (s ∷ order) self = do
  r ← shutdown (Event.from_session s FromSession.stopped) self
  q ← drain order r.1
  returned (r.0 ++ q.0, q.1)

-- It is told to stop, and the sessions then stop in this order.
abbrev pub stop_and_drain : List ℕ → Endpoint → Result
stop_and_drain order self = do
  r ← shutdown Event.stop self
  q ← drain order r.1
  returned (r.0 ++ q.0, q.1)

-- `order` names each member of `ss`, and as often as it is there.
abbrev pub Enumerates : List ℕ → List ℕ → Type 0
Enumerates [] ss = ss ≡ []
Enumerates (s ∷ order) ss = (has s ss ≡ true) × Enumerates order (erase s ss)

-- The endpoint with the state NN_BINPROC_STATE_STOPPING.
abbrev pub stopping : List ℕ → Endpoint → Endpoint
stopping ss self = record self { state = State.stopping; sinprocs = ss }

abbrev pub stopped : Endpoint → Endpoint
stopped self = record self { state = State.idle; sinprocs = [] }

has-is_nil : (s : ℕ) (ss : List ℕ) → has s ss ≡ true → is_nil ss ≡ false
has-is_nil s [] h = cc
has-is_nil s (x ∷ ss) h = refl

shutdown-last :
    (s : ℕ) (ss : List ℕ) (self : Endpoint)
    → has s ss ≡ true
    → erase s ss ≡ []
    → shutdown (Event.from_session s FromSession.stopped) (stopping ss self)
      ≡ returned
          (Call.session_term s ∷ Call.fsm_stopped_noevent ∷ Call.ep_stopped ∷ [], stopped self)
unfolding shutdown
shutdown-last s ss self h e = rw (h, e) refl

shutdown-more :
    (s : ℕ) (ss : List ℕ) (self : Endpoint)
    → has s ss ≡ true
    → is_nil (erase s ss) ≡ false
    → shutdown (Event.from_session s FromSession.stopped) (stopping ss self)
      ≡ returned (Call.session_term s ∷ [], stopping (erase s ss) self)
unfolding shutdown
shutdown-more s ss self h e = rw (h, e) refl

drain-lem :
    (s : ℕ) (order ss : List ℕ) (self : Endpoint)
    → Enumerates (s ∷ order) ss
    → drain (s ∷ order) (stopping ss self)
      ≡ returned (
        map Call.session_term (s ∷ order) ++ Call.fsm_stopped_noevent ∷ Call.ep_stopped ∷ [],
        stopped self,
      )
drain-lem s [] ss self e = rw (shutdown-last s ss self e.0 e.1) refl
drain-lem s (t ∷ order) ss self e =
    rw
      (
        shutdown-more s ss self e.0 (has-is_nil t (erase s ss) e.1.0),
        drain-lem t order (erase s ss) self e.1,
      )
      refl

-- A bound endpoint that is told to stop unbinds its item and stops all its sessions, and when each of
-- them has reported that it has stopped, in any order, it has terminated each of them once, has reported
-- once that it is stopped itself, behind all of that, and nn_binproc_destroy finds no session left. An
-- endpoint without sessions has reported already when it is told to stop.
pub shutdown-drain :
    (order : List ℕ) (self : Endpoint)
    → Enumerates order self.sinprocs
    → (stop_and_drain order self
        ≡ returned (
          Call.ins_unbind ∷ map Call.session_stop self.sinprocs
              ++ (map Call.session_term order ++ Call.fsm_stopped_noevent ∷ Call.ep_stopped ∷ []),
          stopped self,
        ))
      × (destroy (stopped self) ≡ returned (Call.fsm_term ∷ Call.item_term ∷ []))
unfolding shutdown destroy
shutdown-drain [] self e = (rw e refl, refl)
shutdown-drain (s ∷ order) self e =
    (rw (has-is_nil s self.sinprocs e.0, drain-lem s order self.sinprocs self e) refl, refl)

-- binproc_shutdown does the same in every state: its test for NN_BINPROC_STATE_STOPPING assigns that
-- state, and so never fails.
pub shutdown-any_state :
    (event : Event) (self : Endpoint) (state : State)
    → shutdown event (record self { state = state }) ≡ shutdown event self
unfolding shutdown
shutdown-any_state Event.stop self state = ground arith
shutdown-any_state (Event.from_session s FromSession.stopped) self state = refl
shutdown-any_state _ self state = refl
