-- ===== src/Endpoint/Binproc/Tests.antt =====
-- A bound endpoint with the sessions 7 and 9, of which 9 stops first.
use nanomsg_copy.Prelude.{◌≡◌, refl, [], ◌∷◌, returned}
use nanomsg_copy.Endpoint.{State, Call, Endpoint}
use nanomsg_copy.Endpoint.Binproc.{destroy}
use nanomsg_copy.Endpoint.Binproc.Stopping.{stop_and_drain, stopped, shutdown-drain}

abbrev bound : Endpoint
bound = record { state = State.active; item = 1; sinprocs = 7 ∷ 9 ∷ [] }

shutdown-drain_example :
    (stop_and_drain (9 ∷ 7 ∷ []) bound
      ≡ returned (
        Call.ins_unbind
            ∷ Call.session_stop 7
            ∷ Call.session_stop 9
            ∷ Call.session_term 9
            ∷ Call.session_term 7
            ∷ Call.fsm_stopped_noevent
            ∷ Call.ep_stopped
            ∷ [],
        stopped bound,
      ))
    × (destroy (stopped bound) ≡ returned (Call.fsm_term ∷ Call.item_term ∷ []))
shutdown-drain_example = shutdown-drain (9 ∷ 7 ∷ []) bound (refl, (refl, refl))
