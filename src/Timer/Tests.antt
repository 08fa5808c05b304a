-- ===== src/Timer/Tests.antt =====
-- A timer of 50 milliseconds, with a timeout that comes when it is being stopped.
use nanomsg_copy.Prelude.{◌≡◌, refl, true, [], ◌∷◌, returned}
use nanomsg_copy.Prelude.Int.{pos, negsuc}
use nanomsg_copy.Timer.{State, Event, Action, term, begin, shutdown, handler}
use nanomsg_copy.Timer.Run.{feed, feed-stop}

feed-stop_example :
    (begin (pos 50) (record { state = State.idle; timeout = negsuc 0 })
      ≡ returned (Action.fsm_start ∷ [], record { state = State.idle; timeout = pos 50 }))
    × (feed handler
          (Event.start ∷ Event.start_task true ∷ Event.expiry true ∷ [])
          (record { state = State.idle; timeout = pos 50 })
        ≡ returned (
          Action.execute_start ∷ Action.add_timer (pos 50) ∷ Action.raise_timeout ∷ [],
          record { state = State.active; timeout = negsuc 0 },
        ))
    × (feed shutdown
          (Event.stop ∷ Event.expiry true ∷ Event.stop_task true ∷ [])
          (record { state = State.active; timeout = negsuc 0 })
        ≡ returned (
          Action.execute_stop ∷ Action.rm_timer ∷ Action.fsm_stopped ∷ [],
          record { state = State.idle; timeout = negsuc 0 },
        ))
    × (term (record { state = State.idle; timeout = negsuc 0 }) ≡ returned tt)
feed-stop_example = feed-stop 50 (Event.expiry true ∷ []) (refl, tt)
