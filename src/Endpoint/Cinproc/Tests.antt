-- ===== src/Endpoint/Cinproc/Tests.antt =====
-- A connecting endpoint with the session 7.
use nanomsg_copy.Prelude.{◌≡◌, refl, some, [], ◌∷◌, returned}
use nanomsg_copy.Prelude.Int.{negsuc}
use nanomsg_copy.Endpoint.{State, Counted, Call, Endpoint}
use nanomsg_copy.Endpoint.Cinproc.{connect}

abbrev connecting : Endpoint
connecting = record { state = State.active; item = 2; sinprocs = 7 ∷ [] }

-- The new session 8 is connected to the endpoint itself, not to the bound one.
own_peer :
    connect (some 8) 1 connecting
    ≡ returned (
      Call.session_init 8
          ∷ Call.session_connect 8 2
          ∷ Call.count_stat Counted.inprogress (negsuc 0)
          ∷ Call.count_stat Counted.established (negsuc 0)
          ∷ [],
      record connecting { sinprocs = 7 ∷ 8 ∷ [] },
    )
unfolding connect
own_peer = refl
