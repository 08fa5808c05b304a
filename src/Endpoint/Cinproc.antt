-- ===== src/Endpoint/Cinproc.antt =====
-- src/transports/inproc/cinproc.c: the connecting endpoint.
mod Tests
use nanomsg_copy.Prelude.{
  ℕ, Bool, true, false, Option, none, some, List, [], ◌∷◌, ◌++◌, map, Outcome, returned, ◌>>=◌,
  ◌>>◌, assert, if◌then◌else◌,
}
use nanomsg_copy.Prelude.Int.{ℤ, pos, negsuc}
use nanomsg_copy.Endpoint.{
  State, FromSession, Event, Counted, Call, Endpoint, Result, is_nil, is_active, alloc, add_session,
  finish, erase_session,
}

-- nn_cinproc_create. nn_ins_connect may call `connect`.
pub create : ℕ → List Call × Endpoint
create item = (
  Call.ep_tran_setup
      ∷ Call.count_stat Counted.inprogress (pos 1)
      ∷ Call.fsm_start
      ∷ Call.ins_connect
      ∷ [],
  record { state = State.idle; item = item; sinprocs = [] },
)

-- nn_cinproc_connect, the function that nn_ins_connect calls; `peer` is the bound endpoint, which it does
-- not use: the session is connected to the endpoint's own state machine.
pub connect : Option ℕ → ℕ → Endpoint → Result
connect fresh peer self = do
  assert (is_active self.state)
  s ← alloc fresh
  returned (
    Call.session_init s
        ∷ Call.session_connect s self.item
        ∷ Call.count_stat Counted.inprogress (negsuc 0)
        ∷ Call.count_stat Counted.established (negsuc 0)
        ∷ [],
    add_session s self,
  )

-- The variable `sinproc` of nn_cinproc_shutdown outside its loop, which is given no value: what it points to is
-- undefined.
abbrev sinproc : Option ℕ
sinproc = none

abbrev value : Option ℕ → Outcome ℕ
value none = Outcome.undefined
value (some s) = returned s

-- nn_cinproc_shutdown. The session that stopped is assigned to `cinproc` where `sinproc` is meant.
pub shutdown : Event → Endpoint → Result
shutdown Event.stop self =
    finish (Call.ins_disconnect ∷ map Call.session_stop self.sinprocs)
      (record self { state = State.stopping })
shutdown event self = elim self.state [
  | State.stopping ↦ do
    s ← value sinproc
    rest ← erase_session s self
    finish (Call.session_term s ∷ []) rest
  | _ ↦ do s ← value sinproc; Outcome.abort
]

on_idle : Event → Endpoint → Result
on_idle Event.start self = returned ([], record self { state = State.active })
on_idle event self = Outcome.abort

on_active : Option ℕ → Event → Endpoint → Result
on_active fresh (Event.connect peer) self = do
  s ← alloc fresh
  returned (
    Call.session_init s
        ∷ Call.session_accept s peer
        ∷ Call.count_stat Counted.inprogress (negsuc 0)
        ∷ Call.count_stat Counted.established (pos 1)
        ∷ [],
    add_session s self,
  )
on_active fresh (Event.from_session s FromSession.disconnect) self =
    returned (Call.count_stat Counted.inprogress (pos 1) ∷ [], self)
on_active fresh event self = Outcome.abort

-- nn_cinproc_handler
pub handler : Option ℕ → Event → Endpoint → Result
handler fresh event self = elim self.state [
  | State.idle ↦ on_idle event self
  | State.active ↦ on_active fresh event self
  | State.stopping ↦ Outcome.abort
]

-- nn_cinproc_destroy, with nn_list_term of the sessions.
pub destroy : Endpoint → Outcome (List Call)
destroy self = assert (is_nil self.sinprocs) >> returned (Call.fsm_term ∷ Call.item_term ∷ [])
