-- ===== src/Endpoint/Binproc.antt =====
-- src/transports/inproc/binproc.c: the bound endpoint.
pub mod Stopping
mod Tests
use nanomsg_copy.Prelude.{
  ℕ, Bool, true, false, Option, none, some, List, [], ◌∷◌, ◌++◌, map, Outcome, returned, ◌>>=◌,
  ◌>>◌, assert, if◌then◌else◌, Rc, success, failure,
}
use nanomsg_copy.Prelude.Int.{ℤ, pos}
use nanomsg_copy.Endpoint.{
  State, FromSession, Event, Counted, Call, Endpoint, Result, is_nil, is_active, alloc, add_session,
  erase_session, finish,
}

-- nn_binproc_create: `bind` is the result of nn_ins_bind for the new item, which may call `connect`.
-- What nn_fsm_start and nn_fsm_term do is not in the sources.
pub create : ℕ → Rc → Rc × List Call × Option Endpoint
create item bind = elim bind [
  | success ↦ (
    success,
    Call.fsm_start ∷ Call.ep_tran_setup ∷ [],
    some (record { state = State.idle; item = item; sinprocs = [] }),
  )
  | failure e ↦ (failure e, Call.fsm_start ∷ Call.fsm_term ∷ Call.item_term ∷ [], none)
]

-- nn_binproc_connect, the function that nn_ins_bind calls; `peer` is the connecting endpoint.
pub connect : Option ℕ → ℕ → Endpoint → Result
connect fresh peer self = do
  assert (is_active self.state)
  s ← alloc fresh
  returned (
    Call.session_init s
        ∷ Call.session_connect s peer
        ∷ Call.count_stat Counted.accepted (pos 1)
        ∷ [],
    add_session s self,
  )

-- binproc_shutdown. The second condition assigns: it is true in every state.
pub shutdown : Event → Endpoint → Result
shutdown Event.stop self =
    finish (Call.ins_unbind ∷ map Call.session_stop self.sinprocs)
      (record self { state = State.stopping })
shutdown (Event.from_session s FromSession.stopped) self = do
  rest ← erase_session s (record self { state = State.stopping })
  finish (Call.session_term s ∷ []) rest
shutdown event self = Outcome.abort

on_idle : Event → Endpoint → Result
on_idle Event.start self = returned ([], record self { state = State.active })
on_idle event self = Outcome.abort

on_active : Option ℕ → Event → Endpoint → Result
on_active fresh (Event.connect peer) self = do
  s ← alloc fresh
  returned (Call.session_init s ∷ Call.session_accept s peer ∷ [], add_session s self)
on_active fresh (Event.from_session s FromSession.stopped) self = do
  rest ← erase_session s self
  returned (Call.session_term s ∷ [], rest)
on_active fresh (Event.from_session s FromSession.disconnect) self =
    returned (Call.session_stop s ∷ [], self)
on_active fresh (Event.from_session s FromSession.other) self = returned ([], self)
on_active fresh event self = Outcome.abort

-- nn_binproc_handler
pub handler : Option ℕ → Event → Endpoint → Result
handler fresh event self = elim self.state [
  | State.idle ↦ on_idle event self
  | State.active ↦ on_active fresh event self
  | State.stopping ↦ Outcome.abort
]

-- nn_binproc_destroy, with nn_list_term of the sessions.
pub destroy : Endpoint → Outcome (List Call)
destroy self = assert (is_nil self.sinprocs) >> returned (Call.fsm_term ∷ Call.item_term ∷ [])
