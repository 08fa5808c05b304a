-- ===== src/Endpoint.antt =====
-- src/transports/inproc/binproc.c and cinproc.c: an endpoint that is bound to an in-process address,
-- and one that connects to it. Both own a list of sessions (src/transports/inproc/sinproc.c), here the
-- sequence of their numbers, and are state machines; the state that nn_fsm keeps is not part of it.
pub mod Binproc
pub mod Cinproc
use nanomsg_copy.Prelude.{
  ℕ, Bool, true, false, not, Option, none, some, List, [], ◌∷◌, ◌++◌, has, erase, map, Outcome,
  returned, ◌>>=◌, ◌>>◌, assert, if◌then◌else◌,
}
use nanomsg_copy.Prelude.Int.{ℤ, pos, negsuc}

-- NN_BINPROC_STATE_* and NN_CINPROC_STATE_*
pub data State : Type 0 where
  idle active stopping : State

-- What a session raises to its owner: NN_SINPROC_STOPPED, NN_SINPROC_DISCONNECT, or another type.
pub data FromSession : Type 0 where
  stopped disconnect other : FromSession

-- The events: NN_FSM_START, NN_FSM_STOP and other actions, NN_SINPROC_CONNECT of a session that wants
-- to be accepted and other types from NN_SINPROC_SRC_PEER, and those from a session of its own.
pub data Event : Type 0 where
  start stop other_action : Event
  connect : ℕ → Event
  other_peer : Event
  from_session : ℕ → FromSession → Event
  other_source : Event

-- NN_STAT_*, as far as the two files count them.
pub data Counted : Type 0 where
  accepted established inprogress : Counted

-- The calls of other files that change what belongs to them, in order. `session_connect` is
-- nn_sinproc_connect with the owner of the state machine to which the event is raised.
pub data Call : Type 0 where
  session_init session_stop session_term : ℕ → Call
  session_connect session_accept : ℕ → ℕ → Call
  count_stat : Counted → ℤ → Call
  fsm_start fsm_stopped_noevent fsm_term item_term ep_tran_setup ep_stopped : Call
  ins_connect ins_unbind ins_disconnect : Call

-- The members `state` and `sinprocs` of nn_binproc and nn_cinproc, and `item`, by its number.
pub record Endpoint : Type 0 where
  pub state : State
  pub item : ℕ
  pub sinprocs : List ℕ

abbrev pub Result : Type 0
Result = Outcome (List Call × Endpoint)

abbrev pub is_nil : List ℕ → Bool
is_nil [] = true
is_nil (x ∷ xs) = false

abbrev pub is_active : State → Bool
is_active State.active = true
is_active _ = false

-- nn_alloc for a session, with alloc_assert.
abbrev pub alloc : Option ℕ → Outcome ℕ
alloc none = Outcome.abort
alloc (some s) = returned s

-- nn_list_insert of a new session at the end.
abbrev pub add_session : ℕ → Endpoint → Endpoint
add_session s self = record self { sinprocs = self.sinprocs ++ s ∷ [] }

-- nn_list_erase, which aborts for an item that is in no list.
abbrev pub erase_session : ℕ → Endpoint → Outcome Endpoint
erase_session s self =
    assert (has s self.sinprocs) >> returned (record self { sinprocs = erase s self.sinprocs })

-- The statements behind the label `finish` of both shutdown functions.
abbrev pub finish : List Call → Endpoint → Result
finish calls self =
    if is_nil self.sinprocs
    then returned (
      calls ++ Call.fsm_stopped_noevent ∷ Call.ep_stopped ∷ [],
      record self { state = State.idle },
    )
    else returned (calls, self)
