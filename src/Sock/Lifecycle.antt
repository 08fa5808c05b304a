-- ===== src/Sock/Lifecycle.antt =====
-- nn_sock_handler, nn_sock_shutdown, nn_sock_add_ep and nn_sock_rm_ep (spelled nn_sock_em_ep there) of
-- src/core/sock.c: the state machine of a socket. An endpoint is known by its id, which is also its
-- address here. The functions of src/core/ep.h that these call have no body in the sources; the calls
-- of them are recorded in order. Where `lists_intact` is true, `eps` and `sdeps` are the two lists from
-- either end; where it is false, they are what is found from the first pointers, and what the functions do
-- to the lists is not followed further.
pub mod Invariant
pub mod Drain
pub mod Endpoints
mod Tests
use nanomsg_copy.Prelude.{
  ℕ, zero, suc, not, ◌==◌, Bool, true, false, ◌&&◌, Option, none, some, List, [], ◌∷◌, ◌++◌, has,
  erase, Rc, success, failure, Errno, if◌then◌else◌, Outcome, returned, ◌>>=◌, ◌>>◌, assert,
}
use nanomsg_copy.Prelude.Int.{ℤ, pos, negsuc}
use nanomsg_copy.Ctx.{FsmEvent}
use nanomsg_copy.Sock.{Sock, State, Protocol}

-- Where an event comes from, by the number in it: NN_FSM_ACTION, NN_SOCK_SRC_EP, or else a pipe.
pub data Source : Type 0 where
  action ep pipe : Source

abbrev pub source_of : ℤ → Source
source_of (negsuc (suc zero)) = Source.action
source_of (pos (suc zero)) = Source.ep
source_of _ = Source.pipe

-- nn_sock_stopped on the event `stopped` of the state machine `fsm`, with the type NN_SOCK_ACTION_STOPPED; the
-- line for the source is a comparison, so that the event keeps the one it has.
pub sock_stopped : ℕ → FsmEvent → FsmEvent
sock_stopped fsm stopped = record stopped { fsm = some fsm; srcptr = none; type = pos 1 }

-- NN_FSM_START, NN_FSM_STOP, the number 1 (NN_SOCK_ACTION_STOPPED and NN_EP_STOPPED), NN_PIPE_IN,
-- NN_PIPE_OUT, and any other number.
pub data Kind : Type 0 where
  start stop stopped pipe_in pipe_out other : Kind

pub data Call : Type 0 where
  ep_start ep_stop ep_term : ℕ → Call

abbrev null : List ℕ → Bool
null [] = true
null (x ∷ xs) = false

abbrev pub is_first : ℕ → List ℕ → Bool
is_first e [] = false
is_first e (x ∷ xs) = e == x

abbrev pub is_last : ℕ → List ℕ → Bool
is_last e [] = false
is_last e (x ∷ []) = e == x
is_last e (x ∷ y ∷ ys) = is_last e (y ∷ ys)

abbrev pub tail : List ℕ → List ℕ
tail [] = []
tail (x ∷ xs) = xs

-- What nn_list_erase does to the list it is called with, `own`, and to the list that the item is in, `rest`,
-- as what is found from their first pointers: the item has pointers to its neighbours only, so that a first
-- item makes its successor the first of `own`, and `rest` still points to it; a last item makes its
-- predecessor the last of `own`, and `rest` still has it as its last.
abbrev pub misplace : ℕ → List ℕ → List ℕ → Bool × List ℕ × List ℕ
misplace e own rest =
    if is_first e rest then (false, tail rest, rest) else (not (is_last e rest), own, erase e rest)

-- nn_list_erase of the item of an endpoint from the list `own`: whether both lists are in order after it, and
-- the two. Its assertion fails for an item that is in neither.
pub take_out : ℕ → List ℕ → List ℕ → Outcome (Bool × List ℕ × List ℕ)
take_out e own rest =
    if has e own
    then returned (true, erase e own, rest)
    else if has e rest
    then returned (misplace e own rest)
    else Outcome.abort

abbrev stop_calls : List ℕ → List Call
stop_calls [] = []
stop_calls (e ∷ es) = Call.ep_stop e ∷ stop_calls es

-- nn_efd_stop signals the descriptor, of a direction that the socket type has.
abbrev stop_efd : Bool → Bool → Bool
stop_efd lacking fd = if lacking then fd else true

module _ {S O Msg : Type 0} (vfptr : Protocol S Msg) where
  -- The labels finish1 and finish2 of nn_sock_shutdown.
  pub finish1 : List Call → Sock S O → Outcome (List Call × Sock S O)
  finish1 calls self = returned (
    calls,
    record self {
      sockbase = vfptr.destroy self.sockbase;
      state = State.fini;
      termsem = suc self.termsem;
    },
  )

  pub finish2 : List Call → Sock S O → Outcome (List Call × Sock S O)
  finish2 calls self = elim self.sdeps [
    | e ∷ es ↦ returned (calls, self)
    | [] ↦ assert (null self.eps) >> (elim vfptr.stop [
      | none ↦ finish1 calls (record self { state = State.stopping })
      | some f ↦
          returned (calls, record self { state = State.stopping; sockbase = f self.sockbase })
    ])
  ]

  -- The branch for NN_FSM_STOP: the endpoints are moved one by one to the end of `sdeps`.
  pub begin_stop : Sock S O → Outcome (List Call × Sock S O)
  begin_stop self = elim self.state [
    | State.active ↦ finish2 (stop_calls self.eps) (record self {
      rcvfd = stop_efd self.socktype.no_recv self.rcvfd;
      sndfd = stop_efd self.socktype.no_send self.sndfd;
      eps = [];
      sdeps = self.sdeps ++ self.eps;
      state = State.stopping_eps;
    })
    | _ ↦ Outcome.abort
  ]

  pub ep_stopped : ℕ → Sock S O → Outcome (List Call × Sock S O)
  ep_stopped e self = take_out e self.sdeps self.eps >>= λ (intact, sdeps, eps).
      finish2 (Call.ep_term e ∷ [])
        (record self { sdeps = sdeps; eps = eps; lists_intact = intact && self.lists_intact })

  -- The other branches of nn_sock_shutdown, by state.
  pub continue_stop : State → Source → Kind → ℕ → Sock S O → Outcome (List Call × Sock S O)
  continue_stop State.stopping_eps Source.ep Kind.stopped srcptr self = ep_stopped srcptr self
  continue_stop State.stopping_eps src type srcptr self = returned ([], self)
  continue_stop State.stopping Source.action Kind.stopped srcptr self = finish1 [] self
  continue_stop State.stopping src type srcptr self = Outcome.abort
  continue_stop state src type srcptr self = Outcome.abort

  pub shutdown : Source → Kind → ℕ → Sock S O → Outcome (List Call × Sock S O)
  shutdown Source.action Kind.stop srcptr self = begin_stop self
  shutdown src type srcptr self = continue_stop self.state src type srcptr self

  -- The branch of nn_sock_handler for NN_SOCK_STATE_ACTIVE.
  pub handle_active : Source → Kind → ℕ → Sock S O → Outcome (List Call × Sock S O)
  handle_active Source.ep Kind.stopped srcptr self =
      take_out srcptr self.eps self.sdeps >>= λ (intact, eps, sdeps). returned (
        Call.ep_term srcptr ∷ [],
        record self { eps = eps; sdeps = sdeps; lists_intact = intact && self.lists_intact },
      )
  handle_active Source.pipe Kind.pipe_in srcptr self =
      returned ([], record self { sockbase = vfptr.on_in srcptr self.sockbase })
  handle_active Source.pipe Kind.pipe_out srcptr self =
      returned ([], record self { sockbase = vfptr.on_out srcptr self.sockbase })
  handle_active src type srcptr self = Outcome.abort

  abbrev handle_init : Source → Kind → Sock S O → Outcome (List Call × Sock S O)
  handle_init Source.action Kind.start self = returned ([], record self { state = State.active })
  handle_init src type self = Outcome.abort

  pub handler : Source → Kind → ℕ → Sock S O → Outcome (List Call × Sock S O)
  handler src type srcptr self = elim self.state [
    | State.init ↦ handle_init src type self
    | State.active ↦ handle_active src type srcptr self
    | _ ↦ Outcome.abort
  ]

-- What nn_sock_add_ep comes to: the id, whether the lock has been left, the calls, and the socket.
pub record Added (S O : Type 0) : Type 0 where
  pub rc : Rc
  pub eid : ℕ
  pub left : Bool
  pub calls : List Call
  pub self : Sock S O

module _ {S O : Type 0} where
  -- `allocated` says whether nn_alloc gives memory, and `ep_init` is the result of nn_ep_init.
  pub add_ep : Bool → Rc → Sock S O → Added S O
  add_ep false ep_init self = record {
    rc = failure Errno.enomem;
    eid = 0;
    left = false;
    calls = [];
    self = self;
  }
  add_ep true (failure e) self = record {
    rc = failure e;
    eid = 0;
    left = true;
    calls = [];
    self = self;
  }
  add_ep true success self = record {
    rc = success;
    eid = self.eid;
    left = true;
    calls = Call.ep_start self.eid ∷ [];
    self = record self { eid = suc self.eid; eps = self.eps ++ self.eid ∷ [] };
  }

  pub em_ep : ℕ → Sock S O → Rc × List Call × Sock S O
  em_ep eid self =
      if has eid self.eps
      then (
        success,
        Call.ep_stop eid ∷ [],
        record self { eps = erase eid self.eps; sdeps = self.sdeps ++ eid ∷ [] },
      )
      else (failure Errno.einval, [], self)
