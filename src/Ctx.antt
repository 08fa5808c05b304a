-- ===== src/Ctx.antt =====
-- src/aio/ctx.c, ctx.h, fsm.c and fsm.h: events for state machines, in the queues of the context that protects
-- them. What a state machine does with an event is a parameter: its functions are given by the files that use
-- them, and nn_fsm_raise and nn_fsm_raiseto, which fill an event in before it is queued, are not in the sources.
pub mod Leave
mod Tests
use nanomsg_copy.Prelude.{
  ℕ, zero, suc, Bool, true, false, not, Option, none, some, List, [], ◌∷◌, ◌++◌, Outcome, returned,
  undefined, out_of_fuel, ◌>>=◌, ◌>>◌, assert, if◌then◌else◌, update,
}
use nanomsg_copy.Prelude.Int.{ℤ, negsuc}

-- NN_FSM_STATE_*
pub data State : Type 0 where
  idle active stopping : State

-- struct nn_fsm_event but for its item.
pub record FsmEvent : Type 0 where
  pub fsm : Option ℕ
  pub src : ℤ
  pub srcptr : Option ℕ
  pub type : ℤ

-- The members of struct nn_fsm that these files read.
pub record Fsm : Type 0 where
  pub state : State
  pub ctx : ℕ

-- The memory that the context and the machines share: the events and whether each is in a queue, the machines,
-- and what else there is.
pub record World (X : Type 0) : Type 0 where
  pub event : ℕ → FsmEvent
  pub queued : ℕ → Bool
  pub fsm : ℕ → Fsm
  pub data_of : X

-- The queues of a context as the sequences of their events, and its mutex.
pub record Ctx : Type 0 where
  pub events : List ℕ
  pub eventsto : List ℕ
  pub locked : Bool

-- What a function of a machine or an onleave function does: it changes the memory, and raises events with
-- nn_ctx_raise and nn_ctx_raiseto of its context.
pub record Effect (X : Type 0) : Type 0 where
  pub world : World X
  pub raised : List ℕ
  pub raisedto : List ℕ

-- nn_fsm_event_init but for the item, and what nn_fsm_event_process leaves.
abbrev pub cleared : Option ℕ → FsmEvent
cleared fsm = record { fsm = fsm; src = negsuc 0; srcptr = none; type = negsuc 0 }

module _ {X : Type 0} where
  abbrev pub set_queued : ℕ → Bool → World X → World X
  set_queued e b w = record w { queued = update w.queued e b }

  pub event_init : ℕ → World X → World X
  event_init e w = record w {
    event = update w.event e (cleared none);
    queued = update w.queued e false;
  }

  pub event_active : ℕ → World X → Bool
  event_active e w = w.queued e

  -- nn_ctx_raise and nn_ctx_raiseto, on the queue that is meant: nn_queue_push asserts that the event is in no
  -- queue.
  pub raise : ℕ → List ℕ → World X → Outcome (List ℕ × World X)
  raise e q w = do assert (not (w.queued e)); returned (q ++ e ∷ [], set_queued e true w)

  abbrev pub raise_all : List ℕ → List ℕ → World X → Outcome (List ℕ × World X)
  raise_all [] q w = returned (q, w)
  raise_all (e ∷ es) q w = do (q', w') ← raise e q w; raise_all es q' w'

abbrev pub is_stopping : State → Bool
is_stopping State.stopping = true
is_stopping _ = false

-- A pointer that is followed.
abbrev pub deref : Option ℕ → Outcome ℕ
deref none = undefined
deref (some m) = returned m

-- The functions fn and shutdown_fn of a machine, with the source, the type and the pointer of the event.
abbrev pub Function : Type 0 → Type 0
Function X = ℕ → ℤ → ℤ → Option ℕ → World X → Effect X

module _ {X : Type 0} (fn shutdown_fn : Function X) where
  pub feed : ℕ → ℤ → ℤ → Option ℕ → World X → Effect X
  feed self src type srcptr w =
      if not (is_stopping (w.fsm self).state)
      then fn self src type srcptr w
      else shutdown_fn self src type srcptr w

  -- nn_fsm_event_process: the event is cleared before the machine sees it, so that it may be raised again.
  pub process : ℕ → World X → Outcome (Effect X)
  process e w = do
    let ev = w.event e
    m ← deref ev.fsm
    returned
        (feed m ev.src ev.type ev.srcptr (record w { event = update w.event e (cleared (some m)) }))

  -- The first loop of nn_ctx_leave, with the events that it processes and those that are raised meanwhile for
  -- the same context, and the memory and the queue eventsto at its end.
  pub drain : ℕ → List ℕ → List ℕ → World X → Outcome (List ℕ × List ℕ × List ℕ × World X)
  drain zero events eventsto w = out_of_fuel
  drain (suc fuel) [] eventsto w = returned ([], [], eventsto, w)
  drain (suc fuel) (e ∷ events) eventsto w = do
    effect ← process e (set_queued e false w)
    (events1, w1) ← raise_all effect.raised events effect.world
    (eventsto2, w2) ← raise_all effect.raisedto eventsto w1
    (done, more, eventsto3, w3) ← drain fuel events1 eventsto2 w2
    returned (e ∷ done, effect.raised ++ more, eventsto3, w3)

  -- The contexts; a call of onleave is an effect, and there is none for NULL.
  abbrev pub Ctxs : Type 0
  Ctxs = ℕ → Ctx

  -- nn_ctx_enter: locking a mutex that is held does not come back here.
  pub enter : ℕ → Ctxs → Outcome Ctxs
  enter c ctxs =
      if (ctxs c).locked
      then undefined
      else returned (
          update ctxs c
            (record { events = (ctxs c).events; eventsto = (ctxs c).eventsto; locked = true }))

  -- The last loop of nn_ctx_leave: each event is processed in the context of its machine, which is entered and
  -- left for it.
  pub forward :
      (ℕ → Ctxs → World X → Outcome (Ctxs × World X))
      → List ℕ
      → Ctxs
      → World X
      → Outcome (Ctxs × World X)
  forward leave_ctx [] ctxs w = returned (ctxs, w)
  forward leave_ctx (e ∷ es) ctxs w = do
    let out = set_queued e false w
    m ← deref (out.event e).fsm
    let d = (out.fsm m).ctx
    ctxs1 ← enter d ctxs
    effect ← process e out
    (events, w1) ← raise_all effect.raised (ctxs1 d).events effect.world
    (eventsto, w2) ← raise_all effect.raisedto (ctxs1 d).eventsto w1
    (ctxs2, w3) ←
        leave_ctx d
          (update ctxs1 d (record { events = events; eventsto = eventsto; locked = true })) w2
    forward leave_ctx es ctxs2 w3

  abbrev left : Option (World X → Effect X) → World X → Effect X
  left none w = record { world = w; raised = []; raisedto = [] }
  left (some f) w = f w

  pub leave : (ℕ → Option (World X → Effect X)) → ℕ → ℕ → Ctxs → World X → Outcome (Ctxs × World X)
  leave onleave zero c ctxs w = out_of_fuel
  leave onleave (suc fuel) c ctxs w = do
    (done, more, eventsto, w1) ← drain (suc fuel) (ctxs c).events (ctxs c).eventsto w
    let effect = left (onleave c) w1
    (events2, w2) ← raise_all effect.raised [] effect.world
    (eventsto3, w3) ← raise_all effect.raisedto eventsto w2
    forward (leave onleave fuel) eventsto3
        (update ctxs c (record { events = events2; eventsto = []; locked = false })) w3

-- nn_ctx_init and nn_ctx_term: nn_queue_term empties a queue.
pub init : Ctx
init = record { events = []; eventsto = []; locked = false }

pub term : Ctx → Ctx
term self = record self { events = []; eventsto = [] }
