-- ===== src/Sock/Lifecycle/Invariant.antt =====
-- What each state of a socket says of its endpoints and of the semaphore that nn_sock_term waits for
-- (src/core/sock.c).
use nanomsg_copy.Prelude.{ℕ, ◌≡◌, Bool, true, List, [], Rc, returned, arith}
use nanomsg_copy.Sock.{Sock, State, Protocol}
use nanomsg_copy.Sock.Lifecycle.{
  Source, Kind, Call, take_out, finish1, finish2, begin_stop, ep_stopped, continue_stop, shutdown,
  handle_active, handler, add_ep, em_ep,
}

abbrev pub InState : State → List ℕ → List ℕ → ℕ → Type 0
InState State.init eps sdeps posts = (eps ≡ []) × (sdeps ≡ []) × (posts ≡ 0)
InState State.active eps sdeps posts = posts ≡ 0
InState State.stopping_eps eps sdeps posts = (eps ≡ []) × (posts ≡ 0)
InState State.stopping eps sdeps posts = (eps ≡ []) × (sdeps ≡ []) × (posts ≡ 0)
InState State.fini eps sdeps posts = (eps ≡ []) × (sdeps ≡ []) × (posts ≡ 1)

module _ {S O : Type 0} where
  abbrev pub IsValid : Sock S O → Type 0
  IsValid self = InState self.state self.eps self.sdeps self.termsem

module _ {S O Msg : Type 0} (vfptr : Protocol S Msg) where
  finish2-IsValid :
      (calls : List Call) (self : Sock S O) {out : List Call × Sock S O}
      → finish2 vfptr calls self ≡ returned out
      → self.state ≡ State.stopping_eps
      → self.eps ≡ []
      → self.termsem ≡ 0
      → IsValid out.1
  unfolding finish2 finish1
  finish2-IsValid calls self e st h k = ground (arith, st, h, k)

  pub handler-start :
      (p : ℕ) (self : Sock S O)
      → self.state ≡ State.init
      → handler vfptr Source.action Kind.start p self
        ≡ returned ([], record self { state = State.active })
  unfolding handler
  handler-start p self st = ground (arith, st)

  handler-IsValid :
      (src : Source) (type : Kind) (p : ℕ) (self : Sock S O) {out : List Call × Sock S O}
      → handler vfptr src type p self ≡ returned out
      → IsValid self
      → IsValid out.1
  unfolding handler handle_active take_out
  handler-IsValid src type p self e v = ground arith

  begin_stop-IsValid :
      (self : Sock S O) {out : List Call × Sock S O}
      → begin_stop vfptr self ≡ returned out
      → IsValid self
      → IsValid out.1
  unfolding begin_stop finish2 finish1
  begin_stop-IsValid self e v = ground arith

  continue_stop-IsValid :
      (src : Source) (type : Kind) (p : ℕ) (self : Sock S O) {out : List Call × Sock S O}
      → continue_stop vfptr self.state src type p self ≡ returned out
      → IsValid self
      → IsValid out.1
  unfolding continue_stop ep_stopped take_out finish2 finish1
  continue_stop-IsValid src type p self e v = ground arith

  shutdown-IsValid :
      (src : Source) (type : Kind) (p : ℕ) (self : Sock S O) {out : List Call × Sock S O}
      → shutdown vfptr src type p self ≡ returned out
      → IsValid self
      → IsValid out.1
  unfolding shutdown
  shutdown-IsValid Source.action Kind.stop p self e v = begin_stop-IsValid self e v
  shutdown-IsValid src type p self e v = continue_stop-IsValid src type p self e v

-- What happens to a socket, one after the other, each under its lock: an event for its state machine,
-- that the handler or the shutdown handler takes, a new endpoint while it is active, and the end of
-- an endpoint.
pub data Step {S O Msg : Type 0} (vfptr : Protocol S Msg) : Sock S O → Sock S O → Type 0 where
  handled :
      (src : Source) (type : Kind) (p : ℕ) {self : Sock S O} {calls : List Call} {after : Sock S O}
      → handler vfptr src type p self ≡ returned (calls, after)
      → Step vfptr self after
  shut :
      (src : Source) (type : Kind) (p : ℕ) {self : Sock S O} {calls : List Call} {after : Sock S O}
      → shutdown vfptr src type p self ≡ returned (calls, after)
      → Step vfptr self after
  added :
      (allocated : Bool) (ep_init : Rc) {self : Sock S O}
      → self.state ≡ State.active
      → Step vfptr self (add_ep allocated ep_init self).self
  removed : (eid : ℕ) {self : Sock S O} → Step vfptr self (em_ep eid self).2

-- Steps as long as the lists of endpoints are in order.
pub data Steps {S O Msg : Type 0} (vfptr : Protocol S Msg) : Sock S O → Sock S O → Type 0 where
  stay : {self : Sock S O} → Steps vfptr self self
  step :
      {self next after : Sock S O}
      → self.lists_intact ≡ true
      → Step vfptr self next
      → Steps vfptr next after
      → Steps vfptr self after

module _ {S O Msg : Type 0} (vfptr : Protocol S Msg) where
  added-IsValid :
      (allocated : Bool) (ep_init : Rc) (self : Sock S O)
      → self.state ≡ State.active
      → IsValid self
      → IsValid (add_ep allocated ep_init self).self
  unfolding add_ep
  added-IsValid allocated ep_init self st v = ground (arith, st)

  removed-IsValid : (eid : ℕ) (self : Sock S O) → IsValid self → IsValid (em_ep eid self).2
  unfolding em_ep
  removed-IsValid eid self v = ground arith

  Step-IsValid : {self after : Sock S O} → Step vfptr self after → IsValid self → IsValid after
  Step-IsValid {self = self} (Step.handled src type p e) v =
      handler-IsValid vfptr src type p self e v
  Step-IsValid {self = self} (Step.shut src type p e) v = shutdown-IsValid vfptr src type p self e v
  Step-IsValid {self = self} (Step.added allocated ep_init st) v =
      added-IsValid allocated ep_init self st v
  Step-IsValid {self = self} (Step.removed eid) v = removed-IsValid eid self v

  -- Whatever events a socket gets, whatever endpoints are removed, and whatever endpoints are added to it
  -- while it is active, as long as before each of these its lists of endpoints are in order, a valid one stays
  -- valid: endpoints are only in the list `eps` of an active socket, none is
  -- left in `sdeps` once the endpoints have stopped, and the semaphore that nn_sock_term waits for has
  -- been posted once in the final state and never before.
  pub Steps-IsValid :
      {self after : Sock S O} → Steps vfptr self after → IsValid self → IsValid after
  Steps-IsValid Steps.stay v = v
  Steps-IsValid (Steps.step i s rest) v = Steps-IsValid rest (Step-IsValid s v)
