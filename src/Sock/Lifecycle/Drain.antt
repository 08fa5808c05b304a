-- ===== src/Sock/Lifecycle/Drain.antt =====
-- The end of a socket: nn_sock_shutdown of src/core/sock.c takes NN_FSM_STOP and then the event that
-- each endpoint raises when it has stopped, in any order.
use nanomsg_copy.Prelude.{
  ℕ, suc, ◌≡◌, true, none, some, List, [], ◌∷◌, ◌++◌, has, erase, Outcome, returned, ◌>>=◌,
}
use nanomsg_copy.Sock.{Sock, State, Protocol}
use nanomsg_copy.Sock.Lifecycle.{Source, Kind, Call, shutdown}

-- The endpoints of a list, each once, in some order.
abbrev pub Clears : List ℕ → List ℕ → Type 0
Clears [] l = l ≡ []
Clears (z ∷ zs) l = (has z l ≡ true) × Clears zs (erase z l)

abbrev pub term_calls : List ℕ → List Call
term_calls [] = []
term_calls (e ∷ es) = Call.ep_term e ∷ term_calls es

module _ {S O Msg : Type 0} (vfptr : Protocol S Msg) where
  -- NN_EP_STOPPED of one endpoint after the other.
  pub drain : List ℕ → List Call × Sock S O → Outcome (List Call × Sock S O)
  drain [] r = returned r
  drain (z ∷ zs) r = shutdown vfptr Source.ep Kind.stopped z r.1 >>= λ q. drain zs (r.0 ++ q.0, q.1)

  -- A socket that waits for these endpoints.
  abbrev waiting : List ℕ → Sock S O → Sock S O
  waiting l self = record self { state = State.stopping_eps; eps = []; sdeps = l }

  -- A socket whose endpoints have stopped.
  closed : Sock S O → Sock S O
  closed self = elim vfptr.stop [
    | none ↦ record self {
      state = State.fini;
      eps = [];
      sdeps = [];
      sockbase = vfptr.destroy self.sockbase;
      termsem = suc self.termsem;
    }
    | some f ↦ record self {
      state = State.stopping;
      eps = [];
      sdeps = [];
      sockbase = f self.sockbase;
    }
  ]

  -- NN_FSM_STOP and then the end of every endpoint.
  pub stop_and_drain : List ℕ → Sock S O → Outcome (List Call × Sock S O)
  stop_and_drain zs self = shutdown vfptr Source.action Kind.stop 0 self >>= drain zs
