-- ===== src/Sock/Setup/Fresh.antt =====
-- A socket from nn_sock_init to nn_sock_term (src/core/sock.c).
use nanomsg_copy.Prelude.{
  ℕ, ◌≡◌, refl, sym, ◌∙◌, Bool, true, false, ◌&&◌, some, List, success, Outcome, returned, ◌>>=◌,
  arith,
}
use nanomsg_copy.Prelude.Int.{pos}
use nanomsg_copy.Sock.{Sock, State, Protocol, Socktype}
use nanomsg_copy.Sock.Options.Valid.{default_settings-IsValid}
use nanomsg_copy.Sock.Options.Valid as Valid
use nanomsg_copy.Sock.Statistics.Levels as Levels
use nanomsg_copy.Sock.Lifecycle.{Source, Kind, handler}
use nanomsg_copy.Sock.Lifecycle.Invariant as Invariant
use nanomsg_copy.Sock.Lifecycle.Endpoints.{IsNumbered}
use nanomsg_copy.Sock.Events.{InStep, onleave, onleave-fields}
use nanomsg_copy.Sock.Setup.{init, blank, init_efd}

-- What the other functions rely on.
pub record IsReady {S O : Type 0} (self : Sock S O) : Type 0 where
  pub active : self.state ≡ State.active
  pub lifecycle : Invariant.IsValid self
  pub numbered : IsNumbered self
  pub lists_intact : self.lists_intact ≡ true
  pub settings : Valid.IsValid self.settings
  pub statistics : Levels.IsValid self.statistics
  pub in_step : InStep self
  pub holds : self.holds ≡ pos 1

init_efd-success : (lacking : Bool) → init_efd lacking success ≡ success
unfolding init_efd
init_efd-success true = refl
init_efd-success false = refl

module _ {S O Msg : Type 0} (vfptr : Protocol S Msg) where
  -- The socket that nn_sock_init starts, from what nn_fsm_start and nn_ctx_leave do to it.
  init_step :
      (base : S) (fsm_start : Sock S O → Outcome (Sock S O)) (socktype : Socktype) (name : List ℕ)
      {started self : Sock S O}
      → (socktype.no_send && socktype.no_recv) ≡ false
      → fsm_start (blank socktype name base) ≡ returned started
      → onleave vfptr started ≡ returned self
      → init vfptr success success (success, base) fsm_start socktype name
        ≡ returned (success, some self)
  unfolding init
  init_step base fsm_start socktype name k e l =
      rw (k, init_efd-success socktype.no_send, init_efd-success socktype.no_recv, e, l) refl

  abbrev started : S → Socktype → List ℕ → Sock S O
  unfolding blank
  started base socktype name = record (blank socktype name base) { state = State.active }

  blank-start :
      (base : S) (fsm_start : Sock S O → Outcome (Sock S O)) (socktype : Socktype) (name : List ℕ)
      → ((s : Sock S O)
          → fsm_start s ≡ (handler vfptr Source.action Kind.start 0 s >>= λ r. returned r.1))
      → fsm_start (blank socktype name base) ≡ returned (started base socktype name)
  unfolding blank
  blank-start base fsm_start socktype name h =
      rw
        (
          h (blank socktype name base),
          Invariant.handler-start vfptr 0 (blank socktype name base) refl,
        )
        refl

  -- When both descriptors can be made and the protocol can be created and reports its events, for a
  -- socket type that can send or receive, and nn_fsm_start gives NN_FSM_START to nn_sock_handler,
  -- nn_sock_init returns 0 and a socket that satisfies all the invariants, with one user. Each direction
  -- that the socket type has is signalled just when the protocol reports the event.
  pub init-IsReady :
      (base : S) (fsm_start : Sock S O → Outcome (Sock S O)) (socktype : Socktype) (name : List ℕ)
      {events : Bool × Bool}
      → ((s : Sock S O)
          → fsm_start s ≡ (handler vfptr Source.action Kind.start 0 s >>= λ r. returned r.1))
      → (socktype.no_send && socktype.no_recv) ≡ false
      → vfptr.events base ≡ some events
      → (self : Sock S O) × (init vfptr success success (success, base) fsm_start socktype name
          ≡ returned (success, some self))
        × IsReady self
        × (socktype.no_recv ≡ false → self.rcvfd ≡ events.0)
        × (socktype.no_send ≡ false → self.sndfd ≡ events.1)
  unfolding blank
  init-IsReady base fsm_start socktype name h k ev =
      let old : Sock S O = started base socktype name in
      let (i, r, o, s, e, hr, hs) = onleave-fields vfptr old refl ev ((λ q. refl), (λ q. refl)) in
      (
        record old { flag_in = i; rcvfd = r; flag_out = o; sndfd = s },
        init_step base fsm_start socktype name k (blank-start base fsm_start socktype name h) e,
        record {
          active = refl;
          lifecycle = refl;
          numbered = record {
            distinct_eps = tt;
            distinct_sdeps = tt;
            apart = λ a e. refl;
            below_eps = tt;
            below_sdeps = tt;
          };
          lists_intact = refl;
          settings = default_settings-IsValid;
          statistics = record {
            current_connections = omega arith;
            inprogress_connections = omega arith;
            current_ep_errors = omega arith;
            current_snd_priority = omega arith;
          };
          in_step = ((λ q. (hr q).0 ∙ sym (hr q).1), (λ q. (hs q).0 ∙ sym (hs q).1));
          holds = refl;
        },
        (λ q. (hr q).1),
        (λ q. (hs q).1),
      )
