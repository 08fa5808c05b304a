-- ===== src/Sock/Setup.antt =====
-- nn_sock_init, nn_sock_term and nn_sock_ispeer of src/core/sock.c.
pub mod Fresh
mod Tests
use nanomsg_copy.Prelude.{
  ℕ, zero, suc, ◌+◌, ◌-◌, ◌*◌, ◌/◌, ◌%◌, ◌^◌, ◌==◌, Bool, true, false, ◌&&◌, not, Option, none,
  some, List, [], ◌∷◌, ◌++◌, replicate, Rc, success, failure, Errno, Outcome, returned, ◌>>=◌, ◌>>◌,
  assert, if◌then◌else◌,
}
use nanomsg_copy.Prelude.Int.{ℤ, pos, negsuc}
use nanomsg_copy.Sock.{Sock, State, Protocol, Socktype, Settings, Counters}
use nanomsg_copy.Sock.Options.{default_settings}
use nanomsg_copy.Sock.Events.{onleave}

abbrev no_counts : Counters
no_counts = record {
  established_connections = 0;
  accepted_connections = 0;
  dropped_connections = 0;
  broken_connections = 0;
  connect_errors = 0;
  bind_errors = 0;
  accept_errors = 0;
  messages_sent = 0;
  messages_received = 0;
  bytes_sent = 0;
  bytes_received = 0;
  current_connections = pos 0;
  inprogress_connections = pos 0;
  current_snd_priority = pos 0;
  current_ep_errors = pos 0;
}

-- nn_efd_init for a direction that the socket type has.
pub init_efd : Bool → Rc → Rc
init_efd lacking rc = if lacking then success else rc

module _ {S O : Type 0} where
  -- The fields before the state machine is started. `name` is what sprintf writes, 64 chars with those
  -- behind the NUL, and `base` what the socket type's create function makes.
  pub blank : Socktype → List ℕ → S → Sock S O
  blank socktype name base = record {
    state = State.init;
    sockbase = base;
    socktype = socktype;
    flag_in = false;
    flag_out = false;
    sndfd = false;
    rcvfd = false;
    termsem = 0;
    relesem = 0;
    eps = [];
    sdeps = [];
    lists_intact = true;
    eid = 1;
    holds = pos 1;
    settings = default_settings;
    optsets = replicate 4 none;
    statistics = no_counts;
    socket_name = name;
  }

module _ {S O Msg : Type 0} (vfptr : Protocol S Msg) where
  -- `sndfd_init` and `rcvfd_init` are the results of nn_efd_init, `create` what the create function
  -- returns, and `fsm_start` is nn_fsm_start on the socket, with the events that it makes the context process;
  -- nn_ctx_leave ends with nn_sock_onleave. The result of nn_sem_init is not looked at:
  -- the test behind it is of the `rc` of the descriptors, which is not negative there.
  pub init :
      Rc
      → Rc
      → Rc × S
      → (Sock S O → Outcome (Sock S O))
      → Socktype
      → List ℕ
      → Outcome (Rc × Option (Sock S O))
  init sndfd_init rcvfd_init create fsm_start socktype name =
      assert (not (socktype.no_send && socktype.no_recv))
      >> (elim (init_efd socktype.no_send sndfd_init) [
        | failure e ↦ returned (failure e, none)
        | success ↦ elim (init_efd socktype.no_recv rcvfd_init) [
          | failure e ↦ returned (failure e, none)
          | success ↦ elim create.0 [
            | failure e ↦ Outcome.abort
            | success ↦ fsm_start (blank socktype name create.1) >>= λ started.
                onleave vfptr started >>= λ self. returned (success, some self)
          ]
        ]
      ])

-- One of the two loops of nn_sock_term on nn_sem_wait, with the results of the calls in order; what is
-- left of these is for the next calls.
pub wait_sem : List Rc → Outcome (List Rc)
wait_sem [] = Outcome.out_of_fuel
wait_sem (success ∷ rest) = returned rest
wait_sem (failure Errno.eintr ∷ rest) = wait_sem rest
wait_sem (failure e ∷ rest) = Outcome.abort

module _ {O : Type 0} where
  -- The option sets that are there.
  pub destroyed : List (Option O) → List O
  destroyed [] = []
  destroyed (none ∷ optsets) = destroyed optsets
  destroyed (some o ∷ optsets) = o ∷ destroyed optsets

module _ {S O : Type 0} where
  -- nn_sock_term: the option sets that it destroys. The event loop's nn_fsm_stopped_noevent,
  -- nn_fsm_term and nn_ctx_term, and the nn_efd_term and nn_sem_term of its descriptors and
  -- semaphores, change no field that is modelled, and nn_ctx_leave finds no active socket, since termsem is
  -- posted in the final state only; nn_list_term asserts that the lists are empty.
  pub term : List Rc → List Rc → Sock S O → Outcome (List O)
  term termsem_waits relesem_waits self = wait_sem termsem_waits >>= λ r.
      wait_sem relesem_waits >>= λ q.
      assert (no_eps self.sdeps) >> assert (no_eps self.eps) >> returned (destroyed self.optsets)
    where
      no_eps : List ℕ → Bool
      no_eps [] = true
      no_eps (e ∷ es) = false

-- `v & 0xfff0` of a C int.
pub protocol_part : ℤ → ℕ
protocol_part (pos n) = n / 16 % 2 ^ 12 * 16
protocol_part (negsuc n) = (2 ^ 32 - 1 - n % 2 ^ 32) / 16 % 2 ^ 12 * 16

module _ {S O : Type 0} where
  -- nn_sock_ispeer
  pub is_peer : (ℤ → Bool) → ℤ → Sock S O → Bool
  is_peer type_ispeer socktype self =
      if protocol_part self.socktype.protocol == protocol_part socktype
      then type_ispeer socktype
      else false
