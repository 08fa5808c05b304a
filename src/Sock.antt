-- ===== src/Sock.antt =====
-- src/core/sock.c and sock.h: the socket object. Its fields are those of struct nn_sock that the
-- modelled functions use. The protocol behind the socket is the table of functions of
-- src/protocol.h (nn_sockbase_vfptr), which each protocol fills in; `S` is that protocol's state,
-- `O` a transport's option set. Event descriptors and semaphores are what they signal.
pub mod Abi
pub mod Options
pub mod Statistics
pub mod Hold
pub mod Events
pub mod Lifecycle
pub mod Setup
pub mod Transfer
pub mod Samples
use nanomsg_copy.Prelude.{ℕ, Bool, Option, List, Rc}
use nanomsg_copy.Prelude.Int.{ℤ}

-- NN_SOCK_STATE_*
pub data State : Type 0 where
  init active stopping_eps stopping fini : State

-- struct nn_socktype; NN_SOCKTYPE_FLAG_NORECV and NN_SOCKTYPE_FLAG_NOSEND are its flags.
pub record Socktype : Type 0 where
  pub domain : ℤ
  pub protocol : ℤ
  pub no_recv : Bool
  pub no_send : Bool

-- The integer options, those of ep_template among them.
pub record Settings : Type 0 where
  pub sndbuf : ℤ
  pub rcvbuf : ℤ
  pub rcvmaxsize : ℤ
  pub sndtimeo : ℤ
  pub rcvtimeo : ℤ
  pub reconnect_ivl : ℤ
  pub reconnect_ivl_max : ℤ
  pub maxttl : ℤ
  pub sndprio : ℤ
  pub rcvprio : ℤ
  pub ipv4only : ℤ

-- The counters are uint64_t, the last four int.
pub record Counters : Type 0 where
  pub established_connections : ℕ
  pub accepted_connections : ℕ
  pub dropped_connections : ℕ
  pub broken_connections : ℕ
  pub connect_errors : ℕ
  pub bind_errors : ℕ
  pub accept_errors : ℕ
  pub messages_sent : ℕ
  pub messages_received : ℕ
  pub bytes_sent : ℕ
  pub bytes_received : ℕ
  pub current_connections : ℤ
  pub inprogress_connections : ℤ
  pub current_snd_priority : ℤ
  pub current_ep_errors : ℤ

pub record Sock (S O : Type 0) : Type 0 where
  pub state : State
  pub sockbase : S
  pub socktype : Socktype
  pub flag_in : Bool  -- NN_SOCK_FLAG_IN
  pub flag_out : Bool  -- NN_SOCK_FLAG_OUT
  pub sndfd : Bool  -- signalled
  pub rcvfd : Bool
  pub termsem : ℕ  -- posts
  pub relesem : ℕ
  pub eps : List ℕ  -- endpoint ids
  pub sdeps : List ℕ
  pub lists_intact : Bool  -- false once an item that left a list is still pointed at by the other list
  pub eid : ℕ
  pub holds : ℤ
  pub settings : Settings
  pub optsets : List (Option O)
  pub statistics : Counters
  pub socket_name : List ℕ  -- 64 chars

-- The int that send or recv of a protocol returns.
pub data Reply : Type 0 where
  code : Rc → Reply
  positive : Reply

-- struct nn_sockbase_vfptr. A message is `Msg`, a pipe its number. `none` is a NULL entry; for
-- `events` it is a negative result, else the two flags NN_SOCKBASE_EVENT_IN and _OUT.
pub record Protocol (S Msg : Type 0) : Type 0 where
  pub stop : Option (S → S)
  pub destroy : S → S
  pub add : ℕ → S → ℤ × S
  pub rm : ℕ → S → S
  pub on_in : ℕ → S → S
  pub on_out : ℕ → S → S
  pub events : S → Option (Bool × Bool)
  pub send : Msg → S → Reply × S
  pub recv : S → Reply × Option Msg × S
  pub setopt : Option (ℤ → ℤ → List ℕ → ℕ → S → Rc × S)
  pub getopt : Option (ℤ → ℤ → List ℕ → ℕ → S → Rc × List ℕ × ℕ)

-- struct nn_optset_vfptr
pub record OptsetTable (O : Type 0) : Type 0 where
  pub setopt : ℤ → List ℕ → ℕ → O → Rc × O
  pub getopt : ℤ → List ℕ → ℕ → O → Rc × List ℕ × ℕ
