-- ===== src/Sock/Samples.antt =====
-- A socket and a memory layout for the tests of the socket's parts.
use nanomsg_copy.Prelude.{
  ◌*◌, true, ℕ, zero, suc, ◌≡◌, refl, false, Option, none, some, List, [], ◌∷◌, ◌++◌, length,
  replicate, success, failure, Errno,
}
use nanomsg_copy.Prelude.Int.{ℤ, pos, negsuc}
use nanomsg_copy.Sock.{Settings, Sock, Protocol, Reply, OptsetTable, State, Counters}
use nanomsg_copy.Sock.Abi.{Abi}

-- An int in two cells: the sign, and the number.
abbrev pub cell_int : List ℕ → ℤ
cell_int [] = pos 0
cell_int (s ∷ []) = pos 0
cell_int (zero ∷ n ∷ rest) = pos n
cell_int (suc s ∷ n ∷ rest) = negsuc n

abbrev pub int_cells : ℤ → List ℕ
int_cells (pos n) = 0 ∷ n ∷ []
int_cells (negsuc n) = 1 ∷ n ∷ []

pub length-int_cells : (v : ℤ) → length (int_cells v) ≡ 2
length-int_cells (pos n) = refl
length-int_cells (negsuc n) = refl

pub cell_int-int_cells : (v : ℤ) (rest : List ℕ) → cell_int (int_cells v ++ rest) ≡ v
cell_int-int_cells (pos n) rest = refl
cell_int-int_cells (negsuc n) rest = refl

abbrev pub two_cells : Abi
two_cells = record {
  sizeof_int = 2;
  int_of = cell_int;
  bytes_of = int_cells;
  length-bytes_of = length-int_cells;
  int_of-bytes_of = cell_int-int_cells;
}

-- A protocol that keeps one message, and refuses to send while it has one.
abbrev pub no_protocol : Protocol (Option ℕ) ℕ
no_protocol = record {
  stop = none;
  destroy = λ s. none;
  add = λ p s. (pos 0, s);
  rm = λ p s. s;
  on_in = λ p s. s;
  on_out = λ p s. s;
  events = λ s. elim s [ none ↦ some (false, true) | some m ↦ some (true, false) ];
  send = λ m s. elim s [
    | none ↦ (Reply.code success, some m)
    | some old ↦ (Reply.code (failure Errno.eagain), some old)
  ];
  recv = λ s. elim s [
    | none ↦ (Reply.code (failure Errno.eagain), none, none)
    | some m ↦ (Reply.code success, some m, none)
  ];
  setopt = none;
  getopt = none;
}

abbrev pub no_optsets : OptsetTable ℕ
no_optsets = record {
  setopt = λ option val n o. (success, n);
  getopt = λ option val n o. (success, val, o);
}

abbrev pub no_transport : ℤ → Option ℕ
no_transport id = none

abbrev pub fresh_counters : Counters
fresh_counters = record {
  established_connections = 0;
  accepted_connections = 0;
  dropped_connections = 0;
  broken_connections = 0;
  connect_errors = 0;
  bind_errors = 0;
  accept_errors = 0;
  messages_sent = 0;
  messages_received = 0;
  bytes_sent = 0;
  bytes_received = 0;
  current_connections = pos 0;
  inprogress_connections = pos 0;
  current_snd_priority = pos 0;
  current_ep_errors = pos 0;
}

abbrev pub fresh_settings : Settings
fresh_settings = record {
  sndbuf = pos (128 * 1024);
  rcvbuf = pos (128 * 1024);
  rcvmaxsize = pos (1024 * 1024);
  sndtimeo = negsuc 0;
  rcvtimeo = negsuc 0;
  reconnect_ivl = pos 100;
  reconnect_ivl_max = pos 0;
  maxttl = pos 8;
  sndprio = pos 8;
  rcvprio = pos 8;
  ipv4only = pos 1;
}

abbrev pub fresh_sock : Sock (Option ℕ) ℕ
fresh_sock = record {
  state = State.active;
  sockbase = none;
  socktype = record { domain = pos 1; protocol = pos 16; no_recv = false; no_send = false };
  flag_in = false;
  flag_out = false;
  sndfd = false;
  rcvfd = false;
  termsem = 0;
  relesem = 0;
  eps = [];
  sdeps = [];
  lists_intact = true;
  eid = 1;
  holds = pos 1;
  settings = fresh_settings;
  optsets = none ∷ none ∷ none ∷ none ∷ [];
  statistics = fresh_counters;
  socket_name = replicate 64 0;
}
