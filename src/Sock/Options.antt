-- ===== src/Sock/Options.antt =====
-- nn_sock_setopt, nn_sock_getopt and nn_sock_optset of src/core/sock.c. The functions that take the
-- lock around the inner ones add nothing to a single call.
pub mod Valid
pub mod RoundTrip
mod Tests
use nanomsg_copy.Prelude.{
  ℕ, zero, suc, ◌+◌, ◌-◌, ◌*◌, ◌<◌, Bool, true, false, ◌&&◌, ◌||◌, Option, none, some, List, [],
  ◌∷◌, ltb, leb, ◌==◌, if◌then◌else◌, get_elem?, set, length, Rc, success, failure, Errno, Outcome,
  returned, ◌>>=◌,
}
use Prim.Native.Nat.{min}
use nanomsg_copy.Prelude.Int.{ℤ, pos, negsuc, ltb_ℤ}
use nanomsg_copy.Sock.{Settings, Sock, Protocol, OptsetTable}
use nanomsg_copy.Sock.Abi.{Abi, memcpy, c_string, strncpy}

-- The NN_* option numbers of src/nn.h at level NN_SOL_SOCKET.
pub data SocketOption : Type 0 where
  linger sndbuf rcvbuf sndtimeo rcvtimeo reconnect_ivl reconnect_ivl_max : SocketOption
  sndprio rcvprio sndfd rcvfd domain protocol ipv4only socket_name rcvmaxsize maxttl : SocketOption
  other : SocketOption

numbered : ℕ → SocketOption
numbered n =
    if n == 1
    then linger
    else if n == 2
    then sndbuf
    else if n == 3
    then rcvbuf
    else if n == 4
    then sndtimeo
    else if n == 5
    then rcvtimeo
    else if n == 6
    then reconnect_ivl
    else if n == 7
    then reconnect_ivl_max
    else if n == 8
    then sndprio
    else if n == 9
    then rcvprio
    else if n == 10
    then sndfd
    else if n == 11
    then rcvfd
    else if n == 12
    then domain
    else if n == 13
    then protocol
    else if n == 14
    then ipv4only
    else if n == 15
    then socket_name
    else if n == 16
    then rcvmaxsize
    else if n == 17
    then maxttl
    else other

pub socket_option : ℤ → SocketOption
unfolding numbered
socket_option (pos n) = numbered n
socket_option (negsuc n) = other

-- What nn_sock_init stores.
pub default_settings : Settings
default_settings = record {
  sndbuf = pos (128 * 1024);
  rcvbuf = pos (128 * 1024);
  rcvmaxsize = pos (1024 * 1024);
  sndtimeo = negsuc 0;
  rcvtimeo = negsuc 0;
  reconnect_ivl = pos 100;
  reconnect_ivl_max = pos 0;
  maxttl = pos 8;
  sndprio = pos 8;
  rcvprio = pos 8;
  ipv4only = pos 1;
}

abbrev refused : Settings → Rc × Settings
refused s = (failure Errno.einval, s)

-- `val <= 0`, `val < 0` and a range, each with -EINVAL.
abbrev is_positive : ℤ → Bool
is_positive v = ltb_ℤ (pos 0) v

abbrev is_natural : ℤ → Bool
is_natural (pos n) = true
is_natural (negsuc n) = false

abbrev is_between : ℕ → ℕ → ℤ → Bool
is_between lo hi (pos n) = leb lo n && leb n hi
is_between lo hi (negsuc n) = false

-- The `switch` of nn_sock_setopt_inner.
pub set_int : SocketOption → ℤ → Settings → Rc × Settings
set_int sndbuf val s = if is_positive val then (success, record s { sndbuf = val }) else refused s
set_int rcvbuf val s = if is_positive val then (success, record s { rcvbuf = val }) else refused s
set_int rcvmaxsize val s =
    if is_positive val then (success, record s { rcvmaxsize = val }) else refused s
set_int sndtimeo val s = (success, record s { sndtimeo = val })
set_int rcvtimeo val s = (success, record s { rcvtimeo = val })
set_int reconnect_ivl val s =
    if is_natural val then (success, record s { reconnect_ivl = val }) else refused s
set_int reconnect_ivl_max val s =
    if is_natural val then (success, record s { reconnect_ivl_max = val }) else refused s
set_int sndprio val s =
    if is_between 1 16 val then (success, record s { sndprio = val }) else refused s
set_int rcvprio val s =
    if is_between 1 16 val then (success, record s { rcvprio = val }) else refused s
set_int ipv4only val s =
    if is_between 0 1 val then (success, record s { ipv4only = val }) else refused s
set_int maxttl val s =
    if is_between 1 255 val then (success, record s { maxttl = val }) else refused s
set_int linger val s = (success, s)
set_int _ val s = (failure Errno.enoprotoopt, s)

-- NN_MAX_TRANSPORT
abbrev max_transport : ℕ
max_transport = 4

abbrev entry : {O : Type 0} → Option (Option O) → Option O
entry none = none
entry (some o) = o

module _ {S O : Type 0} where
  -- nn_sock_optset. `transport` is what nn_global_transport gives, as the optset function of the
  -- transport: `none` for no transport, or for one without option sets.
  pub optset : (ℤ → Option O) → ℤ → Sock S O → Option O × Sock S O
  optset transport (pos n) self = (none, self)
  optset transport (negsuc index) self =
      if ltb index max_transport
      then elim (entry (get_elem? self.optsets index)) [
        | some o ↦ (some o, self)
        | none ↦ elim (transport (negsuc index)) [
          | none ↦ (none, self)
          | some o ↦ (some o, record self { optsets = set self.optsets index (some o) })
        ]
      ]
      else (none, self)

  store_optset : ℤ → O → Sock S O → Sock S O
  store_optset (pos n) o self = self
  store_optset (negsuc index) o self = record self { optsets = set self.optsets index (some o) }

module _ {S O Msg : Type 0} (abi : Abi) (vfptr : Protocol S Msg) (table : OptsetTable O)
    (transport : ℤ → Option O) (sndfd_of rcvfd_of : ℤ) where
  open abi use {sizeof_int, int_of, bytes_of}

  -- The name is cut off by a NUL behind it.
  set_name : List ℕ → ℕ → Sock S O → Rc × Sock S O
  set_name optval optvallen self = if ltb 63 optvallen then (failure Errno.einval, self) else (
    success,
    record self { socket_name = set (memcpy self.socket_name optval optvallen) optvallen 0 },
  )

  set_setting : SocketOption → List ℕ → ℕ → Sock S O → Rc × Sock S O
  set_setting option optval optvallen self =
      let (rc, settings) = set_int option (int_of optval) self.settings in
      if optvallen == sizeof_int
      then (rc, record self { settings = settings })
      else (failure Errno.einval, self)

  -- The part of nn_sock_setopt_inner for level NN_SOL_SOCKET.
  pub set_socket : SocketOption → List ℕ → ℕ → Sock S O → Rc × Sock S O
  unfolding set_name set_setting
  set_socket socket_name optval optvallen self = set_name optval optvallen self
  set_socket option optval optvallen self = set_setting option optval optvallen self

  pub setopt : ℤ → ℤ → List ℕ → ℕ → Sock S O → Rc × Sock S O
  unfolding store_optset optset
  setopt (pos zero) option optval optvallen self =
      set_socket (socket_option option) optval optvallen self
  setopt (pos (suc n)) option optval optvallen self = elim vfptr.setopt [
    | none ↦ (failure Errno.enoprotoopt, self)
    | some f ↦
        let (rc, base) = f (pos (suc n)) option optval optvallen self.sockbase in
        (rc, record self { sockbase = base })
  ]
  setopt (negsuc n) option optval optvallen self =
      let (found, self') = optset transport (negsuc n) self in
      elim found [
        | none ↦ (failure Errno.enoprotoopt, self')
        | some o ↦
            let (rc, o') = table.setopt option optval optvallen o in
            (rc, store_optset (negsuc n) o' self')
      ]

  -- The `switch` of nn_sock_getopt_inner, for the options that are an int.
  pub get_int : SocketOption → Sock S O → Option ℤ
  get_int domain self = some self.socktype.domain
  get_int protocol self = some self.socktype.protocol
  get_int linger self = some (pos 0)
  get_int sndbuf self = some self.settings.sndbuf
  get_int rcvbuf self = some self.settings.rcvbuf
  get_int rcvmaxsize self = some self.settings.rcvmaxsize
  get_int sndtimeo self = some self.settings.sndtimeo
  get_int rcvtimeo self = some self.settings.rcvtimeo
  get_int reconnect_ivl self = some self.settings.reconnect_ivl
  get_int reconnect_ivl_max self = some self.settings.reconnect_ivl_max
  get_int sndprio self = some self.settings.sndprio
  get_int rcvprio self = some self.settings.rcvprio
  get_int ipv4only self = some self.settings.ipv4only
  get_int maxttl self = some self.settings.maxttl
  get_int _ self = none

  -- What a call of getopt leaves in `*optval` and `*optvallen`.
  copy_int : ℤ → List ℕ → ℕ → Rc × List ℕ × ℕ
  copy_int val optval optvallen =
      (success, memcpy optval (bytes_of val) (min optvallen sizeof_int), sizeof_int)

  -- The part of nn_sock_getopt_inner for level NN_SOL_SOCKET.
  pub get_socket : SocketOption → List ℕ → ℕ → Sock S O → Rc × List ℕ × ℕ
  unfolding get_int copy_int
  get_socket sndfd optval optvallen self =
      if self.socktype.no_send
      then (failure Errno.enoprotoopt, optval, optvallen)
      else copy_int sndfd_of optval optvallen
  get_socket rcvfd optval optvallen self =
      if self.socktype.no_recv
      then (failure Errno.enoprotoopt, optval, optvallen)
      else copy_int rcvfd_of optval optvallen
  get_socket socket_name optval optvallen self =
      (success, strncpy optval self.socket_name optvallen, length (c_string self.socket_name))
  get_socket option optval optvallen self = elim (get_int option self) [
    | none ↦ (failure Errno.enoprotoopt, optval, optvallen)
    | some val ↦ copy_int val optval optvallen
  ]

  pub getopt : ℤ → ℤ → List ℕ → ℕ → Sock S O → (Rc × List ℕ × ℕ) × Sock S O
  unfolding optset
  getopt (pos zero) option optval optvallen self =
      (get_socket (socket_option option) optval optvallen self, self)
  getopt (pos (suc n)) option optval optvallen self = elim vfptr.getopt [
    | none ↦ ((failure Errno.enoprotoopt, optval, optvallen), self)
    | some f ↦ (f (pos (suc n)) option optval optvallen self.sockbase, self)
  ]
  getopt (negsuc n) option optval optvallen self =
      let (found, self') = optset transport (negsuc n) self in
      elim found [
        | none ↦ ((failure Errno.enoprotoopt, optval, optvallen), self')
        | some o ↦ (table.getopt option optval optvallen o, self')
      ]
