-- ===== src/Sock/Options/Valid.antt =====
-- The ranges that nn_sock_setopt keeps.
use mathlib.Core.Path.{subst, sym}
use nanomsg_copy.Prelude.{
  ℕ, zero, suc, ◌≡◌, Option, List, failure, Errno, ltb, ◌==◌, Bool-cases, inl, inr, Option-cases,
  arith,
}
use nanomsg_copy.Prelude.Int.{ℤ, pos, negsuc, ◌≤ℤ◌}
use nanomsg_copy.Sock.{Settings, Sock, Protocol, OptsetTable}
use nanomsg_copy.Sock.Abi.{Abi}
use nanomsg_copy.Sock.Options.{
  SocketOption, set_int, set_socket, setopt, socket_option, default_settings,
}

pub record IsValid (s : Settings) : Type 0 where
  pub sndbuf : pos 1 ≤ℤ s.sndbuf
  pub rcvbuf : pos 1 ≤ℤ s.rcvbuf
  pub rcvmaxsize : pos 1 ≤ℤ s.rcvmaxsize
  pub reconnect_ivl : pos 0 ≤ℤ s.reconnect_ivl
  pub reconnect_ivl_max : pos 0 ≤ℤ s.reconnect_ivl_max
  pub maxttl_min : pos 1 ≤ℤ s.maxttl
  pub maxttl_max : s.maxttl ≤ℤ pos 255
  pub sndprio_min : pos 1 ≤ℤ s.sndprio
  pub sndprio_max : s.sndprio ≤ℤ pos 16
  pub rcvprio_min : pos 1 ≤ℤ s.rcvprio
  pub rcvprio_max : s.rcvprio ≤ℤ pos 16
  pub ipv4only_min : pos 0 ≤ℤ s.ipv4only
  pub ipv4only_max : s.ipv4only ≤ℤ pos 1

set_int-IsValid : (o : SocketOption) (v : ℤ) (s : Settings) → IsValid s → IsValid (set_int o v s).1
unfolding set_int
set_int-IsValid SocketOption.sndbuf v s h = ground arith
set_int-IsValid _ v s h = ground arith

set_int_failure :
    (o : SocketOption) (v : ℤ) (s : Settings) (e : Errno)
    → (set_int o v s).0 ≡ failure e
    → (set_int o v s).1 ≡ s
unfolding set_int
set_int_failure SocketOption.sndbuf v s e h = ground arith
set_int_failure _ v s e h = ground arith

-- The settings that nn_sock_init starts with are in range.
pub default_settings-IsValid : IsValid default_settings
unfolding default_settings
default_settings-IsValid = omega arith

module _ {S O Msg : Type 0} (abi : Abi) (vfptr : Protocol S Msg) (table : OptsetTable O)
    (transport : ℤ → Option O) (sndfd_of rcvfd_of : ℤ) where
  set_socket-IsValid :
      (o : SocketOption) (optval : List ℕ) (n : ℕ) (self : Sock S O)
      → IsValid self.settings
      → IsValid (set_socket abi vfptr table transport sndfd_of rcvfd_of o optval n self).1.settings
  unfolding set_socket
  set_socket-IsValid SocketOption.socket_name optval n self h = elim (Bool-cases (ltb 63 n)) [
    | inl long ↦ rw long h
    | inr short ↦ rw short h
  ]
  set_socket-IsValid o optval n self h = elim (Bool-cases (n == abi.sizeof_int)) [
    | inl fits ↦ rw fits (set_int-IsValid o (abi.int_of optval) self.settings h)
    | inr other ↦ rw other h
  ]

  other_settings :
      (l : ℕ) (option : ℤ) (optval : List ℕ) (n : ℕ) (self : Sock S O)
      → (setopt abi vfptr table transport sndfd_of rcvfd_of
          (negsuc l)
          option
          optval
          n
          self).1.settings
        ≡ self.settings
  unfolding setopt
  other_settings l option optval n self = ground arith

  -- Whatever the level, the option and the value, nn_sock_setopt keeps the settings in their ranges:
  -- buffer sizes and rcvmaxsize positive, reconnect intervals not negative, maxttl from 1 to 255,
  -- priorities from 1 to 16 and ipv4only 0 or 1.
  pub setopt-IsValid :
      (level option : ℤ) (optval : List ℕ) (n : ℕ) (self : Sock S O)
      → IsValid self.settings
      → IsValid
          (setopt abi vfptr table transport sndfd_of rcvfd_of level option optval n self).1.settings
  unfolding setopt
  setopt-IsValid (pos zero) option optval n self h =
      set_socket-IsValid (socket_option option) optval n self h
  setopt-IsValid (pos (suc l)) option optval n self h = elim (Option-cases vfptr.setopt) [
    | inl null ↦ rw null h
    | inr (f, e) ↦ rw e h
  ]
  setopt-IsValid (negsuc l) option optval n self h =
      subst IsValid (sym (other_settings l option optval n self)) h

  set_socket_failure :
      (o : SocketOption) (optval : List ℕ) (n : ℕ) (self : Sock S O) (e : Errno)
      → (set_socket abi vfptr table transport sndfd_of rcvfd_of o optval n self).0 ≡ failure e
      → (set_socket abi vfptr table transport sndfd_of rcvfd_of o optval n self).1 ≡ self
  unfolding set_socket
  set_socket_failure SocketOption.socket_name optval n self e h = ground arith
  set_socket_failure o optval n self e h =
      ground (arith, set_int_failure o (abi.int_of optval) self.settings e)

  -- At level NN_SOL_SOCKET a call of nn_sock_setopt that fails changes nothing of the socket.
  pub setopt_failure :
      (option : ℤ) (optval : List ℕ) (n : ℕ) (self : Sock S O) (e : Errno)
      → (setopt abi vfptr table transport sndfd_of rcvfd_of (pos 0) option optval n self).0
        ≡ failure e
      → (setopt abi vfptr table transport sndfd_of rcvfd_of (pos 0) option optval n self).1 ≡ self
  unfolding setopt
  setopt_failure option optval n self e h =
      set_socket_failure (socket_option option) optval n self e h
