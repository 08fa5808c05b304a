-- ===== src/Pipe/Options.antt =====
-- nn_pipebase_getopt of src/core/pipe.c: the options that a transport reads of its pipe. The lock is the
-- caller's.
use nanomsg_copy.Prelude.{
  ℕ, zero, suc, ◌≡◌, refl, Option, none, some, List, Rc, success, failure, Outcome, returned, arith,
  Errno,
}
use Prim.Native.Nat.{min}
use nanomsg_copy.Prelude.Int.{ℤ, pos, negsuc}
use nanomsg_copy.Sock.{Sock, Protocol, OptsetTable}
use nanomsg_copy.Sock.Abi.{Abi, memcpy}
use nanomsg_copy.Sock.Options as Options
use nanomsg_copy.Sock.Options.{SocketOption, socket_option}

-- nn_ep_options, which a pipe copies from its endpoint.
pub record EpOptions : Type 0 where
  pub sndprio : ℤ
  pub rcvprio : ℤ
  pub ipv4only : ℤ

-- The options that the pipe answers itself.
abbrev own : SocketOption → EpOptions → Option ℤ
own SocketOption.sndprio options = some options.sndprio
own SocketOption.rcvprio options = some options.rcvprio
own SocketOption.ipv4only options = some options.ipv4only
own _ options = none

-- errnum_assert of the result of nn_sock_getopt_inner.
abbrev checked : {S O : Type 0} → (Rc × List ℕ × ℕ) × Sock S O → Outcome ((List ℕ × ℕ) × Sock S O)
checked ((rc, out, len), sock) = elim rc [
  | success ↦ returned ((out, len), sock)
  | failure e ↦ Outcome.abort
]

module _ {S O Msg : Type 0} (abi : Abi) (vfptr : Protocol S Msg) (table : OptsetTable O)
    (transport : ℤ → Option O) (sndfd_of rcvfd_of : ℤ) where
  open abi use {sizeof_int, bytes_of}

  of_sock : ℤ → ℤ → List ℕ → ℕ → Sock S O → Outcome ((List ℕ × ℕ) × Sock S O)
  of_sock level option optval optvallen sock = checked (
      Options.getopt abi vfptr table transport sndfd_of rcvfd_of level option optval optvallen sock)

  pub getopt : ℤ → ℤ → List ℕ → ℕ → EpOptions → Sock S O → Outcome ((List ℕ × ℕ) × Sock S O)
  getopt (pos zero) option optval optvallen options sock =
      elim (own (socket_option option) options) [
        | some val ↦
            returned ((memcpy optval (bytes_of val) (min optvallen sizeof_int), sizeof_int), sock)
        | none ↦ of_sock (pos zero) option optval optvallen sock
      ]
  getopt level option optval optvallen options sock = of_sock level option optval optvallen sock

  -- A pipe answers its own priorities and IP versions, whatever the socket's are, and anything else as
  -- its socket does.
  pub getopt-own :
      (option v : ℤ) (optval : List ℕ) (n : ℕ) (options : EpOptions) (sock : Sock S O)
      → own (socket_option option) options ≡ some v
      → getopt (pos 0) option optval n options sock
        ≡ returned ((memcpy optval (bytes_of v) (min n sizeof_int), sizeof_int), sock)
  unfolding getopt
  getopt-own option v optval n options sock e = ground (arith, e)

  -- An option that the socket refuses aborts.
  pub getopt-refused :
      (level option : ℤ) (e : Errno) (optval out : List ℕ) (n m : ℕ) (options : EpOptions)
      (sock sock' : Sock S O)
      → own (socket_option option) options ≡ none
      → Options.getopt abi vfptr table transport sndfd_of rcvfd_of level option optval n sock
        ≡ ((failure e, out, m), sock')
      → getopt level option optval n options sock ≡ Outcome.abort
  unfolding getopt of_sock
  getopt-refused (pos zero) option e optval out n m options sock sock' h k = ground (arith, h, k)
  getopt-refused (pos (suc l)) option e optval out n m options sock sock' h k = rw k refl
  getopt-refused (negsuc l) option e optval out n m options sock sock' h k = rw k refl
