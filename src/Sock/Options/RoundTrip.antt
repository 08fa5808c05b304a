-- ===== src/Sock/Options/RoundTrip.antt =====
-- What nn_sock_setopt stores, nn_sock_getopt gives back.
use Prim.Native.Nat.{min}
use nanomsg_copy.Prelude.{
  sym, ℕ, ◌≡◌, ◌≢◌, refl, true, Option, some, List, ◌++◌, success, ◌==◌, Bool-cases, ==_iff, inl,
  inr, arith,
}
use nanomsg_copy.Prelude.Int.{ℤ, pos}
use nanomsg_copy.Sock.{Sock, Protocol, OptsetTable}
use nanomsg_copy.Sock.Abi.{Abi, memcpy}
use nanomsg_copy.Sock.Options.{
  SocketOption, linger, sndbuf, socket_name, set_int, set_socket, set_setting, set_name, setopt,
  getopt, get_int, get_socket, socket_option,
}

-- The options that hold no value of their own.
abbrev pub HoldsValue : SocketOption → Type 0
HoldsValue o = (o ≢ linger) × (o ≢ socket_name)

module _ {S O Msg : Type 0} (abi : Abi) (vfptr : Protocol S Msg) (table : OptsetTable O)
    (transport : ℤ → Option O) (sndfd_of rcvfd_of : ℤ) where
  set_int-get_int :
      (o : SocketOption) (v : ℤ) (self : Sock S O)
      → o ≢ linger
      → (set_int o v self.settings).0 ≡ success
      → get_int abi vfptr table transport sndfd_of rcvfd_of o
          (record self { settings = (set_int o v self.settings).1 })
        ≡ some v
  unfolding set_int get_int
  set_int-get_int sndbuf v self ne h = ground arith
  set_int-get_int _ v self ne h = ground (arith, ne)

  set_int_other :
      (o p : SocketOption) (v : ℤ) (self : Sock S O)
      → o ≢ p
      → get_int abi vfptr table transport sndfd_of rcvfd_of p
          (record self { settings = (set_int o v self.settings).1 })
        ≡ get_int abi vfptr table transport sndfd_of rcvfd_of p self
  unfolding set_int get_int
  set_int_other o p v self ne = ground (arith, ne)

  get_socket_int :
      (o : SocketOption) (v : ℤ) (out : List ℕ) (n : ℕ) (self : Sock S O)
      → o ≢ socket_name
      → get_int abi vfptr table transport sndfd_of rcvfd_of o self ≡ some v
      → get_socket abi vfptr table transport sndfd_of rcvfd_of o out n self
        ≡ (success, memcpy out (abi.bytes_of v) (min n abi.sizeof_int), abi.sizeof_int)
  unfolding get_socket
  get_socket_int SocketOption.sndbuf v out n self ne e = ground arith
  get_socket_int _ v out n self ne e = ground (arith, ne)

  set_setting-get_int :
      (o : SocketOption) (v : ℤ) (rest : List ℕ) (self : Sock S O)
      → o ≢ linger
      → (set_setting abi vfptr table transport sndfd_of rcvfd_of o
          (abi.bytes_of v ++ rest)
          abi.sizeof_int
          self).0
        ≡ success
      → get_int abi vfptr table transport sndfd_of rcvfd_of o
          (set_setting abi vfptr table transport sndfd_of rcvfd_of o
            (abi.bytes_of v ++ rest)
            abi.sizeof_int
            self).1
        ≡ some v
  unfolding set_setting
  set_setting-get_int o v rest self ne h =
      let same : (abi.sizeof_int == abi.sizeof_int) ≡ true =
        (==_iff abi.sizeof_int abi.sizeof_int).1 refl in
      rw (same, abi.int_of-bytes_of v rest)
        (set_int-get_int o v self ne (rw (same, abi.int_of-bytes_of v rest) at h))

  set_socket-get_int :
      (o : SocketOption) (v : ℤ) (rest : List ℕ) (self : Sock S O)
      → HoldsValue o
      → (set_socket abi vfptr table transport sndfd_of rcvfd_of o
          (abi.bytes_of v ++ rest)
          abi.sizeof_int
          self).0
        ≡ success
      → get_int abi vfptr table transport sndfd_of rcvfd_of o
          (set_socket abi vfptr table transport sndfd_of rcvfd_of o
            (abi.bytes_of v ++ rest)
            abi.sizeof_int
            self).1
        ≡ some v
  unfolding set_socket
  set_socket-get_int SocketOption.socket_name v rest self ne h = absurd (ne.1 refl)
  set_socket-get_int o v rest self ne h = set_setting-get_int o v rest self ne.0 h

  -- After a call of nn_sock_setopt that stores an int option of level NN_SOL_SOCKET (any but
  -- NN_LINGER and NN_SOCKET_NAME), nn_sock_getopt of the same option copies that value into the
  -- caller's buffer, as many bytes of it as the buffer has room for, and gives the size of an int.
  pub getopt-setopt :
      (option v : ℤ) (rest out : List ℕ) (n : ℕ) (self : Sock S O)
      → HoldsValue (socket_option option)
      → (setopt abi vfptr table transport sndfd_of rcvfd_of
          (pos 0)
          option
          (abi.bytes_of v ++ rest)
          abi.sizeof_int
          self).0
        ≡ success
      → (getopt abi vfptr table transport sndfd_of rcvfd_of
          (pos 0)
          option
          out
          n
          (setopt abi vfptr table transport sndfd_of rcvfd_of
            (pos 0)
            option
            (abi.bytes_of v ++ rest)
            abi.sizeof_int
            self).1).0
        ≡ (success, memcpy out (abi.bytes_of v) (min n abi.sizeof_int), abi.sizeof_int)
  unfolding setopt getopt
  getopt-setopt option v rest out n self is h =
      get_socket_int (socket_option option) v out n _ is.1
        (set_socket-get_int (socket_option option) v rest self is h)

  get_socket_same :
      (p : SocketOption) (out : List ℕ) (n : ℕ) (self other : Sock S O)
      → other.socktype ≡ self.socktype
      → (p ≡ socket_name → other.socket_name ≡ self.socket_name)
      → get_int abi vfptr table transport sndfd_of rcvfd_of p other
        ≡ get_int abi vfptr table transport sndfd_of rcvfd_of p self
      → get_socket abi vfptr table transport sndfd_of rcvfd_of p out n other
        ≡ get_socket abi vfptr table transport sndfd_of rcvfd_of p out n self
  unfolding get_socket
  get_socket_same SocketOption.sndfd out n self other t s e = rw t
  get_socket_same SocketOption.rcvfd out n self other t s e = rw t
  get_socket_same SocketOption.socket_name out n self other t s e = rw (s refl)
  get_socket_same _ out n self other t s e = ground arith

  set_setting_other :
      (o p : SocketOption) (optval : List ℕ) (n : ℕ) (self : Sock S O)
      → o ≢ p
      → get_int abi vfptr table transport sndfd_of rcvfd_of p
          (set_setting abi vfptr table transport sndfd_of rcvfd_of o optval n self).1
        ≡ get_int abi vfptr table transport sndfd_of rcvfd_of p self
  unfolding set_setting
  set_setting_other o p optval n self ne = elim (Bool-cases (n == abi.sizeof_int)) [
    | inl fits ↦ rw fits (set_int_other o p (abi.int_of optval) self ne)
    | inr other ↦ rw other
  ]

  set_name_kept :
      (p : SocketOption) (optval : List ℕ) (n : ℕ) (self : Sock S O)
      → get_int abi vfptr table transport sndfd_of rcvfd_of p
          (set_name abi vfptr table transport sndfd_of rcvfd_of optval n self).1
        ≡ get_int abi vfptr table transport sndfd_of rcvfd_of p self
  unfolding set_name get_int
  set_name_kept SocketOption.sndbuf optval n self = ground arith
  set_name_kept _ optval n self = ground arith

  set_socket_other :
      (o p : SocketOption) (optval out : List ℕ) (n m : ℕ) (self : Sock S O)
      → o ≢ p
      → get_socket abi vfptr table transport sndfd_of rcvfd_of p out m
          (set_socket abi vfptr table transport sndfd_of rcvfd_of o optval n self).1
        ≡ get_socket abi vfptr table transport sndfd_of rcvfd_of p out m self
  unfolding set_socket set_setting set_name
  set_socket_other SocketOption.socket_name p optval out n m self ne =
      get_socket_same p out m self _ (ground arith) (λ e. absurd (ne (sym e)))
        (set_name_kept p optval n self)
  set_socket_other o p optval out n m self ne =
      get_socket_same p out m self _ (ground arith) (λ e. ground arith)
        (set_setting_other o p optval n self ne)

  -- A call of nn_sock_setopt at level NN_SOL_SOCKET, whether it succeeds or not, does not change
  -- what nn_sock_getopt gives for any other option of that level.
  pub getopt-setopt_other :
      (o p : ℤ) (optval out : List ℕ) (n m : ℕ) (self : Sock S O)
      → socket_option o ≢ socket_option p
      → (getopt abi vfptr table transport sndfd_of rcvfd_of
          (pos 0)
          p
          out
          m
          (setopt abi vfptr table transport sndfd_of rcvfd_of (pos 0) o optval n self).1).0
        ≡ (getopt abi vfptr table transport sndfd_of rcvfd_of (pos 0) p out m self).0
  unfolding setopt getopt
  getopt-setopt_other o p optval out n m self ne =
      set_socket_other (socket_option o) (socket_option p) optval out n m self ne
