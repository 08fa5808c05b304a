-- ===== src/Ipc/Options.antt =====
-- src/transports/ipc/ipc.c: nn_ipc_optset_setopt and nn_ipc_optset_getopt of the buffer sizes.
use nanomsg_copy.Prelude.{
  ℕ, ◌≤◌, ◌<◌, ◌≡◌, refl, false, Option, List, ◌++◌, length, Rc, success, Outcome, returned,
  undefined, arith, ltb,
}
use nanomsg_copy.Prelude.Int.{ℤ, pos}
use nanomsg_copy.Sock.Abi.{Abi, memcpy}
use nanomsg_copy.Ipc.{Optset, numbered, set, setopt, get, getopt, write_value}

module _ (abi : Abi) (value out : List ℕ) where
  write_value-memcpy :
      length value ≡ abi.sizeof_int
      → abi.sizeof_int ≤ length out
      → write_value abi value out
        ≡ returned (success, memcpy out value abi.sizeof_int, abi.sizeof_int)
  write_value-memcpy e l = ground (arith, e)

  write_value_overrun :
      length value ≡ abi.sizeof_int
      → length out < abi.sizeof_int
      → write_value abi value out ≡ undefined
  write_value_overrun e l = ground (arith, e)

-- What a buffer size reads as after it was set: the value, for a buffer with room for an int.
abbrev pub Reads : Abi → List ℕ → ℤ → Outcome (Rc × List ℕ × ℕ) → Type 0
Reads abi out v result =
    result ≡ returned (success, memcpy out (abi.bytes_of v) abi.sizeof_int, abi.sizeof_int)

-- For a value of at least the size of an int and an output buffer with room for one: NN_IPC_OUTBUFSZ (2) and
-- NN_IPC_INBUFSZ (3) are set with success, nn_ipc_optset_getopt then writes the bytes of the value, and each
-- leaves the other as it was.
pub getopt-setopt_sizes :
    (abi : Abi) (bytes_of_pointer : Option ℕ → List ℕ) (v : ℤ) (rest out : List ℕ)
    (address optvallen len : ℕ) (self : Optset)
    → abi.sizeof_int ≤ optvallen
    → abi.sizeof_int ≤ length out
    → let output = setopt abi (pos 2) address (abi.bytes_of v ++ rest) optvallen self in
      let input = setopt abi (pos 3) address (abi.bytes_of v ++ rest) optvallen self in
      (output.0 ≡ success)
      × Reads abi out v (getopt abi bytes_of_pointer (pos 2) out len output.1)
      × (getopt abi bytes_of_pointer (pos 3) out len output.1
          ≡ getopt abi bytes_of_pointer (pos 3) out len self)
      × (input.0 ≡ success)
      × Reads abi out v (getopt abi bytes_of_pointer (pos 3) out len input.1)
      × (getopt abi bytes_of_pointer (pos 2) out len input.1
          ≡ getopt abi bytes_of_pointer (pos 2) out len self)
unfolding setopt getopt set get numbered
getopt-setopt_sizes abi bytes_of_pointer v rest out address optvallen len self a b =
    let long : ltb optvallen abi.sizeof_int ≡ false = ground arith in
    let written = write_value-memcpy abi (abi.bytes_of v) out (abi.length-bytes_of v) b in
    rw (long, abi.int_of-bytes_of v rest) (refl, written, refl, refl, written, refl)

-- For an output buffer that is shorter than an int, nn_ipc_optset_getopt of either size writes behind its end,
-- whatever length the caller gives.
pub getopt-overrun :
    (abi : Abi) (bytes_of_pointer : Option ℕ → List ℕ) (out : List ℕ) (len : ℕ) (self : Optset)
    → length out < abi.sizeof_int
    → (getopt abi bytes_of_pointer (pos 2) out len self ≡ undefined)
      × (getopt abi bytes_of_pointer (pos 3) out len self ≡ undefined)
unfolding getopt get numbered
getopt-overrun abi bytes_of_pointer out len self l = (
  write_value_overrun abi (abi.bytes_of self.outbuffersz) out (abi.length-bytes_of _) l,
  write_value_overrun abi (abi.bytes_of self.inbuffersz) out (abi.length-bytes_of _) l,
)
