-- ===== src/Ipc.antt =====
-- src/transports/ipc/ipc.c and src/ipc.h: the options of the transport over Unix sockets. A buffer is the list
-- of its bytes; the option of the security attributes is a pointer, whose value is the address of the buffer.
pub mod Options
mod Tests
use nanomsg_copy.Prelude.{
  ℕ, ◌==◌, Option, none, some, List, length, Errno, einval, enoprotoopt, Rc, success, failure,
  Outcome, returned, undefined, if◌then◌else◌, ltb,
}
use nanomsg_copy.Prelude.Int.{ℤ, pos, negsuc}
use nanomsg_copy.Sock.Abi.{Abi, memcpy}

-- NN_IPC_SEC_ATTR, NN_IPC_OUTBUFSZ and NN_IPC_INBUFSZ, and any other number.
pub data IpcOption : Type 0 where
  sec_attr outbufsz inbufsz other : IpcOption

pub numbered : ℤ → IpcOption
numbered (pos n) =
    if n == 1 then sec_attr else if n == 2 then outbufsz else if n == 3 then inbufsz else other
numbered (negsuc n) = other

-- struct nn_ipc_optset; NULL is none.
pub record Optset : Type 0 where
  pub sec_attr : Option ℕ
  pub outbuffersz : ℤ
  pub inbuffersz : ℤ

-- nn_ipc_optset
pub optset : Optset
optset = record { sec_attr = none; outbuffersz = pos 4096; inbuffersz = pos 4096 }

module _ (abi : Abi) where
  -- The case of an option, for a buffer at an address.
  pub set : IpcOption → ℕ → List ℕ → Optset → Rc × Optset
  set IpcOption.sec_attr address optval self = (success, record self { sec_attr = some address })
  set outbufsz address optval self = (success, record self { outbuffersz = abi.int_of optval })
  set inbufsz address optval self = (success, record self { inbuffersz = abi.int_of optval })
  set other address optval self = (failure enoprotoopt, self)

  pub setopt : ℤ → ℕ → List ℕ → ℕ → Optset → Rc × Optset
  setopt option address optval optvallen self =
      if ltb optvallen abi.sizeof_int
      then (failure einval, self)
      else set (numbered option) address optval self

  -- All bytes of a value are written, whatever the buffer has room for: *optvallen is not read.
  abbrev pub write_value : List ℕ → List ℕ → Outcome (Rc × List ℕ × ℕ)
  write_value value optval =
      if ltb (length optval) (length value)
      then undefined
      else returned (success, memcpy optval value (length value), length value)

  module _ (bytes_of_pointer : Option ℕ → List ℕ) where
    pub get : IpcOption → List ℕ → ℕ → Optset → Outcome (Rc × List ℕ × ℕ)
    get IpcOption.sec_attr optval optvallen self =
        write_value (bytes_of_pointer self.sec_attr) optval
    get outbufsz optval optvallen self = write_value (abi.bytes_of self.outbuffersz) optval
    get inbufsz optval optvallen self = write_value (abi.bytes_of self.inbuffersz) optval
    get other optval optvallen self = returned (failure enoprotoopt, optval, optvallen)

    pub getopt : ℤ → List ℕ → ℕ → Optset → Outcome (Rc × List ℕ × ℕ)
    getopt option optval optvallen self = get (numbered option) optval optvallen self
