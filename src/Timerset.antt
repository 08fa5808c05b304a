-- ===== src/Timerset.antt =====
-- src/aio/timerset.c and timerset.h: timeouts in the order in which they expire, in the linked list of
-- src/utils/list.c. `now` is what nn_clock_ms returns in the call.
pub mod Order
pub mod Operations
pub mod Expiry
mod Tests
use nanomsg_copy.Prelude.{
  ℕ, suc, zero, ◌+◌, ◌-◌, ◌%◌, ◌^◌, Bool, true, false, Option, none, some, if◌then◌else◌, update,
  ltb, Outcome, returned, ◌>>=◌, ◌>>◌, Rc, success, failure, Errno, List,
}
use nanomsg_copy.Prelude.Int.{ℤ, pos, negsuc}
use nanomsg_copy.LinkedList.{
  Items, LinkedList, init, term, empty, begin, next, same, insert, erase, is_in_list, item_init,
  item_term,
}

pub record Timerset : Type 0 where
  pub timeouts : LinkedList

-- nn_timerset_hndl, by its address: the item in the list and the time of expiry.
pub record Hndls : Type 0 where
  pub list : Items
  pub timeout : ℕ → ℕ

pub timerset_init : Timerset
timerset_init = record { timeouts = init }

pub timerset_term : Timerset → Outcome (Unit {0})
timerset_term self = term self.timeouts

-- An `int` converted to uint64_t.
abbrev pub to_uint64 : ℤ → ℕ
to_uint64 (pos n) = n % 2 ^ 64
to_uint64 (negsuc n) = 2 ^ 64 - 1 - n % 2 ^ 64

-- The loop of nn_timerset_add: the first item that expires after `deadline`.
pub scan : ℕ → ℕ → Option ℕ → Hndls → Outcome (Option ℕ)
scan fuel deadline none hndls = returned none
scan zero deadline (some it) hndls = Outcome.out_of_fuel
scan (suc fuel) deadline (some it) hndls = elim (ltb deadline (hndls.timeout it)) [
  | true ↦ returned (some it)
  | false ↦ next it hndls.list >>= λ n. scan fuel deadline n hndls
]

pub add : ℕ → ℕ → ℤ → ℕ → Timerset → Hndls → Outcome (Bool × Timerset × Hndls)
add fuel now timeout hndl self hndls = do
  let deadline = (now + to_uint64 timeout) % 2 ^ 64
  let hndls' = record hndls { timeout = update hndls.timeout hndl deadline }
  it ← scan fuel deadline (begin self.timeouts) hndls'
  let first = same (begin self.timeouts) it
  (timeouts, items) ← insert hndl it self.timeouts hndls'.list
  returned (first, record self { timeouts = timeouts }, record hndls' { list = items })

pub rm : ℕ → Timerset → Hndls → Outcome (Bool × Timerset × Hndls)
rm hndl self hndls =
    if is_in_list hndl hndls.list
    then (erase hndl self.timeouts hndls.list >>= λ (n, timeouts, items). returned (
      same (begin self.timeouts) (some hndl),
      record self { timeouts = timeouts },
      record hndls { list = items },
    ))
    else returned (false, self, hndls)

-- The low 32 bits of a uint64_t as an `int`.
abbrev pub to_int : ℕ → ℤ
to_int n = let m = n % 2 ^ 32 in if ltb m (2 ^ 31) then pos m else negsuc (2 ^ 32 - 1 - m)

-- nn_timerset_timeout.
pub timeout_of : ℕ → Timerset → Hndls → ℤ
timeout_of now self hndls = elim (begin self.timeouts) [
  | none ↦ negsuc 0
  | some it ↦ elim (to_int ((hndls.timeout it + 2 ^ 64 - now) % 2 ^ 64)) [
    | pos n ↦ pos n
    | negsuc n ↦ pos 0
  ]
]

-- nn_timerset_event, with the handle as a result.
pub event : ℕ → Timerset → Hndls → Outcome (Rc × Option ℕ × Timerset × Hndls)
event now self hndls = elim (begin self.timeouts) [
  | none ↦ returned (failure Errno.eagain, none, self, hndls)
  | some it ↦
      if ltb now (hndls.timeout it)
      then returned (failure Errno.eagain, none, self, hndls)
      else (erase it self.timeouts hndls.list >>= λ (n, timeouts, items).
          returned
            (success, some it, record self { timeouts = timeouts }, record hndls { list = items }))
]

pub hndl_init : ℕ → Hndls → Hndls
hndl_init hndl hndls = record hndls { list = item_init hndl hndls.list }

pub hndl_term : ℕ → Hndls → Outcome (Unit {0})
hndl_term hndl hndls = item_term hndl hndls.list

pub hndl_is_active : ℕ → Hndls → Bool
hndl_is_active hndl hndls = is_in_list hndl hndls.list
