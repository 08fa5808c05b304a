-- ===== src/Sock/Statistics.antt =====
-- nn_sock_stat_increment, nn_sock_add and nn_sock_rm of src/core/sock.c.
pub mod Levels
mod Tests
use nanomsg_copy.Prelude.{
  ℕ, ◌+◌, ◌-◌, ◌*◌, ◌%◌, ◌^◌, Bool, true, false, ◌&&◌, ◌||◌, ltb, leb, if◌then◌else◌, Outcome,
  returned, ◌>>=◌, ◌>>◌, assert,
}
use nanomsg_copy.Prelude.Int.{ℤ, pos, negsuc, ltb_ℤ, ◌+ℤ◌, ◌-ℤ◌, pos_part}
use nanomsg_copy.Sock.{Sock, Protocol, Counters}

-- NN_STAT_* of src/nn.h; `other` is any number that the switch has no case for.
pub data Statistic : Type 0 where
  established_connections accepted_connections dropped_connections broken_connections : Statistic
  connect_errors bind_errors accept_errors current_connections : Statistic
  inprogress_connections current_ep_errors messages_sent messages_received : Statistic
  bytes_sent bytes_received current_snd_priority other : Statistic

-- The value of a C int for the low 32 bits of a number.
abbrev of_bits : ℕ → ℤ
of_bits m = if ltb m (2 ^ 31) then pos m else negsuc (2 ^ 32 - 1 - m)

abbrev pub to_int : ℤ → ℤ
to_int (pos n) = of_bits (n % 2 ^ 32)
to_int (negsuc n) = of_bits (2 ^ 32 - 1 - n % 2 ^ 32)

-- A uint64_t counter.
pub count : ℤ → ℕ → Outcome ℕ
count increment n = assert (ltb_ℤ (pos 0) increment) >> returned ((n + pos_part increment) % 2 ^ 64)

-- INT_MAX
abbrev int_max : ℕ
int_max = 2 ^ 31 - 1

abbrev fits_int : ℤ → Bool
fits_int increment = ltb_ℤ increment (pos int_max) && ltb_ℤ (negsuc (int_max - 1)) increment

-- An int that goes up and down. The sum wraps around.
pub level : ℤ → ℤ → Outcome ℤ
level increment n =
    assert (ltb_ℤ (pos 0) increment || not_below n (pos 0 -ℤ increment))
    >> assert (fits_int increment)
    >> returned (to_int (n +ℤ increment))
  where
    not_below : ℤ → ℤ → Bool
    not_below a b = if ltb_ℤ a b then false else true

pub priority : ℤ → Outcome ℤ
priority (pos n) = assert (ltb 0 n && leb n 16) >> returned (pos n)
priority (negsuc n) = assert (leb n 0) >> returned (negsuc n)

pub stat_increment : Statistic → ℤ → Counters → Outcome Counters
stat_increment established_connections increment s =
    count increment s.established_connections >>= λ n.
    returned (record s { established_connections = n })
stat_increment accepted_connections increment s =
    count increment s.accepted_connections >>= λ n. returned (record s { accepted_connections = n })
stat_increment dropped_connections increment s =
    count increment s.dropped_connections >>= λ n. returned (record s { dropped_connections = n })
stat_increment broken_connections increment s =
    count increment s.broken_connections >>= λ n. returned (record s { broken_connections = n })
stat_increment connect_errors increment s =
    count increment s.connect_errors >>= λ n. returned (record s { connect_errors = n })
stat_increment bind_errors increment s =
    count increment s.bind_errors >>= λ n. returned (record s { bind_errors = n })
stat_increment accept_errors increment s =
    count increment s.accept_errors >>= λ n. returned (record s { accept_errors = n })
stat_increment messages_sent increment s =
    count increment s.messages_sent >>= λ n. returned (record s { messages_sent = n })
stat_increment messages_received increment s =
    count increment s.messages_received >>= λ n. returned (record s { messages_received = n })
stat_increment bytes_sent increment s =
    count increment s.bytes_sent >>= λ n. returned (record s { bytes_sent = n })
stat_increment bytes_received increment s =
    count increment s.bytes_received >>= λ n. returned (record s { bytes_received = n })
stat_increment current_connections increment s =
    level increment s.current_connections >>= λ n. returned (record s { current_connections = n })
stat_increment inprogress_connections increment s =
    level increment s.inprogress_connections >>= λ n.
    returned (record s { inprogress_connections = n })
stat_increment current_snd_priority increment s =
    priority increment >>= λ n. returned (record s { current_snd_priority = n })
stat_increment current_ep_errors increment s =
    level increment s.current_ep_errors >>= λ n. returned (record s { current_ep_errors = n })
stat_increment other increment s = returned s

module _ {S O Msg : Type 0} (vfptr : Protocol S Msg) where
  -- nn_sock_add
  pub add : ℕ → Sock S O → Outcome (ℤ × Sock S O)
  add pipe self =
      let (rc, base) = vfptr.add pipe self.sockbase in
      if ltb_ℤ rc (pos 0)
      then returned (rc, record self { sockbase = base })
      else stat_increment current_connections (pos 1) self.statistics >>= λ s.
          returned (rc, record self { sockbase = base; statistics = s })

  -- nn_sock_rm
  pub rm : ℕ → Sock S O → Outcome (Sock S O)
  rm pipe self = stat_increment current_connections (negsuc 0) self.statistics >>= λ s.
      returned (record self { sockbase = vfptr.rm pipe self.sockbase; statistics = s })
