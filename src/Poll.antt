-- ===== src/Poll.antt =====
-- nn_poll of src/core/poll.c, as built for systems with poll(2). The bits of `events` and `revents` are
-- Boolean fields.
pub mod Ready
mod Tests
use nanomsg_copy.Prelude.{
  ℕ, zero, suc, ◌+◌, Bool, true, false, ◌&&◌, ◌||◌, Option, none, some, List, [], ◌∷◌, ◌++◌,
  Outcome, returned, ◌>>=◌, if◌then◌else◌,
}
use nanomsg_copy.Prelude.Int.{ℤ, pos, negsuc}

-- nn_pollfd: NN_POLLIN and NN_POLLOUT of `events`, and of `revents`.
pub record Pollfd : Type 0 where
  pub fd : ℕ
  pub wants_in : Bool
  pub wants_out : Bool
  pub is_in : Bool
  pub is_out : Bool

-- A member of the array for poll(2), whose `events` is POLLOUT or POLLIN.
pub record Entry : Type 0 where
  pub fd : ℕ
  pub for_out : Bool

-- POLLIN and POLLOUT of the `revents` of a member, after poll(2).
pub record Revents : Type 0 where
  pub pollin : Bool
  pub pollout : Bool

-- One `if` of the first loop: nn_getsockopt gives a descriptor, or fails.
abbrev pub entry_if : Bool → Bool → Option ℕ → Option (List Entry)
entry_if true for_out (some fd) = some (record { fd = fd; for_out = for_out } ∷ [])
entry_if true for_out none = none
entry_if false for_out fd = some []

abbrev pub join : Option (List Entry) → Option (List Entry) → Option (List Entry)
join none es = none
join (some es) none = none
join (some es) (some fs) = some (es ++ fs)

-- `rcvfd` and `sndfd` are nn_getsockopt for NN_RCVFD and NN_SNDFD, and `poll` is poll(2).
module _ (rcvfd sndfd : ℕ → Option ℕ) where
  -- The first loop; a failure of nn_getsockopt ends it.
  pub collect : List Pollfd → Option (List Entry)
  collect [] = some []
  collect (f ∷ fds) =
      join (join (entry_if f.wants_in false (rcvfd f.fd)) (entry_if f.wants_out true (sndfd f.fd)))
        (collect fds)

-- One `if` of the second loop, with `pfd[pos]` and the members behind it; an access behind the members
-- that the first loop has filled is undefined.
abbrev pub read_if : Bool → (Revents → Bool) → List Revents → Outcome (Bool × List Revents)
read_if true bit (r ∷ pfd) = returned (bit r, pfd)
read_if true bit [] = Outcome.undefined
read_if false bit pfd = returned (false, pfd)

-- The second loop, with `res` as the first result.
pub report : List Pollfd → List Revents → Outcome (ℕ × List Pollfd)
report [] pfd = returned (0, [])
report (f ∷ fds) pfd = do
  i ← read_if f.wants_in (λ r. r.pollin) pfd
  o ← read_if f.wants_out (λ r. r.pollout) i.1
  rest ← report fds o.1
  returned
      ((if i.0 || o.0 then 1 + rest.0 else rest.0), record f { is_in = i.0; is_out = o.0 } ∷ rest.1)

abbrev pub is_positive : ℤ → Bool
is_positive (pos zero) = false
is_positive (pos (suc n)) = true
is_positive (negsuc n) = false

-- nn_poll; it does not return `res`.
pub nn_poll :
    (ℕ → Option ℕ)
    → (ℕ → Option ℕ)
    → (List Entry → ℤ × List Revents)
    → List Pollfd
    → Outcome (ℤ × List Pollfd)
nn_poll rcvfd sndfd poll fds = elim (collect rcvfd sndfd fds) [
  | none ↦ returned (negsuc 0, fds)
  | some entries ↦ elim (is_positive (poll entries).0) [
    | true ↦ report fds (poll entries).1 >>= λ r. returned (pos 0, r.1)
    | false ↦ returned ((poll entries).0, fds)
  ]
]
