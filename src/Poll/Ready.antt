-- ===== src/Poll/Ready.antt =====
-- The two loops of nn_poll (src/core/poll.c) walk through the array for poll(2) in step.
use nanomsg_copy.Prelude.{
  ℕ, suc, ◌+◌, ◌*◌, ◌≤◌, ◌≡◌, refl, ap, true, false, ◌&&◌, ◌||◌, some, List, [], ◌∷◌, ◌++◌, map,
  length, returned, if◌then◌else◌, arith,
}
use nanomsg_copy.Prelude.Int.{ℤ, pos}
use nanomsg_copy.Poll.{Pollfd, Entry, Revents, collect, report, nn_poll}

-- The descriptors of a socket, where nn_getsockopt does not fail.
abbrev pub entries_of : (ℕ → ℕ) → (ℕ → ℕ) → List Pollfd → List Entry
entries_of rcvfd sndfd [] = []
entries_of rcvfd sndfd (f ∷ fds) =
    (if f.wants_in then record { fd = rcvfd f.fd; for_out = false } ∷ [] else [])
    ++ (if f.wants_out then record { fd = sndfd f.fd; for_out = true } ∷ [] else [])
    ++ entries_of rcvfd sndfd fds

-- A socket with what is ready of its own descriptors, as far as it was asked for.
abbrev pub marked : (ℕ → Revents) → (ℕ → ℕ) → (ℕ → ℕ) → Pollfd → Pollfd
marked ready rcvfd sndfd f = record f {
  is_in = f.wants_in && (ready (rcvfd f.fd)).pollin;
  is_out = f.wants_out && (ready (sndfd f.fd)).pollout;
}

abbrev pub revents_of : (ℕ → Revents) → Entry → Revents
revents_of ready e = ready e.fd

module _ (rcvfd sndfd : ℕ → ℕ) where
  collect-entries :
      (fds : List Pollfd)
      → collect (λ s. some (rcvfd s)) (λ s. some (sndfd s)) fds ≡ some (entries_of rcvfd sndfd fds)
  unfolding collect
  collect-entries [] = refl
  collect-entries (f ∷ fds) = ground (arith, collect-entries fds)

  -- The array has room for two members for each socket, and no more are filled.
  entries_of-bound : (fds : List Pollfd) → length (entries_of rcvfd sndfd fds) ≤ 2 * length fds
  entries_of-bound [] = omega arith
  entries_of-bound (f ∷ fds) = ground (arith, entries_of-bound fds)

  abbrev count : (ℕ → Revents) → List Pollfd → ℕ
  count ready [] = 0
  count ready (f ∷ fds) =
      let m = marked ready rcvfd sndfd f in
      if m.is_in || m.is_out then 1 + count ready fds else count ready fds

  report-marked :
      (ready : ℕ → Revents) (fds : List Pollfd)
      → report fds (map (revents_of ready) (entries_of rcvfd sndfd fds))
        ≡ returned (count ready fds, map (marked ready rcvfd sndfd) fds)
  unfolding report
  report-marked ready [] = refl
  report-marked ready (f ∷ fds) = ground (arith, report-marked ready fds)

-- Where nn_getsockopt gives both descriptors of each socket and poll(2) reports, in the order of the array
-- that it is given, what is ready of each descriptor, with a positive result: nn_poll reads no member of
-- the array that it has not filled, fills no more than two for each socket, and leaves in each socket's
-- `revents` what is ready of the socket's own descriptors and was asked for, in every mixture of events.
-- It returns 0, whatever is ready.
pub nn_poll-marked :
    (rcvfd sndfd : ℕ → ℕ) (ready : ℕ → Revents) (poll : List Entry → ℤ × List Revents)
    (fds : List Pollfd) (n : ℕ)
    → (poll (entries_of rcvfd sndfd fds)).0 ≡ pos (suc n)
    → (poll (entries_of rcvfd sndfd fds)).1 ≡ map (revents_of ready) (entries_of rcvfd sndfd fds)
    → (nn_poll (λ s. some (rcvfd s)) (λ s. some (sndfd s)) poll fds
        ≡ returned (pos 0, map (marked ready rcvfd sndfd) fds))
      × (length (entries_of rcvfd sndfd fds) ≤ 2 * length fds)
unfolding nn_poll
nn_poll-marked rcvfd sndfd ready poll fds n e k = (
  ground (
    arith,
    collect-entries rcvfd sndfd fds,
    e,
    ap (report fds) k,
    report-marked rcvfd sndfd ready fds,
  ),
  entries_of-bound rcvfd sndfd fds,
)
