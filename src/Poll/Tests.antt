-- ===== src/Poll/Tests.antt =====
-- nn_poll for two sockets; the descriptors of socket s are 2 s and 2 s + 1.
use nanomsg_copy.Prelude.{
  ℕ, ◌+◌, ◌*◌, ◌≤◌, ◌≡◌, refl, Bool, true, false, some, List, [], ◌∷◌, map, returned, ◌==◌,
}
use nanomsg_copy.Prelude.Int.{ℤ, pos}
use nanomsg_copy.Poll.{Pollfd, Entry, Revents, nn_poll}
use nanomsg_copy.Poll.Ready.{revents_of, nn_poll-marked}

abbrev rcvfd : ℕ → ℕ
rcvfd s = 2 * s

abbrev sndfd : ℕ → ℕ
sndfd s = 2 * s + 1

-- The descriptor 4 can be read, and 3 can be written.
abbrev ready : ℕ → Revents
ready fd = record { pollin = fd == 4; pollout = fd == 3 }

abbrev poll : List Entry → ℤ × List Revents
poll es = (pos 2, map (revents_of ready) es)

abbrev asks : ℕ → Bool → Bool → Pollfd
asks s wants_in wants_out = record {
  fd = s;
  wants_in = wants_in;
  wants_out = wants_out;
  is_in = false;
  is_out = false;
}

abbrev fds : List Pollfd
fds = asks 1 false true ∷ asks 2 true true ∷ []

nn_poll-marked_example :
    (nn_poll (λ s. some (rcvfd s)) (λ s. some (sndfd s)) poll fds
      ≡ returned (
        pos 0,
        record (asks 1 false true) { is_out = true }
            ∷ record (asks 2 true true) { is_in = true }
            ∷ [],
      ))
    × (3 ≤ 4)
nn_poll-marked_example = nn_poll-marked rcvfd sndfd ready poll fds 1 refl refl
