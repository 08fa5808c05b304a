-- ===== src/Sock/Setup/Tests.antt =====
-- A socket that is set up, and one that is taken down after interrupted waits.
use nanomsg_copy.Prelude.{
  ℕ, ◌≡◌, refl, true, false, Option, none, some, [], ◌∷◌, replicate, success, Outcome, returned,
  ◌>>=◌,
}
use nanomsg_copy.Prelude.Int.{pos}
use nanomsg_copy.Sock.{Sock, State, Socktype}
use nanomsg_copy.Sock.Lifecycle.{Source, Kind, handler}
use nanomsg_copy.Sock.Setup.{init}
use nanomsg_copy.Sock.Setup.Fresh.{IsReady, init-IsReady}
use nanomsg_copy.Sock.Samples.{no_protocol, fresh_sock}

abbrev pair_type : Socktype
pair_type = record { domain = pos 1; protocol = pos 16; no_recv = false; no_send = false }

abbrev starts : Sock (Option ℕ) ℕ → Outcome (Sock (Option ℕ) ℕ)
starts s = handler no_protocol Source.action Kind.start 0 s >>= λ r. returned r.1

init-IsReady_example :
    (self : Sock (Option ℕ) ℕ) × (init no_protocol success success
        (success, none)
        starts
        pair_type
        (51 ∷ replicate 63 0)
      ≡ returned (success, some self))
    × IsReady self
    × (false ≡ false → self.rcvfd ≡ false)
    × (false ≡ false → self.sndfd ≡ true)
init-IsReady_example =
    init-IsReady no_protocol none starts pair_type (51 ∷ replicate 63 0) (λ s. refl) refl refl

abbrev finished : Sock (Option ℕ) ℕ
finished = record fresh_sock {
  state = State.fini;
  termsem = 1;
  optsets = none ∷ some 5 ∷ none ∷ some 6 ∷ [];
}
