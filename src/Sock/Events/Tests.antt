-- ===== src/Sock/Events/Tests.antt =====
-- A socket whose protocol can send and cannot receive.
use nanomsg_copy.Prelude.{◌≡◌, refl, true, false, Option, ℕ, returned}
use nanomsg_copy.Sock.{Sock}
use nanomsg_copy.Sock.Events.{onleave, InStep, onleave-signals}
use nanomsg_copy.Sock.Samples.{fresh_sock, no_protocol}

onleave-signals_example :
    (after : Sock (Option ℕ) ℕ) × (onleave no_protocol fresh_sock ≡ returned after)
    × InStep after
    × (false ≡ false → after.rcvfd ≡ false)
    × (false ≡ false → after.sndfd ≡ true)
onleave-signals_example =
    onleave-signals no_protocol fresh_sock refl refl ((λ e. refl), (λ e. refl))
