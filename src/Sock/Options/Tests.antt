-- ===== src/Sock/Options/Tests.antt =====
-- The option theorems at a socket that has just been set up.
use nanomsg_copy.Prelude.{ℕ, ◌≡◌, refl, Option, List, [], ◌∷◌, Rc, success, arith}
use nanomsg_copy.Prelude.Int.{ℤ, pos}
use nanomsg_copy.Sock.{Sock}
use nanomsg_copy.Sock.Options.{setopt, getopt, socket_option, set_socket, set_int}
use nanomsg_copy.Sock.Options.Valid.{IsValid}
use nanomsg_copy.Sock.Options.RoundTrip.{getopt-setopt}
use nanomsg_copy.Sock.Samples.{
  two_cells, no_protocol, no_optsets, no_transport, fresh_sock, fresh_settings,
}

abbrev set_at : ℤ → ℤ → List ℕ → ℕ → Rc × Sock (Option ℕ) ℕ
set_at level option optval n =
    setopt two_cells no_protocol no_optsets no_transport (pos 3) (pos 4) level option optval n
      fresh_sock

fresh-IsValid : IsValid fresh_settings
fresh-IsValid = omega arith

getopt-setopt_example :
    (getopt two_cells no_protocol no_optsets no_transport
      (pos 3)
      (pos 4)
      (pos 0)
      (pos 8)
      (9 ∷ 9 ∷ 9 ∷ [])
      3
      (set_at (pos 0) (pos 8) (0 ∷ 12 ∷ []) 2).1).0
    ≡ (success, 0 ∷ 12 ∷ 9 ∷ [], 2)
unfolding setopt set_socket set_int socket_option
getopt-setopt_example =
    getopt-setopt two_cells no_protocol no_optsets no_transport (pos 3) (pos 4) (pos 8) (pos 12) []
      (9 ∷ 9 ∷ 9 ∷ []) 3 fresh_sock ((λ e. cc), (λ e. cc)) refl
