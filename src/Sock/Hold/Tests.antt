-- ===== src/Sock/Hold/Tests.antt =====
-- Two users of a socket that has just been set up.
use nanomsg_copy.Prelude.{◌≡◌, refl, List, [], ◌∷◌}
use nanomsg_copy.Prelude.Int.{pos}
use nanomsg_copy.Sock.Hold.{Use, run, run-relesem}
use nanomsg_copy.Sock.Samples.{fresh_sock}

abbrev two_users : List Use
two_users = Use.holds ∷ Use.releases ∷ Use.releases ∷ []

run-relesem_example :
    ((run two_users fresh_sock).holds ≡ pos 0) × ((run two_users fresh_sock).relesem ≡ 1)
run-relesem_example = run-relesem two_users 0 0 fresh_sock refl refl refl
