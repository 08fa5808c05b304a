-- ===== src/Sock/Lifecycle/Tests.antt =====
-- A socket with three endpoints, two of which are left to stop.
use nanomsg_copy.Prelude.{ℕ, ◌≡◌, refl, false, Option, none, some, [], ◌∷◌, returned, arith}
use nanomsg_copy.Sock.{Sock, Protocol}
use nanomsg_copy.Sock.Lifecycle.{Source, Kind, Call, handler, em_ep, handle_active}
use nanomsg_copy.Sock.Lifecycle.Invariant.{IsValid, Step, Steps, Steps-IsValid}
use nanomsg_copy.Sock.Lifecycle.Endpoints.{IsNumbered, Leaves, handler-em_ep}
use nanomsg_copy.Sock.Samples.{no_protocol, fresh_sock}

abbrev busy : Sock (Option ℕ) ℕ
busy = record fresh_sock { eps = 4 ∷ 5 ∷ []; sdeps = 2 ∷ []; eid = 6 }

abbrev with_stop : Protocol (Option ℕ) ℕ
with_stop = record no_protocol { stop = some (λ s. s) }

Steps-IsValid_example : IsValid (record fresh_sock { sockbase = none })
unfolding handler handle_active
Steps-IsValid_example =
    Steps-IsValid {O = ℕ} no_protocol
      (Steps.step refl
        (Step.handled Source.pipe Kind.pipe_in 7 {self = fresh_sock} {calls = []}
          {after = fresh_sock} refl)
        Steps.stay)
      refl

busy-IsNumbered : IsNumbered busy
busy-IsNumbered = record {
  distinct_eps = (refl, (refl, tt));
  distinct_sdeps = (refl, tt);
  apart = λ a e. ground arith;
  below_eps = omega arith;
  below_sdeps = omega arith;
}

handler-em_ep_example :
    (after : Sock (Option ℕ) ℕ) × (handler no_protocol Source.ep Kind.stopped 5 (em_ep 5 busy).2
      ≡ returned (Call.ep_term 5 ∷ [], after))
    × (after.lists_intact ≡ false)
    × Leaves 5 (4 ∷ []) (2 ∷ []) after.eps after.sdeps
handler-em_ep_example = handler-em_ep no_protocol 5 busy refl busy-IsNumbered refl
