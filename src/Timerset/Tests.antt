-- ===== src/Timerset/Tests.antt =====
-- The timer set of src/aio/timerset.c with two handles, that expire at 20 and at 40.
use nanomsg_copy.Prelude.{
  ℕ, ◌≡◌, ◌++◌, refl, arith, false, none, some, [], ◌∷◌, update, returned, success,
}
use nanomsg_copy.Prelude.Int.{pos}
use nanomsg_copy.LinkedList.{not_in_list, at}
use nanomsg_copy.Timerset.{Timerset, Hndls, add, event, timeout_of}
use nanomsg_copy.Timerset.Order.{IsTimerset, earlier, later}
use nanomsg_copy.Timerset.Operations.{add-IsTimerset}
use nanomsg_copy.Timerset.Expiry.{timeout_of-event}

abbrev hndls : Hndls
hndls = record {
  list = record {
    prev = update (update (λ q. not_in_list) 3 (at none)) 5 (at (some 3));
    next = update (update (λ q. not_in_list) 3 (at (some 5))) 5 (at none);
  };
  timeout = update (update (λ q. 0) 3 20) 5 40;
}

abbrev timers : Timerset
timers = record { timeouts = record { first = some 3; last = some 5 } }

abbrev timers-IsTimerset : IsTimerset (3 ∷ 5 ∷ []) timers hndls
timers-IsTimerset = record {
  list = record {
    first = refl;
    last = refl;
    linked = (refl, refl, (refl, refl, tt));
    distinct = (refl, (refl, tt));
  };
  sorted = ((omega arith, tt), (tt, tt));
}

abbrev t : ℕ → ℕ
t = update hndls.timeout 4 30

add-IsTimerset_example :
    (self' : Timerset) × (hndls' : Hndls) × (add 2 10 (pos 20) 4 timers hndls
      ≡ returned (false, self', hndls'))
    × IsTimerset (3 ∷ 4 ∷ 5 ∷ []) self' hndls'
    × (earlier t 30 (3 ∷ 5 ∷ []) ++ later t 30 (3 ∷ 5 ∷ []) ≡ 3 ∷ 5 ∷ [])
    × (hndls'.timeout ≡ t)
unfolding earlier later
add-IsTimerset_example =
    add-IsTimerset 2 10 (pos 20) 4 (3 ∷ 5 ∷ []) timers hndls timers-IsTimerset refl (omega arith)

timeout_of-event_example :
    (timeout_of 15 timers hndls ≡ pos 5)
    × (self' : Timerset) × (hndls' : Hndls) × (event 20 timers hndls
        ≡ returned (success, some 3, self', hndls'))
    × IsTimerset (5 ∷ []) self' hndls'
timeout_of-event_example =
    timeout_of-event 15 3 (5 ∷ []) timers hndls timers-IsTimerset (omega arith) (omega arith)
      (omega arith) (omega arith)

five_left : timeout_of 15 timers hndls ≡ pos 5
unfolding timeout_of
five_left = refl
