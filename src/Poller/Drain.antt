-- ===== src/Poller/Drain.antt =====
-- src/aio/poller_epoll.inc: nn_poller_event called until it fails, the way the loop of a worker calls it.
use nanomsg_copy.Prelude.{
  ℕ, zero, suc, ◌<◌, ◌≡◌, ap, inl, inr, Option, none, some, List, [], ◌∷◌, length, success, failure,
  Outcome, returned, out_of_fuel, ◌>>=◌, arith,
}
use nanomsg_copy.Poller.Pending.{pending, IsPoller}
use nanomsg_copy.Poller.{Poller, Kind, event}
use nanomsg_copy.Poller.Reports.{event-Reported}

abbrev prepend :
    Option (Kind × ℕ) → Outcome (List (Kind × ℕ) × Poller) → Outcome (List (Kind × ℕ) × Poller)
prepend none m = m
prepend (some r) m = do (rs, self) ← m; returned (r ∷ rs, self)

-- What the calls reported until the first failure, and the poller then.
abbrev pub drain : ℕ → Poller → Outcome (List (Kind × ℕ) × Poller)
drain zero self = out_of_fuel
drain (suc fuel) self =
    let (rc, out, self') = event self in
    let more = drain fuel self' in
    elim rc [ failure e ↦ returned ([], self') | success ↦ prepend out more ]

-- With an index that is not behind the number of events, calls of nn_poller_event come to an end after one call
-- for each report to come and the one that fails; they report exactly those, in order, and none is left.
pub drain-pending :
    (fuel : ℕ) (self : Poller)
    → IsPoller self
    → length (pending self) < fuel
    → (self' : Poller) × (drain fuel self ≡ returned (pending self, self'))
      × (pending self' ≡ [])
      × IsPoller self'
drain-pending zero self i l = absurd (omega arith)
drain-pending (suc fuel) self i l = elim (event-Reported self i) [
  | inl (a, b, c, d, j) ↦ ((event self).2, ground (arith, a, c), d, j)
  | inr (r, a, b, c, j) ↦
      let (self', e, n, k) = drain-pending fuel (event self).2 j (omega (arith, ap length c)) in
      (self', ground (arith, a, b, c, e), n, k)
]
