-- ===== src/Poller/Tests.antt =====
-- Tests of the poller: three events, of the handles 5, 6 and 5.
use nanomsg_copy.Prelude.{
  ◌+◌, ◌<◌, ◌≡◌, refl, true, false, [], ◌∷◌, length, returned, arith, update,
}
use nanomsg_copy.Poller.Pending.{reports_of, pending, IsPoller}
use nanomsg_copy.Poller.{Mask, Hndls, Poller, ctl_del, poller_in, poller_out, poller_err, rm}
use nanomsg_copy.Poller.Drain.{drain, drain-pending}
use nanomsg_copy.Poller.Clearing.{keep, not_of, rm-pending}

abbrev both : Mask
both = record { input = true; output = true; other = false }

abbrev hang_up : Mask
hang_up = record { input = false; output = true; other = true }

abbrev polled : Poller
polled = record {
  nevents = 3;
  index = 0;
  events =
      update
        (update (λ i. record { hndl = 5; mask = hang_up }) 0 (record { hndl = 5; mask = both })) 1
        (record { hndl = 6; mask = both });
}

abbrev hndls : Hndls
hndls h = record { fd = h + 100; events = both }

polled-IsPoller : IsPoller polled
polled-IsPoller = record { in_range = omega arith }

polled_reports :
    pending polled
    ≡ (poller_in, 5)
      ∷ (poller_out, 5)
      ∷ (poller_in, 6)
      ∷ (poller_out, 6)
      ∷ (poller_out, 5)
      ∷ (poller_err, 5)
      ∷ []
unfolding reports_of
polled_reports = refl

polled-length : length (pending polled) < 7
unfolding reports_of
polled-length = omega arith

drain-pending_example :
    (self' : Poller) × (drain 7 polled ≡ returned (pending polled, self'))
    × (pending self' ≡ [])
    × IsPoller self'
drain-pending_example = drain-pending 7 polled polled-IsPoller polled-length

rm-pending_example :
    (self' : Poller) × (rm 5 polled hndls ≡ returned (ctl_del 105 ∷ [], self', hndls))
    × (pending self' ≡ keep (not_of 5) (pending polled))
    × IsPoller self'
rm-pending_example = rm-pending 5 polled hndls polled-IsPoller
