-- ===== src/Poller/Reports.antt =====
-- src/aio/poller_epoll.inc: the events that nn_poller_event reports one by one, against the masks that
-- epoll_wait filled in.
use nanomsg_copy.Prelude.{
  ℕ, suc, ◌+◌, ◌-◌, ◌≤◌, ◌<◌, ◌≡◌, refl, sym, ap, ◌∙◌, ◌⊎◌, inl, inr, true, false, Bool-cases,
  Option, none, some, List, [], ◌∷◌, ◌++◌, Rc, success, failure, eagain, arith,
}
use native.Mathlib.Decide.{dec_le}
use nanomsg_copy.Poller.Pending.{
  reports_of, reports, pending, IsPoller, recount, reports_changed, Skipped, skip_lem,
}
use nanomsg_copy.Poller.{
  Mask, Event, Poller, Kind, poller_in, poller_out, poller_err, skip, change, without_in,
  without_out, event,
}

-- The position at which nn_poller_event stops.
abbrev pub position : Poller → ℕ
position self = skip (self.nevents - self.index) self.index self.events

-- The result of nn_poller_event: -EAGAIN when nothing is to be reported, and otherwise the first of the reports.
abbrev pub Reported : Poller → Rc × Option (Kind × ℕ) × Poller → Type 0
Reported self (rc, out, self') =
    ((rc ≡ failure eagain)
      × (out ≡ none)
      × (pending self ≡ [])
      × (pending self' ≡ [])
      × IsPoller self')
    ⊎ ((r : Kind × ℕ) × (rc ≡ success)
        × (out ≡ some r)
        × (pending self ≡ r ∷ pending self')
        × IsPoller self')

module _ (self : Poller) (i : IsPoller self) where
  stop : Skipped (self.nevents - self.index) self.index self.events (position self)
  stop = skip_lem (self.nevents - self.index) self.index self.events

  position_le : position self ≤ self.nevents
  position_le = let a = i.in_range in let b = stop.within in omega arith

  event_none :
      self.nevents ≤ position self
      → event self ≡ (failure eagain, none, record self { index = position self })
  unfolding event
  event_none l = ground (arith, l)

  pending-position :
      pending self ≡ reports (self.nevents - position self) (position self) self.events
  pending-position =
      let a = i.in_range in stop.same ∙ recount _ _ (position self) self.events (omega arith)

  pending_nil : self.nevents ≤ position self → pending self ≡ []
  pending_nil l = pending-position ∙ recount _ 0 (position self) self.events (omega arith)

  event-eagain : self.nevents ≤ position self → Reported self (event self)
  event-eagain l = rw (event_none l) (
      inl (
        refl,
        refl,
        pending_nil l,
        recount _ 0 (position self) self.events (omega arith),
        record { in_range = position_le },
      ))

  module _ (l : position self < self.nevents) where
    abbrev here : Event
    here = self.events (position self)

    event_in :
        here.mask.input ≡ true
        → event self
          ≡ (success, some (poller_in, here.hndl), change without_in (position self) self)
    unfolding event
    event_in a = ground (arith, l, a)

    event_out :
        here.mask.input ≡ false
        → here.mask.output ≡ true
        → event self
          ≡ (success, some (poller_out, here.hndl), change without_out (position self) self)
    unfolding event
    event_out a b = ground (arith, l, a, b)

    event_err :
        here.mask.input ≡ false
        → here.mask.output ≡ false
        → event self
          ≡ (success, some (poller_err, here.hndl), record self { index = position self + 1 })
    unfolding event
    event_err a b = ground (arith, l, a, b)

    abbrev rest : List (Kind × ℕ)
    rest = reports (self.nevents - (position self + 1)) (position self + 1) self.events

    pending_here : pending self ≡ reports_of here.hndl here.mask ++ rest
    pending_here =
        pending-position
        ∙ recount _ (suc (self.nevents - (position self + 1))) (position self) self.events
            (omega arith)

    -- What is pending with another mask at the position.
    pending-change :
        (f : Mask → Mask)
        → pending (change f (position self) self) ≡ reports_of here.hndl (f here.mask) ++ rest
    pending-change f =
        recount _ (suc (self.nevents - (position self + 1))) (position self) _ (omega arith)
        ∙ reports_changed (self.nevents - (position self + 1)) (position self) self.events _

    reported_in :
        here.mask.input ≡ true
        → reports_of here.hndl here.mask
          ≡ (poller_in, here.hndl) ∷ reports_of here.hndl (without_in here.mask)
    unfolding reports_of
    reported_in a = ground (arith, a)

    reported_out :
        here.mask.input ≡ false
        → here.mask.output ≡ true
        → reports_of here.hndl here.mask
          ≡ (poller_out, here.hndl) ∷ reports_of here.hndl (without_out here.mask)
    unfolding reports_of
    reported_out a b = ground (arith, a, b)

    reported_err :
        here.mask.input ≡ false
        → here.mask.output ≡ false
        → reports_of here.hndl here.mask ≡ (poller_err, here.hndl) ∷ []
    unfolding reports_of
    reported_err a b = let e = stop.found (omega arith) in ground (arith, a, b, e)

    event-some : Reported self (event self)
    event-some = elim (Bool-cases here.mask.input) [
      | inl a ↦ rw (event_in a) (
          inr (
            (poller_in, here.hndl),
            refl,
            refl,
            pending_here
                ∙ ap (λ x. x ++ rest) (reported_in a)
                ∙ ap (λ x. (poller_in, here.hndl) ∷ x) (sym (pending-change without_in)),
            record { in_range = position_le },
          ))
      | inr a ↦ elim (Bool-cases here.mask.output) [
        | inl b ↦ rw (event_out a b) (
            inr (
              (poller_out, here.hndl),
              refl,
              refl,
              pending_here
                  ∙ ap (λ x. x ++ rest) (reported_out a b)
                  ∙ ap (λ x. (poller_out, here.hndl) ∷ x) (sym (pending-change without_out)),
              record { in_range = position_le },
            ))
        | inr b ↦ rw (event_err a b) (
            inr (
              (poller_err, here.hndl),
              refl,
              refl,
              pending_here ∙ ap (λ x. x ++ rest) (reported_err a b),
              record { in_range = omega arith },
            ))
      ]
    ]

-- With an index that is not behind the number of events, nn_poller_event fails with EAGAIN exactly when no event
-- has a bit left; otherwise it returns the first of the reports to come, in the order of the array and for one
-- event reading before writing before an error, and the others are still to come.
pub event-Reported : (self : Poller) → IsPoller self → Reported self (event self)
event-Reported self i = elim (dec_le self.nevents (position self)) [
  | yes l ↦ event-eagain self i l
  | no l ↦ event-some self i (omega arith)
]
