-- ===== src/Poller/Pending.antt =====
-- src/aio/poller_epoll.inc: the reports that the masks of epoll_wait stand for, and the loop of
-- nn_poller_event over events without a bit.
use nanomsg_copy.Prelude.{
  ℕ, zero, suc, ◌+◌, ◌-◌, ◌≤◌, ◌<◌, ◌≡◌, refl, ap, ◌∙◌, inl, inr, true, false, Bool-cases, List, [],
  ◌∷◌, ◌++◌, if◌then◌else◌, arith, update, update_self,
}
use nanomsg_copy.Poller.{Mask, Event, Poller, Kind, poller_in, poller_out, poller_err, is_set, skip}

-- What is to be reported of an event: reading, writing, and an error for any other bit, in this order.
unfoldable pub reports_of : ℕ → Mask → List (Kind × ℕ)
reports_of h m =
    (if m.input then (poller_in, h) ∷ [] else [])
    ++ (if m.output then (poller_out, h) ∷ [] else [])
    ++ (if m.other then (poller_err, h) ∷ [] else [])

-- n events from position i on.
abbrev pub reports : ℕ → ℕ → (ℕ → Event) → List (Kind × ℕ)
reports zero i events = []
reports (suc n) i events = reports_of (events i).hndl (events i).mask ++ reports n (i + 1) events

pub recount : (n k i : ℕ) (events : ℕ → Event) → n ≡ k → reports n i events ≡ reports k i events
recount n k i events e = ap (λ x. reports x i events) e

-- The reports that are still to come.
abbrev pub pending : Poller → List (Kind × ℕ)
pending self = reports (self.nevents - self.index) self.index self.events

pub record IsPoller (self : Poller) : Type 0 where
  pub in_range : self.index ≤ self.nevents

pub reports_ahead :
    (n i j : ℕ) (events : ℕ → Event) (e : Event)
    → j < i
    → reports n i (update events j e) ≡ reports n i events
reports_ahead zero i j events e l = refl
reports_ahead (suc n) i j events e l =
    rw (reports_ahead n (i + 1) j events e (omega arith)) (ground arith)

pub reports_changed :
    (n i : ℕ) (events : ℕ → Event) (e : Event)
    → reports (suc n) i (update events i e) ≡ reports_of e.hndl e.mask ++ reports n (i + 1) events
reports_changed n i events e =
    rw (update_self events i e, reports_ahead n (i + 1) i events e (omega arith)) refl

-- Where the loop over events without a bit stops.
pub record Skipped (n i : ℕ) (events : ℕ → Event) (j : ℕ) : Type 0 where
  pub after : i ≤ j
  pub within : j ≤ i + n
  pub same : reports n i events ≡ reports (i + n - j) j events
  pub found : j < i + n → is_set (events j).mask ≡ true

reports_of_none : (h : ℕ) (m : Mask) → is_set m ≡ false → reports_of h m ≡ []
unfolding reports_of
reports_of_none h m e = ground arith

skip_stop :
    (n i : ℕ) (events : ℕ → Event) → is_set (events i).mask ≡ true → Skipped (suc n) i events i
skip_stop n i events e = record {
  after = omega arith;
  within = omega arith;
  same = recount (suc n) _ i events (omega arith);
  found = λ l. e;
}

skip_on :
    (n i j : ℕ) (events : ℕ → Event)
    → is_set (events i).mask ≡ false
    → Skipped n (i + 1) events j
    → Skipped (suc n) i events j
skip_on n i j events e s =
    let a = s.after in
    let w = s.within in
    record {
      after = omega arith;
      within = omega arith;
      same =
          ap (λ r. r ++ reports n (i + 1) events) (reports_of_none _ _ e)
          ∙ s.same
          ∙ recount _ _ j events (omega arith);
      found = λ l. s.found (omega arith);
    }

pub skip_lem : (n i : ℕ) (events : ℕ → Event) → Skipped n i events (skip n i events)
skip_lem zero i events = record {
  after = omega arith;
  within = omega arith;
  same = recount 0 _ i events (omega arith);
  found = λ l. absurd (omega arith);
}
skip_lem (suc n) i events = elim (Bool-cases (is_set (events i).mask)) [
  | inl e ↦ rw e (skip_stop n i events e)
  | inr e ↦ rw e (skip_on n i _ events e (skip_lem n (i + 1) events))
]
