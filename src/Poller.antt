-- ===== src/Poller.antt =====
-- src/aio/poller_epoll.inc and poller_epoll.h: events of file descriptors, by Linux's epoll. The calls of
-- epoll_ctl are results; what epoll_wait answers is a parameter.
pub mod Pending
pub mod Reports
pub mod Drain
pub mod Clearing
mod Tests
use nanomsg_copy.Prelude.{
  ℕ, zero, suc, ◌+◌, ◌-◌, Bool, true, false, not, ◌&&◌, ◌||◌, Option, none, some, List, [], ◌∷◌,
  get_or, Errno, eagain, eintr, Rc, success, failure, Outcome, returned, abort, undefined, ◌>>=◌,
  ◌>>◌, assert, if◌then◌else◌, ◌==◌, ltb, leb, update,
}

-- A mask of events: EPOLLIN, EPOLLOUT, and whether any other bit is set.
pub record Mask : Type 0 where
  pub input : Bool
  pub output : Bool
  pub other : Bool

-- struct epoll_event, with the handle that data.ptr points to.
pub record Event : Type 0 where
  pub hndl : ℕ
  pub mask : Mask

-- struct nn_poller_hndl
pub record Hndl : Type 0 where
  pub fd : ℕ
  pub events : Mask

-- The calls of epoll_ctl: EPOLL_CTL_ADD, EPOLL_CTL_DEL and EPOLL_CTL_MOD, with the mask and the handle.
pub data Ctl : Type 0 where
  ctl_add ctl_mod : ℕ → Mask → ℕ → Ctl
  ctl_del : ℕ → Ctl

-- The members index, nevents and events; ep is a descriptor that nothing else uses.
pub record Poller : Type 0 where
  pub nevents : ℕ
  pub index : ℕ
  pub events : ℕ → Event

-- The handles that a poller is given, by their address.
abbrev pub Hndls : Type 0
Hndls = ℕ → Hndl

abbrev pub Result : Type 0
Result = Outcome (List Ctl × Poller × Hndls)

abbrev pub no_events : Mask
no_events = record { input = false; output = false; other = false }

abbrev pub is_set : Mask → Bool
is_set m = m.input || m.output || m.other

-- nn_poller_init, for the answer of epoll_create1: whether it is a descriptor, and otherwise whether errno is
-- ENFILE or EMFILE. Some has the poller, and none is -EMFILE.
pub init : Bool → Bool → (ℕ → Event) → Outcome (Option Poller)
init created too_many memory =
    if created
    then returned (some (record { nevents = 0; index = 0; events = memory }))
    else do assert too_many; returned none

-- nn_poller_add takes its fd as a parameter here: the definition uses one that it does not declare.
pub add : ℕ → ℕ → Poller → Hndls → List Ctl × Poller × Hndls
add fd hndl self hndls = (
  ctl_add fd no_events hndl ∷ [],
  self,
  update hndls hndl (record { fd = fd; events = no_events }),
)

-- The loop from index to nevents that changes the masks of the handle's events; i is counted up to be equal to
-- nevents.
abbrev pub each : ℕ → ℕ → ℕ → (Mask → Mask) → (ℕ → Event) → ℕ → Event
each zero i hndl f events = events
each (suc n) i hndl f events =
    let e = events i in
    each n (i + 1) hndl f
      (if e.hndl == hndl then update events i (record e { mask = f e.mask }) else events)

abbrev pub clear_events : ℕ → (Mask → Mask) → Poller → Outcome Poller
clear_events hndl f self =
    if ltb self.nevents self.index
    then undefined
    else returned
        (record self { events = each (self.nevents - self.index) self.index hndl f self.events })

pub rm : ℕ → Poller → Hndls → Result
rm hndl self hndls = do
  self' ← clear_events hndl (λ m. no_events) self
  returned (ctl_del (hndls hndl).fd ∷ [], self', hndls)

-- hndl->events is changed, and epoll_ctl is told.
abbrev modified : ℕ → Mask → Poller → Hndls → List Ctl × Poller × Hndls
modified hndl m self hndls =
    let h = hndls hndl in
    (ctl_mod h.fd m hndl ∷ [], self, update hndls hndl (record h { events = m }))

pub set_in : ℕ → Poller → Hndls → List Ctl × Poller × Hndls
set_in hndl self hndls =
    let m = (hndls hndl).events in
    if m.input then ([], self, hndls) else modified hndl (record m { input = true }) self hndls

pub set_out : ℕ → Poller → Hndls → List Ctl × Poller × Hndls
set_out hndl self hndls =
    let m = (hndls hndl).events in
    if m.output then ([], self, hndls) else modified hndl (record m { output = true }) self hndls

abbrev pub without_in : Mask → Mask
without_in m = record m { input = false }

abbrev pub without_out : Mask → Mask
without_out m = record m { output = false }

-- The body of nn_poller_reset_in and nn_poller_reset_out, for the bit that `without` clears.
abbrev pub reset : (Mask → Mask) → ℕ → Poller → Hndls → Result
reset without hndl self hndls = do
  self' ← clear_events hndl without self
  returned (modified hndl (without (hndls hndl).events) self' hndls)

pub reset_in : ℕ → Poller → Hndls → Result
reset_in hndl self hndls =
    if not (hndls hndl).events.input
    then returned ([], self, hndls)
    else reset without_in hndl self hndls

pub reset_out : ℕ → Poller → Hndls → Result
reset_out hndl self hndls =
    if not (hndls hndl).events.output
    then returned ([], self, hndls)
    else reset without_out hndl self hndls

-- What a call of epoll_wait answers: the events, -1 with EINTR, or -1 with another errno.
pub data Wait : Type 0 where
  ready : ℕ → (ℕ → Event) → Wait
  interrupted failed : Wait

-- nn_poller_wait, for the answers of epoll_wait in turn. The assertion is about self->nevents, which is 0 at
-- that place, so that the -1 of a failed call is stored: `negative`, a poller outside of this model.
pub data Waited : Type 0 where
  filled : Poller → Waited
  negative : Waited

pub wait : List Wait → Poller → Outcome Waited
wait [] self = Outcome.out_of_fuel
wait (interrupted ∷ answers) self = wait answers self
wait (failed ∷ answers) self = returned negative
wait (ready n events ∷ answers) self =
    returned (filled (record { nevents = n; index = 0; events = events }))

-- NN_POLLER_IN, NN_POLLER_OUT and NN_POLLER_ERR
pub data Kind : Type 0 where
  poller_in poller_out poller_err : Kind

-- The loop that passes over events without a bit; n of them are left.
abbrev pub skip : ℕ → ℕ → (ℕ → Event) → ℕ
skip zero i events = i
skip (suc n) i events = if is_set (events i).mask then i else skip n (i + 1) events

abbrev pub change : (Mask → Mask) → ℕ → Poller → Poller
change f i self =
    let e = self.events i in
    record self { events = update self.events i (record e { mask = f e.mask }); index = i }

-- nn_poller_event, with *event and *hndl as results.
pub event : Poller → Rc × Option (Kind × ℕ) × Poller
event self =
    let i = skip (self.nevents - self.index) self.index self.events in
    if leb self.nevents i
    then (failure eagain, none, record self { index = i })
    else let e = self.events i in
      if e.mask.input
      then (success, some (poller_in, e.hndl), change without_in i self)
      else if e.mask.output
      then (success, some (poller_out, e.hndl), change without_out i self)
      else (success, some (poller_err, e.hndl), record self { index = i + 1 })
