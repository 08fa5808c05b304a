-- ===== src/Sock/Events.antt =====
-- nn_sock_onleave of src/core/sock.c (spelled nn_sock_onleae there): when the lock of a socket is
-- left, its two descriptors are made to signal what its protocol can do. An eventfd is signalled by a
-- write and unsignalled by a read, which fails its assertion when nothing was written
-- (src/utils/efd_eventfd.inc).
mod Tests
use nanomsg_copy.Prelude.{
  ◌≡◌, refl, sym, ◌∙◌, Bool, true, false, Option, none, some, if◌then◌else◌, Outcome, returned,
  ◌>>=◌, ◌>>◌, assert, arith, Bool-cases, inl, inr,
}
use nanomsg_copy.Sock.{Sock, State, Protocol}

-- nn_efd_signal and nn_efd_unsignal, as what the descriptor signals.
pub signal : Bool → Outcome Bool
signal fd = returned true

pub unsignal : Bool → Outcome Bool
unsignal fd = assert fd >> returned false

-- A flag and its descriptor after an event is on or off.
pub follow : Bool → Bool → Bool → Outcome (Bool × Bool)
unfolding signal unsignal
follow true true fd = returned (true, fd)
follow true false fd = signal fd >>= λ fd. returned (true, fd)
follow false true fd = unsignal fd >>= λ fd. returned (false, fd)
follow false false fd = returned (false, fd)

-- The two directions; a direction that the socket type lacks has no descriptor.
pub direction : Bool → Bool → Bool → Bool → Outcome (Bool × Bool)
unfolding follow
direction lacking event flag fd = if lacking then returned (flag, fd) else follow event flag fd

module _ {S O Msg : Type 0} (vfptr : Protocol S Msg) where
  refresh : Bool × Bool → Sock S O → Outcome (Sock S O)
  refresh events self = do
    r ← direction self.socktype.no_recv events.0 self.flag_in self.rcvfd
    s ← direction self.socktype.no_send events.1 self.flag_out self.sndfd
    returned (record self { flag_in = r.0; rcvfd = r.1; flag_out = s.0; sndfd = s.1 })

  pub onleave : Sock S O → Outcome (Sock S O)
  onleave self = elim self.state [
    | State.active ↦ elim (vfptr.events self.sockbase) [
      | none ↦ Outcome.abort
      | some events ↦ refresh events self
    ]
    | _ ↦ returned self
  ]

-- A flag says what its descriptor signals.
abbrev pub InStep : {S O : Type 0} → Sock S O → Type 0
InStep self =
    (self.socktype.no_recv ≡ false → self.flag_in ≡ self.rcvfd)
    × (self.socktype.no_send ≡ false → self.flag_out ≡ self.sndfd)

direction-fd :
    (lacking event flag fd : Bool)
    → (lacking ≡ false → flag ≡ fd)
    → (out : Bool × Bool) × (direction lacking event flag fd ≡ returned out)
      × (lacking ≡ false → (out.0 ≡ event) × (out.1 ≡ event))
unfolding direction follow signal unsignal
direction-fd true event flag fd h = ((flag, fd), refl, λ e. cc)
direction-fd false true true fd h = ((true, fd), refl, λ e. ground (arith, h refl))
direction-fd false true false fd h = ((true, true), refl, λ e. (refl, refl))
direction-fd false false true fd h = ((false, false), ground (arith, h refl), λ e. (refl, refl))
direction-fd false false false fd h = ((false, fd), refl, λ e. ground (arith, h refl))

module _ {S O Msg : Type 0} (vfptr : Protocol S Msg) where
  onleave-refresh :
      (self : Sock S O) {events : Bool × Bool}
      → self.state ≡ State.active
      → vfptr.events self.sockbase ≡ some events
      → onleave vfptr self ≡ refresh vfptr events self
  unfolding onleave
  onleave-refresh self st ev = ground (arith, st, ev)

  -- The flags and descriptors that nn_sock_onleave leaves; it touches nothing else.
  pub onleave-fields :
      (self : Sock S O) {events : Bool × Bool}
      → self.state ≡ State.active
      → vfptr.events self.sockbase ≡ some events
      → InStep self
      → (flag_in rcvfd flag_out sndfd : Bool) × (onleave vfptr self
          ≡ returned (record self {
            flag_in = flag_in;
            rcvfd = rcvfd;
            flag_out = flag_out;
            sndfd = sndfd;
          }))
        × (self.socktype.no_recv ≡ false → (flag_in ≡ events.0) × (rcvfd ≡ events.0))
        × (self.socktype.no_send ≡ false → (flag_out ≡ events.1) × (sndfd ≡ events.1))
  unfolding refresh
  onleave-fields self {events} st ev h =
      let (r, er, hr) = direction-fd self.socktype.no_recv events.0 self.flag_in self.rcvfd h.0 in
      let (s, es, hs) = direction-fd self.socktype.no_send events.1 self.flag_out self.sndfd h.1 in
      (r.0, r.1, s.0, s.1, onleave-refresh self st ev ∙ simp (er, es), hr, hs)

  -- On an active socket whose flags are in step with its descriptors, nn_sock_onleave passes all
  -- assertions, and after it each direction that the socket type has is flagged, and signalled, just
  -- when the protocol reports the event.
  pub onleave-signals :
      (self : Sock S O) {events : Bool × Bool}
      → self.state ≡ State.active
      → vfptr.events self.sockbase ≡ some events
      → InStep self
      → (after : Sock S O) × (onleave vfptr self ≡ returned after)
        × InStep after
        × (self.socktype.no_recv ≡ false → after.rcvfd ≡ events.0)
        × (self.socktype.no_send ≡ false → after.sndfd ≡ events.1)
  onleave-signals self {events} st ev h =
      let (i, r, o, s, e, hr, hs) = onleave-fields self st ev h in
      (
        record self { flag_in = i; rcvfd = r; flag_out = o; sndfd = s },
        e,
        ((λ k. (hr k).0 ∙ sym (hr k).1), (λ k. (hs k).0 ∙ sym (hs k).1)),
        (λ k. (hr k).1),
        (λ k. (hs k).1),
      )
