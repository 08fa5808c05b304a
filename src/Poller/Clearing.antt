-- ===== src/Poller/Clearing.antt =====
-- src/aio/poller_epoll.inc: what nn_poller_rm, nn_poller_reset_in and nn_poller_reset_out take away from the
-- reports to come.
use nanomsg_copy.Prelude.{
  ℕ, zero, suc, ◌+◌, ◌-◌, ◌<◌, ◌≡◌, refl, sym, ◌∙◌, Bool, Bool-cases, inl, inr, true, false, not,
  ◌&&◌, List, [], ◌∷◌, ◌++◌, Outcome, returned, arith, if◌then◌else◌, ◌==◌, update, update_self,
}
use nanomsg_copy.Poller.Pending.{reports_of, reports, pending, IsPoller, reports_ahead}
use nanomsg_copy.Poller.{
  Mask, Event, Hndls, Poller, Kind, Ctl, ctl_del, ctl_mod, poller_in, poller_out, no_events,
  without_in, without_out, each, clear_events, rm, reset_in, reset_out,
}

-- The reports that satisfy a test.
abbrev pub keep : (Kind × ℕ → Bool) → List (Kind × ℕ) → List (Kind × ℕ)
keep p [] = []
keep p (r ∷ rs) = if p r then r ∷ keep p rs else keep p rs

keep-append :
    (p : Kind × ℕ → Bool) (xs ys : List (Kind × ℕ)) → keep p (xs ++ ys) ≡ keep p xs ++ keep p ys
keep-append p [] ys = refl
keep-append p (x ∷ xs) ys = ground (arith, keep-append p xs ys)

each_behind :
    (n i : ℕ) (hndl : ℕ) (f : Mask → Mask) (events : ℕ → Event) (j : ℕ)
    → j < i
    → each n i hndl f events j ≡ events j
each_behind zero i hndl f events j l = refl
each_behind (suc n) i hndl f events j l =
    each_behind n (i + 1) hndl f _ j (omega arith) ∙ ground arith

-- A test fits a change of the masks of a handle.
pub record Fits (hndl : ℕ) (f : Mask → Mask) (p : Kind × ℕ → Bool) : Type 0 where
  changed : (m : Mask) → reports_of hndl (f m) ≡ keep p (reports_of hndl m)
  others : (h : ℕ) (m : Mask) → (h == hndl) ≡ false → reports_of h m ≡ keep p (reports_of h m)

module _ {hndl : ℕ} {f : Mask → Mask} {p : Kind × ℕ → Bool} (fits : Fits hndl f p) where
  -- The event of the first position, changed or not.
  abbrev first_changed : ℕ → (ℕ → Event) → ℕ → Event
  first_changed i events =
      let e = events i in
      if e.hndl == hndl then update events i (record e { mask = f e.mask }) else events

  first-kept :
      (i : ℕ) (events : ℕ → Event)
      → reports_of (first_changed i events i).hndl (first_changed i events i).mask
        ≡ keep p (reports_of (events i).hndl (events i).mask)
  first-kept i events = elim (Bool-cases ((events i).hndl == hndl)) [
    | inl t ↦
        let s : (events i).hndl ≡ hndl = ground (arith, t) in
        rw
          (t, update_self events i (record { hndl = (events i).hndl; mask = f (events i).mask }), s)
          (fits.changed (events i).mask)
    | inr t ↦ rw t (fits.others (events i).hndl (events i).mask t)
  ]

  first-rest :
      (n i : ℕ) (events : ℕ → Event)
      → reports n (i + 1) (first_changed i events) ≡ reports n (i + 1) events
  first-rest n i events = elim (Bool-cases ((events i).hndl == hndl)) [
    | inl t ↦ rw t (reports_ahead n (i + 1) i events _ (omega arith))
    | inr t ↦ rw t refl
  ]

  reports-each :
      (n i : ℕ) (events : ℕ → Event)
      → reports n i (each n i hndl f events) ≡ keep p (reports n i events)
  reports-each zero i events = refl
  reports-each (suc n) i events =
      rw
        (
          each_behind n (i + 1) hndl f (first_changed i events) i (omega arith),
          first-kept i events,
          reports-each n (i + 1) (first_changed i events),
          first-rest n i events,
        )
        (sym
          (keep-append p (reports_of (events i).hndl (events i).mask) (reports n (i + 1) events)))

  pub clear_events-keep :
      (self : Poller)
      → IsPoller self
      → (self' : Poller) × (clear_events hndl f self ≡ returned self')
        × (pending self' ≡ keep p (pending self))
        × IsPoller self'
  clear_events-keep self i =
      let a = i.in_range in
      (
        record self { events = each (self.nevents - self.index) self.index hndl f self.events },
        ground arith,
        reports-each _ self.index self.events,
        record { in_range = a },
      )

-- Reports of other handles than the given one, and those that are not of the given kind for it.
abbrev pub not_of : ℕ → Kind × ℕ → Bool
not_of hndl (k, h) = not (h == hndl)

abbrev is_in : Kind → Bool
is_in poller_in = true
is_in _ = false

abbrev is_out : Kind → Bool
is_out poller_out = true
is_out _ = false

abbrev pub not_in_of : ℕ → Kind × ℕ → Bool
not_in_of hndl (k, h) = not (is_in k && (h == hndl))

abbrev pub not_out_of : ℕ → Kind × ℕ → Bool
not_out_of hndl (k, h) = not (is_out k && (h == hndl))

no_events-Fits : (hndl : ℕ) → Fits hndl (λ m. no_events) (not_of hndl)
unfolding reports_of
no_events-Fits hndl = record { changed = λ m. ground arith; others = λ h m e. ground (arith, e) }

without_in-Fits : (hndl : ℕ) → Fits hndl without_in (not_in_of hndl)
unfolding reports_of
without_in-Fits hndl = record { changed = λ m. ground arith; others = λ h m e. ground (arith, e) }

without_out-Fits : (hndl : ℕ) → Fits hndl without_out (not_out_of hndl)
unfolding reports_of
without_out-Fits hndl = record { changed = λ m. ground arith; others = λ h m e. ground (arith, e) }

-- With an index that is not behind the number of events: nn_poller_rm asks epoll to forget the descriptor, and of
-- the reports to come it takes away those of the handle and no others.
pub rm-pending :
    (hndl : ℕ) (self : Poller) (hndls : Hndls)
    → IsPoller self
    → (self' : Poller) × (rm hndl self hndls
        ≡ returned (ctl_del (hndls hndl).fd ∷ [], self', hndls))
      × (pending self' ≡ keep (not_of hndl) (pending self))
      × IsPoller self'
unfolding rm
rm-pending hndl self hndls i =
    let (self', e, k, j) = clear_events-keep (no_events-Fits hndl) self i in
    (self', rw e refl, k, j)

-- What a reset gives: the new mask in the handle and in a call of epoll_ctl, and the reports that a test keeps.
abbrev pub IsReset :
    ℕ → Poller → Hndls → Mask → (Kind × ℕ → Bool) → Outcome (List Ctl × Poller × Hndls) → Type 0
IsReset hndl self hndls m p out =
    (self' : Poller) × (out
      ≡ returned (
        ctl_mod (hndls hndl).fd m hndl ∷ [],
        self',
        update hndls hndl (record { fd = (hndls hndl).fd; events = m }),
      ))
    × (pending self' ≡ keep p (pending self))
    × IsPoller self'

-- With an index that is not behind the number of events and a handle that waits for both: nn_poller_reset_in and
-- nn_poller_reset_out clear their bit in the handle and tell epoll, and of the reports to come they take away
-- those of reading, or of writing, for the handle and no others.
pub reset_in-IsReset :
    (hndl : ℕ) (self : Poller) (hndls : Hndls)
    → IsPoller self
    → (hndls hndl).events.input ≡ true
    → (hndls hndl).events.output ≡ true
    → IsReset hndl self hndls
        (without_in (hndls hndl).events)
        (not_in_of hndl)
        (reset_in hndl self hndls)
      × IsReset hndl self hndls
          (without_out (hndls hndl).events)
          (not_out_of hndl)
          (reset_out hndl self hndls)
unfolding reset_in reset_out
reset_in-IsReset hndl self hndls i a b =
    let (self', e, k, j) = clear_events-keep (without_in-Fits hndl) self i in
    let (self2, e2, k2, j2) = clear_events-keep (without_out-Fits hndl) self i in
    ((self', rw (a, e) refl, k, j), (self2, rw (b, e2) refl, k2, j2))
