-- ===== src/Timerset/Expiry.antt =====
-- src/aio/timerset.c: nn_timerset_rm, nn_timerset_timeout and nn_timerset_event.
use nanomsg_copy.Prelude.{
  ℕ, ◌⊎◌, inl, inr, Bool-cases, true, ltb, suc, ◌≡◌, ◌≤◌, ◌<◌, ◌+◌, ◌-◌, ◌%◌, ◌^◌, refl, Bool,
  false, Option, none, some, List, [], ◌∷◌, ◌++◌, has-append, Distinct, arith, returned, success,
  failure, Errno,
}
use nanomsg_copy.Prelude.Int.{pos, negsuc}
use nanomsg_copy.LinkedList.{not_in_list, at, Items, LinkedList, is_null, erase, same}
use nanomsg_copy.LinkedList.Segment.{first_or, last_or, Seg-split}
use nanomsg_copy.LinkedList.Erase.{linked_out, erase-IsList, linked_out_self}
use nanomsg_copy.Timerset.{Timerset, Hndls, rm, event, timeout_of, to_int}
use nanomsg_copy.Timerset.Order.{AtLeast, Sorted, IsTimerset, AtLeast-weaken}

AtLeast-remove :
    (t : ℕ → ℕ) (n h : ℕ) (xs ys : List ℕ) → AtLeast t n (xs ++ h ∷ ys) → AtLeast t n (xs ++ ys)
AtLeast-remove t n h [] ys a = a.1
AtLeast-remove t n h (x ∷ xs) ys a = (a.0, AtLeast-remove t n h xs ys a.1)

Sorted-remove : (t : ℕ → ℕ) (h : ℕ) (xs ys : List ℕ) → Sorted t (xs ++ h ∷ ys) → Sorted t (xs ++ ys)
Sorted-remove t h [] ys s = s.1
Sorted-remove t h (x ∷ xs) ys s = (AtLeast-remove t (t x) h xs ys s.0, Sorted-remove t h xs ys s.1)

rm-absent :
    (hndl : ℕ) (self : Timerset) (hndls : Hndls)
    → hndls.list.prev hndl ≡ not_in_list
    → rm hndl self hndls ≡ returned (false, self, hndls)
unfolding rm
rm-absent hndl self hndls e = rw e refl

rm-steps :
    (hndl : ℕ) (self : Timerset) (hndls : Hndls) (p n : Option ℕ) (timeouts : LinkedList)
    (items : Items) (first : Bool)
    → hndls.list.prev hndl ≡ at p
    → erase hndl self.timeouts hndls.list ≡ returned (n, timeouts, items)
    → same self.timeouts.first (some hndl) ≡ first
    → rm hndl self hndls
      ≡ returned (first, record { timeouts = timeouts }, record hndls { list = items })
unfolding rm
rm-steps hndl self hndls p n timeouts items first e k f = rw (e, k, f) refl

first-is_null :
    (h : ℕ) (xs ys : List ℕ)
    → Distinct (xs ++ h ∷ ys)
    → same (first_or (xs ++ h ∷ ys) none) (some h) ≡ is_null (first_or xs none)
first-is_null h [] ys d = ground arith
first-is_null h (x ∷ xs) ys d = ground (arith, d.0, has-append x xs (h ∷ ys))

-- The 32-bit difference of two times that are less than 2^31 apart.
difference :
    (t now : ℕ)
    → now < 2 ^ 64
    → t < 2 ^ 64
    → t < now + 2 ^ 31
    → now < t + 2 ^ 31
    → (elim (to_int ((t + 2 ^ 64 - now) % 2 ^ 64)) [ pos n ↦ pos n | negsuc n ↦ pos 0 ])
      ≡ pos (t - now)
difference t now b b' lo hi = ground arith

-- nn_timerset_rm takes a handle out of the set wherever it stands, keeps the order of the others and
-- the times of all, and returns 1 exactly where the handle was the first to expire. A second
-- nn_timerset_rm of it changes nothing and returns 0.
pub rm-IsTimerset :
    (hndl : ℕ) (xs ys : List ℕ) (self : Timerset) (hndls : Hndls)
    → IsTimerset (xs ++ hndl ∷ ys) self hndls
    → (self' : Timerset) × (hndls' : Hndls) × (rm hndl self hndls
        ≡ returned (is_null (first_or xs none), self', hndls'))
      × IsTimerset (xs ++ ys) self' hndls'
      × (hndls'.timeout ≡ hndls.timeout)
      × (rm hndl self' hndls' ≡ returned (false, self', hndls'))
rm-IsTimerset hndl xs ys self hndls h =
    let (timeouts, e, list, gone) = erase-IsList hndl xs ys self.timeouts hndls.list h.list in
    let (l, r) = Seg-split hndls.list none xs (hndl ∷ ys) none h.list.linked in
    (
      record { timeouts = timeouts },
      record hndls { list = linked_out hndl xs ys hndls.list },
      rm-steps hndl self hndls (last_or none xs) (first_or ys none) timeouts
          (linked_out hndl xs ys hndls.list) (is_null (first_or xs none)) r.0 e
          (rw h.list.first (first-is_null hndl xs ys h.list.distinct)),
      record { list = list; sorted = Sorted-remove hndls.timeout hndl xs ys h.sorted },
      refl,
      rm-absent hndl (record { timeouts = timeouts })
          (record hndls { list = linked_out hndl xs ys hndls.list })
          (linked_out_self hndl xs ys hndls.list),
    )

pub event-expired :
    (now x : ℕ) (xs : List ℕ) (self : Timerset) (hndls : Hndls)
    → IsTimerset (x ∷ xs) self hndls
    → hndls.timeout x ≤ now
    → (self' : Timerset) × (hndls' : Hndls) × (event now self hndls
        ≡ returned (success, some x, self', hndls'))
      × IsTimerset xs self' hndls'
      × AtLeast hndls'.timeout (hndls.timeout x) xs
      × (hndls'.timeout ≡ hndls.timeout)
unfolding event
event-expired now x xs self hndls h k =
    let (timeouts, e, list, gone) = erase-IsList x [] xs self.timeouts hndls.list h.list in
    (
      record { timeouts = timeouts },
      record hndls { list = linked_out x [] xs hndls.list },
      ground (arith, k, h.list.first, e),
      record { list = list; sorted = h.sorted.1 },
      h.sorted.0,
      refl,
    )

pub event_none :
    (now : ℕ) (self : Timerset) (hndls : Hndls)
    → IsTimerset [] self hndls
    → event now self hndls ≡ returned (failure Errno.eagain, none, self, hndls)
unfolding event
event_none now self hndls h = ground (arith, h.list.first)

pub event_waiting :
    (now x : ℕ) (xs : List ℕ) (self : Timerset) (hndls : Hndls)
    → IsTimerset (x ∷ xs) self hndls
    → ltb now (hndls.timeout x) ≡ true
    → event now self hndls ≡ returned (failure Errno.eagain, none, self, hndls)
unfolding event
event_waiting now x xs self hndls h e = ground (arith, e, h.list.first)

-- nn_timerset_event on both branches, over the handles in order of expiry: either it answers -EAGAIN and
-- changes nothing, and then no handle of the set has expired, or it takes out the first handle,
-- which has expired and which no other handle of the set precedes, and the others stay in their order.
pub event-IsTimerset :
    (now : ℕ) (xs : List ℕ) (self : Timerset) (hndls : Hndls)
    → IsTimerset xs self hndls
    → ((event now self hndls ≡ returned (failure Errno.eagain, none, self, hndls))
        × AtLeast hndls.timeout (suc now) xs)
      ⊎ ((x : ℕ) × (ys : List ℕ) × (self' : Timerset) × (hndls' : Hndls) × (event now self hndls
            ≡ returned (success, some x, self', hndls'))
          × (xs ≡ x ∷ ys)
          × (hndls.timeout x ≤ now)
          × IsTimerset ys self' hndls'
          × AtLeast hndls'.timeout (hndls.timeout x) ys)
event-IsTimerset now [] self hndls h = inl (event_none now self hndls h, tt)
event-IsTimerset now (x ∷ xs) self hndls h = elim (Bool-cases (ltb now (hndls.timeout x))) [
  | inl e ↦
      let lt : now < hndls.timeout x = ground (arith, e) in
      inl (
        event_waiting now x xs self hndls h e,
        (lt, AtLeast-weaken hndls.timeout (hndls.timeout x) (suc now) xs lt h.sorted.0),
      )
  | inr e ↦
      let le : hndls.timeout x ≤ now = ground (arith, e) in
      let (self', hndls', call, rest, first, times) = event-expired now x xs self hndls h le in
      inr (x, xs, self', hndls', call, refl, le, rest, first)
]

-- Where the first handle expires, or has expired, within 2^31 milliseconds of now, nn_timerset_timeout
-- is the time until it expires, 0 if it has expired; and nn_timerset_event, called that many
-- milliseconds later, finds that handle and takes it out.
pub timeout_of-event :
    (now x : ℕ) (xs : List ℕ) (self : Timerset) (hndls : Hndls)
    → IsTimerset (x ∷ xs) self hndls
    → now < 2 ^ 64
    → hndls.timeout x < 2 ^ 64
    → hndls.timeout x < now + 2 ^ 31
    → now < hndls.timeout x + 2 ^ 31
    → (timeout_of now self hndls ≡ pos (hndls.timeout x - now))
      × (self' : Timerset) × (hndls' : Hndls) × (event (now + (hndls.timeout x - now)) self hndls
          ≡ returned (success, some x, self', hndls'))
      × IsTimerset xs self' hndls'
unfolding timeout_of
timeout_of-event now x xs self hndls h b b' lo hi =
    let (self', hndls', call, rest, first, times) =
      event-expired (now + (hndls.timeout x - now)) x xs self hndls h (omega arith) in
    (
      ground (h.list.first, difference (hndls.timeout x) now b b' lo hi, arith),
      self',
      hndls',
      call,
      rest,
    )
