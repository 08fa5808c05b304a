-- ===== src/Timerset/Operations.antt =====
-- The operations of src/aio/timerset.c on the sequence of handles.
use nanomsg_copy.Prelude.{
  ℕ, ◌≡◌, ◌≤◌, ◌+◌, ◌%◌, ◌^◌, refl, ap, Bool, Option, none, List, ◌∷◌, ◌++◌, length, update,
  update_self, returned,
}
use nanomsg_copy.Prelude.Int.{ℤ}
use nanomsg_copy.LinkedList.{not_in_list, Items, LinkedList, insert, is_null, same}
use nanomsg_copy.LinkedList.Segment.{first_or, Seg-has, IsList}
use nanomsg_copy.LinkedList.Insert.{linked_in, insert-IsList}
use nanomsg_copy.Timerset.{Timerset, Hndls, scan, add, to_uint64}
use nanomsg_copy.Timerset.Order.{
  earlier, later, IsTimerset, earlier-later, Sorted-insert, Sorted-update, scan-lem, first-later,
}

-- nn_timerset_add from the results of its loop and of nn_list_insert.
add-steps :
    (fuel now : ℕ) (timeout : ℤ) (hndl : ℕ) (self : Timerset) (hndls : Hndls) (it : Option ℕ)
    (timeouts : LinkedList) (items : Items) (first : Bool)
    → let d = (now + to_uint64 timeout) % 2 ^ 64 in
      let hndls1 : Hndls = record hndls { timeout = update hndls.timeout hndl d } in
      scan fuel d self.timeouts.first hndls1 ≡ returned it
      → insert hndl it self.timeouts hndls.list ≡ returned (timeouts, items)
      → same self.timeouts.first it ≡ first
      → add fuel now timeout hndl self hndls
        ≡ returned (first, record { timeouts = timeouts }, record hndls1 { list = items })
unfolding add
add-steps fuel now timeout hndl self hndls it timeouts items first k m f = rw (k, m, f) refl

-- nn_timerset_add of a handle that is in no list, with as many rounds as there are handles: it sets
-- the handle's time of expiry, (now + timeout) modulo 2^64, puts it behind all handles that do not
-- expire after it and in front of all others, keeps the order of expiry, and returns 1 exactly where
-- no handle stands in front of it, so that the caller has to set its poll timeout again.
pub add-IsTimerset :
    (fuel now : ℕ) (timeout : ℤ) (hndl : ℕ) (xs : List ℕ) (self : Timerset) (hndls : Hndls)
    → IsTimerset xs self hndls
    → hndls.list.prev hndl ≡ not_in_list
    → length xs ≤ fuel
    → let d = (now + to_uint64 timeout) % 2 ^ 64 in
      let t = update hndls.timeout hndl d in
      (self' : Timerset) × (hndls' : Hndls) × (add fuel now timeout hndl self hndls
        ≡ returned (is_null (first_or (earlier t d xs) none), self', hndls'))
      × IsTimerset (earlier t d xs ++ hndl ∷ later t d xs) self' hndls'
      × (earlier t d xs ++ later t d xs ≡ xs)
      × (hndls'.timeout ≡ t)
unfolding add
add-IsTimerset fuel now timeout hndl xs self hndls h free rounds =
    let d = (now + to_uint64 timeout) % 2 ^ 64 in
    let t = update hndls.timeout hndl d in
    let hndls1 : Hndls = record hndls { timeout = t } in
    let absent = Seg-has hndls.list none xs none hndl h.list.linked free in
    let all = earlier-later t d xs in
    let list : IsList (earlier t d xs ++ later t d xs) self.timeouts hndls.list = rw all h.list in
    let (timeouts, inserted, list') =
      insert-IsList hndl (earlier t d xs) (later t d xs) self.timeouts hndls.list list free in
    let hndls2 : Hndls = record hndls1 {
      list = linked_in hndl (earlier t d xs) (later t d xs) hndls.list;
    } in
    let t_self = update_self hndls.timeout hndl d in
    (
      record self { timeouts = timeouts },
      hndls2,
      add-steps fuel now timeout hndl self hndls (first_or (later t d xs) none) timeouts hndls2.list
          (is_null (first_or (earlier t d xs) none))
          (rw h.list.first (scan-lem fuel d hndls1 none xs rounds h.list.linked)) inserted
          (rw h.list.first (first-later t d xs h.list.distinct)),
      record {
        list = list';
        sorted =
            rw (← ap (λ (n : ℕ). earlier t n xs ++ hndl ∷ later t n xs) t_self)
              (Sorted-insert t hndl xs (Sorted-update hndls.timeout hndl d xs absent h.sorted));
      },
      all,
      refl,
    )
