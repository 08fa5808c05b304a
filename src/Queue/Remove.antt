-- ===== src/Queue/Remove.antt =====
-- nn_queue_remove on the list of queued items.
use mathlib.Core.List.{append-nil, append_assoc}
use nanomsg_copy.Prelude.{
  ℕ, zero, suc, ◌≡◌, ◌<◌, refl, sym, ◌∙◌, ◌≢◌, true, false, Option, none, some, List, [], ◌∷◌, ◌++◌,
  update, has, Distinct, first, length, inl, inr, if◌then◌else◌, ◌==◌, Bool-cases, ==_iff, last,
  erase, last-some, has-last, has-append, last-append_one, Distinct-erase, has-ne, update_ne,
  update_self, returned, arith,
}
use nanomsg_copy.Queue.{
  not_in_queue, next, Links, Queue, is_not_in_queue, set_next, unlink, remove, is_item,
}
use nanomsg_copy.Queue.Chain.{Linked, IsQueue, Linked-update, has-Linked}

-- The link behind the items `pre`.
Linked-middle :
    (links : Links) (pre : List ℕ) (x : ℕ) (rest : List ℕ)
    → Linked links (pre ++ x ∷ rest)
    → links x ≡ next (first rest)
Linked-middle links [] x rest l = l.0
Linked-middle links (p ∷ pre) x rest l = Linked-middle links pre x rest l.1

Distinct-middle :
    (pre : List ℕ) (x : ℕ) (rest : List ℕ) → Distinct (pre ++ x ∷ rest) → has x rest ≡ false
Distinct-middle [] x rest d = d.0
Distinct-middle (p ∷ pre) x rest d = Distinct-middle pre x rest d.1

erase-middle :
    (pre : List ℕ) (x : ℕ) (rest : List ℕ)
    → has x pre ≡ false
    → erase x (pre ++ x ∷ rest) ≡ pre ++ rest
erase-middle [] x rest h = ground arith
erase-middle (p ∷ pre) x rest h = ground (arith, erase-middle pre x rest)

-- The memory after `x` is spliced out from between `pre` and `rest`.
abbrev spliced : List ℕ → ℕ → List ℕ → Links → Links
spliced pre x rest links = update (set_next (last pre) (next (first rest)) links) x not_in_queue

-- Nothing changes outside `pre` and `x`.
spliced_same :
    (pre : List ℕ) (x : ℕ) (rest : List ℕ) (links : Links) (p : ℕ)
    → has p pre ≡ false
    → x ≢ p
    → spliced pre x rest links p ≡ links p
unfolding set_next
spliced_same [] x rest links p h ne = update_ne links x not_in_queue p ne
spliced_same (y ∷ ys) x rest links p h ne =
    let (t, e) = last-some y ys in
    update_ne (set_next (last (y ∷ ys)) (next (first rest)) links) x not_in_queue p ne
    ∙ rw (e, set_next)
        (update_ne links t (next (first rest)) p (has-ne t p (y ∷ ys) (has-last (y ∷ ys) t e) h))

spliced_head :
    (p q : ℕ) (pre : List ℕ) (x : ℕ) (rest : List ℕ) (links : Links)
    → has p (q ∷ pre) ≡ false
    → x ≢ p
    → spliced (p ∷ q ∷ pre) x rest links p ≡ links p
spliced_head p q pre x rest links h ne = spliced_same (q ∷ pre) x rest links p h ne

Linked-spliced :
    (pre : List ℕ) (x : ℕ) (rest : List ℕ) (links : Links)
    → Linked links (pre ++ x ∷ rest)
    → Distinct (pre ++ x ∷ rest)
    → Linked (spliced pre x rest links) (pre ++ rest)
unfolding set_next
Linked-spliced [] x rest links l d = Linked-update links x not_in_queue rest l.1 d.0
Linked-spliced (p ∷ []) x rest links l d = (
  ground arith,
  Linked-update (update links p (next (first rest))) x not_in_queue rest
      (Linked-update links p (next (first rest)) rest l.1.1 (ground arith)) d.1.0,
)
Linked-spliced (p ∷ q ∷ pre) x rest links l d = (
  spliced_head p q pre x rest links (ground (arith, has-append p (q ∷ pre) (x ∷ rest)))
        (ground (arith, has-append p (q ∷ pre) (x ∷ rest)))
      ∙ l.0,
  Linked-spliced (q ∷ pre) x rest links l.1 d.1,
)

-- How nn_queue_remove leaves a queue that held `xs`, with the item among them.
pub record Removed (item : ℕ) (xs : List ℕ) (links : Links) (out : Queue × Links) : Type 0 where
  pub holds : IsQueue (erase item xs) out.0 out.1
  pub freed : out.1 item ≡ not_in_queue
  pub same : (p : ℕ) → has p xs ≡ false → out.1 p ≡ links p

-- The head and the tail of the queue that is left.
new_head :
    (pre : List ℕ) (x : ℕ) (rest : List ℕ)
    → has x pre ≡ false
    → (if is_item (first (pre ++ x ∷ rest)) x then first rest else first (pre ++ x ∷ rest))
      ≡ first (pre ++ rest)
new_head [] x rest h = ground arith
new_head (p ∷ pre) x rest h = ground arith

last-append : (pre : List ℕ) (x : ℕ) (rest : List ℕ) → last (pre ++ x ∷ rest) ≡ last (x ∷ rest)
last-append [] x rest = refl
last-append (p ∷ []) x rest = refl
last-append (p ∷ q ∷ pre) x rest = last-append (q ∷ pre) x rest

new_tail :
    (pre : List ℕ) (x : ℕ) (rest : List ℕ)
    → has x rest ≡ false
    → (if is_item (last (pre ++ x ∷ rest)) x then last pre else last (pre ++ x ∷ rest))
      ≡ last (pre ++ rest)
new_tail pre x [] h = rw (last-append pre x [], append-nil) (ground arith)
new_tail pre x (y ∷ rest) h =
    rw (last-append pre x (y ∷ rest), last-append pre y rest)
      (let (t, e) = last-some y rest in
        let ne : t ≢ x = has-ne t x (y ∷ rest) (has-last (y ∷ rest) t e) h in rw e (ground arith))

unlink_found :
    (fuel : ℕ) (pre : List ℕ) (x : ℕ) (rest : List ℕ) (self : Queue) (links : Links)
    → IsQueue (pre ++ x ∷ rest) self links
    → has x pre ≡ false
    → (out : Queue × Links) × (unlink (suc fuel) (some x) (last pre) x self links ≡ returned out)
      × Removed x (pre ++ x ∷ rest) links out
unfolding unlink
unlink_found fuel pre x rest self links q h = (
  (record { head = first (pre ++ rest); tail = last (pre ++ rest) }, spliced pre x rest links),
  rw (
    Linked-middle links pre x rest q.linked,
    (==_iff x x).1 refl,
    q.head,
    q.tail,
    new_head pre x rest h,
    new_tail pre x rest (Distinct-middle pre x rest q.distinct),
  ),
  record {
    holds = rw (erase-middle pre x rest h) (record {
      head = refl;
      tail = refl;
      linked = Linked-spliced pre x rest links q.linked q.distinct;
      distinct = rw (erase-middle pre x rest h) at (Distinct-erase x (pre ++ x ∷ rest) q.distinct);
    });
    freed = update_self (set_next (last pre) (next (first rest)) links) x not_in_queue;
    same = λ p out.
        spliced_same pre x rest links p (ground (arith, has-append p pre (x ∷ rest)))
          (ground (arith, has-append p pre (x ∷ rest)));
  },
)

-- The loop, with `pre` behind it and `suf` ahead.
unlink_loop :
    (fuel : ℕ) (pre suf xs : List ℕ) (item : ℕ) (self : Queue) (links : Links)
    → xs ≡ pre ++ suf
    → IsQueue xs self links
    → has item pre ≡ false
    → has item suf ≡ true
    → length suf < fuel
    → (out : Queue × Links) × (unlink fuel (first suf) (last pre) item self links ≡ returned out)
      × Removed item xs links out
unfolding unlink
unlink_loop zero pre suf xs item self links e q no_pre in_suf h = absurd (omega arith)
unlink_loop (suc fuel) pre [] xs item self links e q no_pre in_suf h = cc
unlink_loop (suc fuel) pre (x ∷ suf) xs item self links e q no_pre in_suf h =
    elim (Bool-cases (x == item)) [
      | inl found ↦
          let same : item ≡ x = sym ((==_iff x item).0 found) in
          rw (e, same) (unlink_found fuel pre x suf self links (rw e at q) (rw same at no_pre))
      | inr other ↦
          let linked : Linked links (pre ++ x ∷ suf) = rw e at q.linked in
          let go =
            unlink_loop fuel (pre ++ x ∷ []) suf xs item self links
              (e ∙ sym (append_assoc pre (x ∷ []) suf)) q
              (ground (arith, has-append item pre (x ∷ []))) (ground arith) (omega arith) in
          rw (Linked-middle links pre x suf linked, other) (rw (last-append_one pre x) at go)
    ]

-- With as many rounds as the queue has items, nn_queue_remove of an item of the queue returns: the
-- item is taken out of the order, marked as in no queue, and no item outside the queue changes.
pub remove-erase :
    (fuel item : ℕ) (self : Queue) (links : Links) (xs : List ℕ)
    → IsQueue xs self links
    → has item xs ≡ true
    → length xs < fuel
    → (out : Queue × Links) × (remove fuel item self links ≡ returned out)
      × Removed item xs links out
unfolding remove
remove-erase fuel item self links xs q h enough =
    rw queued (rw (← q.head) at (unlink_loop fuel [] xs xs item self links refl q refl h enough))
  where
    queued : is_not_in_queue (links item) ≡ false
    queued = ground (arith, has-Linked links item xs q.linked)

unlink_absent :
    (fuel : ℕ) (prev : Option ℕ) (xs : List ℕ) (item : ℕ) (self : Queue) (links : Links)
    → Linked links xs
    → has item xs ≡ false
    → length xs < fuel
    → unlink fuel (first xs) prev item self links ≡ returned (self, links)
unfolding unlink
unlink_absent zero prev xs item self links l h enough = absurd (omega arith)
unlink_absent (suc fuel) prev [] item self links l h enough = refl
unlink_absent (suc fuel) prev (x ∷ xs) item self links l h enough =
    let other : (x == item) ≡ false = ground arith in
    rw (l.0, other)
      (unlink_absent fuel (some x) xs item self links l.1 (ground arith) (omega arith))

-- With as many rounds as the queue has items, nn_queue_remove of an item that is not in the queue
-- returns and changes nothing, also where the item is in another queue.
pub remove_absent :
    (fuel item : ℕ) (self : Queue) (links : Links) (xs : List ℕ)
    → IsQueue xs self links
    → has item xs ≡ false
    → length xs < fuel
    → remove fuel item self links ≡ returned (self, links)
unfolding remove
remove_absent fuel item self links xs q h enough =
    let loop = rw (← q.head) at (unlink_absent fuel none xs item self links q.linked h enough) in
    elim (Bool-cases (is_not_in_queue (links item))) [
      | inl free ↦ rw free
      | inr queued ↦ rw queued loop
    ]
