-- ===== src/Queue/Chain.antt =====
-- The items that a queue holds, in order.
use nanomsg_copy.Prelude.{
  ℕ, ◌≡◌, refl, ◌≢◌, false, none, some, List, [], ◌∷◌, ◌++◌, update, has, Distinct, first, last,
  has-last, has-ne, update_ne, arith,
}
use nanomsg_copy.Queue.{Link, not_in_queue, next, Links, Queue}

-- The `next` fields lead through `xs` to NULL.
abbrev pub Linked : Links → List ℕ → Type 0
Linked links [] = Unit
Linked links (x ∷ xs) = (links x ≡ next (first xs)) × Linked links xs

-- The queue holds exactly the items `xs`, oldest first.
pub record IsQueue (xs : List ℕ) (self : Queue) (links : Links) : Type 0 where
  pub head : self.head ≡ first xs
  pub tail : self.tail ≡ last xs
  pub linked : Linked links xs
  pub distinct : Distinct xs

-- A write at an item outside the chain does not break it.
pub Linked-update :
    (links : Links) (p : ℕ) (v : Link) (xs : List ℕ)
    → Linked links xs
    → has p xs ≡ false
    → Linked (update links p v) xs
Linked-update links p v [] l h = tt
Linked-update links p v (x ∷ xs) l h = ground (arith, Linked-update links p v xs)

-- An item that is not in a queue is in no chain.
pub has-Linked :
    (links : Links) (p : ℕ) (xs : List ℕ)
    → Linked links xs
    → links p ≡ not_in_queue
    → has p xs ≡ false
has-Linked links p [] l h = refl
has-Linked links p (x ∷ xs) l h = ground (arith, has-Linked links p xs)

-- Linking a new last item behind the old one.
pub Linked-append_one :
    (links : Links) (item t x : ℕ) (xs : List ℕ)
    → Linked links (x ∷ xs)
    → Distinct (x ∷ xs)
    → has item (x ∷ xs) ≡ false
    → last (x ∷ xs) ≡ some t
    → Linked (update (update links item (next none)) t (next (some item))) (x ∷ xs ++ item ∷ [])
Linked-append_one links item t x [] l d h e = ground arith
Linked-append_one links item t x (y ∷ ys) l d h e = (
  rw (update_ne _ t _ x t≢x, update_ne links item _ x item≢x) l.0,
  Linked-append_one links item t y ys l.1 d.1 (ground arith) e,
)
  where
    t≢x : t ≢ x
    t≢x = has-ne t x (y ∷ ys) (has-last (y ∷ ys) t e) d.0

    item≢x : item ≢ x
    item≢x = ground arith
