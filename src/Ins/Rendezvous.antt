-- ===== src/Ins/Rendezvous.antt =====
-- src/transports/inproc/ins.c: what holds of the two lists, and which calls a bind and a connect make.
use nanomsg_copy.Prelude.{
  ℕ, ◌≡◌, ◌≢◌, ◌⊎◌, refl, ◌∙◌, inl, inr, Bool, true, false, Bool-cases, List, [], ◌∷◌, ◌++◌, has,
  has-append, has-ne, erase, Distinct, Distinct-append_one, success, failure, Errno, Outcome,
  returned, ◌>>=◌, if◌then◌else◌, arith,
}
use nanomsg_copy.Ins.{
  Ins, same_addr, in_use, bind, insert_end, erase_item, connect, disconnect, unbind,
}
use nanomsg_copy.Ins.Matching.{
  Unique, Unique-append_one, partners, each, bind_all-partners, connect_first-bound,
  connect_first-none, same_addr_comm, same_addr_euclidean,
}

-- No two bound items have the same address, and an item is at most once in at most one of the lists.
pub record IsIns (addr : ℕ → List ℕ) (self : Ins) : Type 0 where
  pub unique : Unique addr self.bound
  pub bound : Distinct self.bound
  pub connected : Distinct self.connected
  pub apart : (q : ℕ) → has q self.bound ≡ true → has q self.connected ≡ false

in_use-erase :
    (addr : ℕ → List ℕ) (item a : ℕ) (bs : List ℕ)
    → in_use addr item bs ≡ false
    → in_use addr item (erase a bs) ≡ false
unfolding in_use
in_use-erase addr item a [] h = refl
in_use-erase addr item a (b ∷ bs) h = ground (arith, h, in_use-erase addr item a bs)

Unique-erase : (addr : ℕ → List ℕ) (a : ℕ) (bs : List ℕ) → Unique addr bs → Unique addr (erase a bs)
Unique-erase addr a [] u = tt
Unique-erase addr a (b ∷ bs) u =
    ground (arith, u, in_use-erase addr b a bs, Unique-erase addr a bs u.1)

has-erase : (a q : ℕ) (xs : List ℕ) → has q (erase a xs) ≡ true → has q xs ≡ true
has-erase a q [] h = h
has-erase a q (x ∷ xs) h = ground (arith, h, has-erase a q xs)

insert_end-lem :
    (item : ℕ) (xs others : List ℕ)
    → has item xs ≡ false
    → has item others ≡ false
    → insert_end item xs others ≡ returned (xs ++ item ∷ [])
insert_end-lem item xs others h k = rw (h, k) refl

erase_item-lem :
    (item : ℕ) (xs others : List ℕ)
    → has item xs ≡ true
    → erase_item item xs others ≡ returned (erase item xs)
erase_item-lem item xs others h = rw h refl

abbrev pub with_bound : ℕ → Ins → Ins
with_bound item self = record self { bound = self.bound ++ item ∷ [] }

abbrev pub with_connected : ℕ → Ins → Ins
with_connected item self = record self { connected = self.connected ++ item ∷ [] }

pub with_bound-IsIns :
    (addr : ℕ → List ℕ) (item : ℕ) (self : Ins)
    → IsIns addr self
    → in_use addr item self.bound ≡ false
    → has item self.bound ≡ false
    → has item self.connected ≡ false
    → IsIns addr (with_bound item self)
with_bound-IsIns addr item self h free b c = record {
  unique = Unique-append_one addr item self.bound free h.unique;
  bound = Distinct-append_one self.bound item h.bound b;
  connected = h.connected;
  apart = λ q k. elim (Bool-cases (has q self.bound)) [
    | inl e ↦ h.apart q e
    | inr e ↦
        let same : item ≡ q = ground (arith, k, e, has-append q self.bound (item ∷ [])) in
        rw (← same) c
  ];
}

pub with_connected-IsIns :
    (addr : ℕ → List ℕ) (item : ℕ) (self : Ins)
    → IsIns addr self
    → has item self.bound ≡ false
    → has item self.connected ≡ false
    → IsIns addr (with_connected item self)
with_connected-IsIns addr item self h b c = record {
  unique = h.unique;
  bound = h.bound;
  connected = Distinct-append_one self.connected item h.connected c;
  apart = λ q k.
      let ne : q ≢ item = has-ne q item self.bound k b in
      ground (arith, ne, h.apart q k, has-append q self.connected (item ∷ []));
}

in_use-some :
    (addr : ℕ → List ℕ) (item : ℕ) (bs : List ℕ)
    → in_use addr item bs ≡ true
    → (b : ℕ) × (has b bs ≡ true) × (same_addr addr b item ≡ true)
unfolding in_use
in_use-some addr item [] h = cc
in_use-some addr item (b ∷ bs) h = elim (Bool-cases (same_addr addr b item)) [
  | inl e ↦ (b, ground arith, e)
  | inr e ↦
      let (o, k, m) = in_use-some addr item bs (ground (arith, h, e)) in (o, ground (arith, k), m)
]

module _ {X : Type 0} (addr : ℕ → List ℕ) (is_peer : ℕ → ℕ → Bool)
    (fn : ℕ → ℕ → X → Outcome X) where
  bind_free :
      (item : ℕ) (self : Ins) (x : X)
      → in_use addr item self.bound ≡ false
      → has item self.bound ≡ false
      → has item self.connected ≡ false
      → bind addr is_peer fn item self x ≡ (
          each fn item (partners addr is_peer item self.connected) x >>= λ x'.
          returned (success, with_bound item self, x'))
  unfolding bind
  bind_free item self x e b c =
      rw (e, b, c, bind_all-partners addr is_peer fn item self.connected x) refl

  connect_bound :
      (item o : ℕ) (self : Ins) (x : X)
      → IsIns addr self
      → has item self.bound ≡ false
      → has item self.connected ≡ false
      → has o self.bound ≡ true
      → same_addr addr item o ≡ true
      → connect addr is_peer fn item self x ≡ (
          (if is_peer item o then fn item o x else returned x) >>= λ x'.
          returned (with_connected item self, x'))
  unfolding connect
  connect_bound item o self x h b c k e =
      rw (c, b, connect_first-bound addr is_peer fn item o self.bound x h.unique k e) refl

  connect_free :
      (item : ℕ) (self : Ins) (x : X)
      → in_use addr item self.bound ≡ false
      → has item self.bound ≡ false
      → has item self.connected ≡ false
      → connect addr is_peer fn item self x ≡ returned (with_connected item self, x)
  unfolding connect
  connect_free item self x k b c =
      rw (c, b, connect_first-none addr is_peer fn item self.bound x k) refl

-- nn_ins_bind of an item that is in no list, on both branches: where a bound item has the same first 128
-- bytes of address it answers -EADDRINUSE, with no change and no call; otherwise it calls `fn` once for
-- each connecting item that has the same address and is a peer, in the order in which they connected,
-- and adds the item behind the bound ones, which still have addresses all different.
pub bind-IsIns :
    {X : Type 0} (addr : ℕ → List ℕ) (is_peer : ℕ → ℕ → Bool) (fn : ℕ → ℕ → X → Outcome X)
    (item : ℕ) (self : Ins) (x : X)
    → IsIns addr self
    → has item self.bound ≡ false
    → has item self.connected ≡ false
    → ((in_use addr item self.bound ≡ true)
        × (bind addr is_peer fn item self x ≡ returned (failure Errno.eaddrinuse, self, x)))
      ⊎ ((in_use addr item self.bound ≡ false)
          × (bind addr is_peer fn item self x ≡ (
              each fn item (partners addr is_peer item self.connected) x >>= λ x'.
              returned (success, with_bound item self, x')))
          × IsIns addr (with_bound item self))
unfolding bind
bind-IsIns addr is_peer fn item self x h b c = elim (Bool-cases (in_use addr item self.bound)) [
  | inl e ↦ inl (e, rw e refl)
  | inr e ↦
      inr (e, bind_free addr is_peer fn item self x e b c, with_bound-IsIns addr item self h e b c)
]

-- nn_ins_connect of an item that is in no list adds it behind the connecting ones, on both branches:
-- where a bound item has the address of the item it calls `fn` for that one, if it is a peer, and
-- otherwise it makes no call.
pub connect-IsIns :
    {X : Type 0} (addr : ℕ → List ℕ) (is_peer : ℕ → ℕ → Bool) (fn : ℕ → ℕ → X → Outcome X)
    (item : ℕ) (self : Ins) (x : X)
    → IsIns addr self
    → has item self.bound ≡ false
    → has item self.connected ≡ false
    → IsIns addr (with_connected item self)
      × (((b : ℕ) × (has b self.bound ≡ true)
            × (same_addr addr b item ≡ true)
            × (connect addr is_peer fn item self x ≡ (
                (if is_peer item b then fn item b x else returned x) >>= λ x'.
                returned (with_connected item self, x'))))
          ⊎ ((in_use addr item self.bound ≡ false)
              × (connect addr is_peer fn item self x ≡ returned (with_connected item self, x))))
connect-IsIns addr is_peer fn item self x h b c = (
  with_connected-IsIns addr item self h b c,
  elim (Bool-cases (in_use addr item self.bound)) [
    | inl e ↦
        let (o, k, m) = in_use-some addr item self.bound e in
        inl (
          o,
          k,
          m,
          connect_bound addr is_peer fn item o self x h b c k (same_addr_comm addr item o ∙ m),
        )
    | inr e ↦ inr (e, connect_free addr is_peer fn item self x e b c)
  ],
)

partners-append_one :
    (addr : ℕ → List ℕ) (is_peer : ℕ → ℕ → Bool) (item c : ℕ) (cs : List ℕ)
    → same_addr addr item c ≡ true
    → is_peer item c ≡ true
    → partners addr is_peer item (cs ++ c ∷ []) ≡ partners addr is_peer item cs ++ c ∷ []
partners-append_one addr is_peer item c [] e k = ground (arith, e, k)
partners-append_one addr is_peer item c (d ∷ cs) e k =
    ground (arith, e, k, partners-append_one addr is_peer item c cs e k)

in_use-same :
    (addr : ℕ → List ℕ) (b c : ℕ) (bs : List ℕ)
    → same_addr addr b c ≡ true
    → in_use addr b bs ≡ false
    → in_use addr c bs ≡ false
unfolding in_use
in_use-same addr b c [] e h = refl
in_use-same addr b c (d ∷ bs) e h = ground (
  arith,
  e,
  h,
  in_use-same addr b c bs e,
  same_addr_euclidean addr c b d,
  same_addr_comm addr c b,
  same_addr_comm addr c d,
)

has-append_one : (a : ℕ) (xs : List ℕ) → has a (xs ++ a ∷ []) ≡ true
has-append_one a xs = ground (arith, has-append a xs (a ∷ []))

erase-append_one : (a : ℕ) (xs : List ℕ) → has a xs ≡ false → erase a (xs ++ a ∷ []) ≡ xs
erase-append_one a [] h = ground arith
erase-append_one a (x ∷ xs) h = ground (arith, h, erase-append_one a xs)

-- An endpoint that binds and one that connects to the same address, where nothing is bound to it yet and
-- each takes the other for a peer, meet in both orders, with one call for the pair: where the bind
-- comes first it succeeds and the connect then calls `fn` for the bound item; where the connect comes
-- first it makes no call, and the bind then succeeds and calls `fn` for the connecting item, after those
-- that had connected before. The two lists come out the same.
pub bind-connect :
    {X : Type 0} (addr : ℕ → List ℕ) (is_peer : ℕ → ℕ → Bool) (fn : ℕ → ℕ → X → Outcome X) (b c : ℕ)
    (self : Ins) (x y : X)
    → IsIns addr self
    → b ≢ c
    → has b self.bound ≡ false
    → has b self.connected ≡ false
    → has c self.bound ≡ false
    → has c self.connected ≡ false
    → in_use addr b self.bound ≡ false
    → same_addr addr b c ≡ true
    → is_peer b c ≡ true
    → is_peer c b ≡ true
    → (bind addr is_peer fn b self x ≡ (
        each fn b (partners addr is_peer b self.connected) x >>= λ x'.
        returned (success, with_bound b self, x')))
      × (connect addr is_peer fn c (with_bound b self) y
          ≡ (fn c b y >>= λ x'. returned (with_connected c (with_bound b self), x')))
      × (connect addr is_peer fn c self x ≡ returned (with_connected c self, x))
      × (bind addr is_peer fn b (with_connected c self) x ≡ (
          each fn b (partners addr is_peer b self.connected ++ c ∷ []) x >>= λ x'.
          returned (success, with_bound b (with_connected c self), x')))
bind-connect addr is_peer fn b c self x y h ne b1 b2 c1 c2 free same p q =
    let bound = with_bound-IsIns addr b self h free b1 b2 in
    (
      bind_free addr is_peer fn b self x free b1 b2,
      connect_bound addr is_peer fn c b (with_bound b self) y bound
            (ground (arith, c1, ne, has-append c self.bound (b ∷ []))) c2
            (has-append_one b self.bound) (same_addr_comm addr c b ∙ same)
          ∙ rw q refl,
      connect_free addr is_peer fn c self x (in_use-same addr b c self.bound same free) c1 c2,
      rw (← partners-append_one addr is_peer b c self.connected same p) (
          bind_free addr is_peer fn b (with_connected c self) x free b1
            (ground (arith, b2, ne, has-append b self.connected (c ∷ [])))),
    )

-- nn_ins_unbind and nn_ins_disconnect take back what the last bind or connect has added, for an item that
-- was in no list.
pub unbind-bind :
    (addr : ℕ → List ℕ) (item : ℕ) (self : Ins)
    → IsIns addr self
    → in_use addr item self.bound ≡ false
    → has item self.bound ≡ false
    → has item self.connected ≡ false
    → (unbind item (with_bound item self) ≡ returned self)
      × (disconnect item (with_connected item self) ≡ returned self)
unfolding unbind disconnect
unbind-bind addr item self h free b c = (
  rw (has-append_one item self.bound, erase-append_one item self.bound b) refl,
  rw (has-append_one item self.connected, erase-append_one item self.connected c) refl,
)
