-- ===== src/Ins.antt =====
-- src/transports/inproc/ins.c and ins.h: the bound and the connecting endpoints of the in-process
-- transport. An item is a number, and a list of src/utils/list.c is the sequence of its items. The mutex
-- is not part of the state: each function holds it from its first statement to its last.
pub mod Matching
pub mod Rendezvous
mod Tests
use nanomsg_copy.Prelude.{
  ℕ, zero, suc, Bool, true, false, ◌&&◌, ◌||◌, not, List, [], ◌∷◌, ◌++◌, has, erase, Rc, success,
  failure, Errno, Outcome, returned, ◌>>=◌, ◌>>◌, assert, if◌then◌else◌, ◌==◌,
}

pub record Ins : Type 0 where
  pub bound : List ℕ
  pub connected : List ℕ

abbrev pub is_nil : List ℕ → Bool
is_nil [] = true
is_nil (x ∷ xs) = false

pub init : Ins
init = record { bound = []; connected = [] }

pub term : Ins → Outcome (Unit {0})
term self = assert (is_nil self.connected) >> assert (is_nil self.bound)

-- NN_SOCKADDR_MAX
abbrev pub sockaddr_max : ℕ
sockaddr_max = 128

-- `strncmp(a, b, n) == 0`, for the bytes in front of the terminating zeros.
unfoldable pub strncmp_eq : ℕ → List ℕ → List ℕ → Bool
strncmp_eq zero a b = true
strncmp_eq (suc n) [] [] = true
strncmp_eq (suc n) (x ∷ a) (y ∷ b) = x == y && strncmp_eq n a b
strncmp_eq (suc n) _ _ = false

-- nn_list_insert at the end, and nn_list_erase. An item has one link, which may be in one list; to
-- erase it from the other list breaks both.
abbrev pub insert_end : ℕ → List ℕ → List ℕ → Outcome (List ℕ)
insert_end item xs others =
    assert (not (has item xs || has item others)) >> returned (xs ++ item ∷ [])

abbrev pub erase_item : ℕ → List ℕ → List ℕ → Outcome (List ℕ)
erase_item item xs others =
    assert (has item xs || has item others)
    >> (if has item xs then returned (erase item xs) else Outcome.undefined)

-- `addr` is nn_ep_getaddr of an item's endpoint and `is_peer` is nn_ep_ispeer_ep of two, whose
-- definitions are not in the sources. `fn` works on a state of its own.
module _ (addr : ℕ → List ℕ) where
  unfoldable pub same_addr : ℕ → ℕ → Bool
  same_addr i j = strncmp_eq sockaddr_max (addr i) (addr j)

  -- The first loop of nn_ins_bind.
  unfoldable pub in_use : ℕ → List ℕ → Bool
  in_use item [] = false
  in_use item (b ∷ bs) = if same_addr b item then true else in_use item bs

module _ {X : Type 0} (addr : ℕ → List ℕ) (is_peer : ℕ → ℕ → Bool) where
  -- The second loop of nn_ins_bind.
  pub bind_all : (ℕ → ℕ → X → Outcome X) → ℕ → List ℕ → X → Outcome X
  bind_all fn item [] x = returned x
  bind_all fn item (c ∷ cs) x =
      if same_addr addr item c && is_peer item c
      then (fn item c x >>= λ x'. bind_all fn item cs x')
      else bind_all fn item cs x

  pub bind : (ℕ → ℕ → X → Outcome X) → ℕ → Ins → X → Outcome (Rc × Ins × X)
  bind fn item self x =
      if in_use addr item self.bound then returned (failure Errno.eaddrinuse, self, x) else do
        bound ← insert_end item self.bound self.connected
        x' ← bind_all fn item self.connected x
        returned (success, record self { bound = bound }, x')

  -- The loop of nn_ins_connect.
  pub connect_first : (ℕ → ℕ → X → Outcome X) → ℕ → List ℕ → X → Outcome X
  connect_first fn item [] x = returned x
  connect_first fn item (b ∷ bs) x =
      if same_addr addr item b
      then (if is_peer item b then fn item b x else returned x)
      else connect_first fn item bs x

  pub connect : (ℕ → ℕ → X → Outcome X) → ℕ → Ins → X → Outcome (Ins × X)
  connect fn item self x = do
    connected ← insert_end item self.connected self.bound
    x' ← connect_first fn item self.bound x
    returned (record self { connected = connected }, x')

pub disconnect : ℕ → Ins → Outcome Ins
disconnect item self = do
  connected ← erase_item item self.connected self.bound
  returned (record self { connected = connected })

pub unbind : ℕ → Ins → Outcome Ins
unbind item self = do
  bound ← erase_item item self.bound self.connected
  returned (record self { bound = bound })

-- nn_ins_item_term
pub item_term : ℕ → Ins → Outcome (Unit {0})
item_term item self = assert (not (has item self.bound || has item self.connected))
