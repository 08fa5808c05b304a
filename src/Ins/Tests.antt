-- ===== src/Ins/Tests.antt =====
-- The lists of src/transports/inproc/ins.c with the endpoint 1 bound and the endpoint 2 connecting; each
-- call of `fn` notes its two items.
use nanomsg_copy.Prelude.{
  ℕ, ◌≡◌, refl, Bool, true, false, List, [], ◌∷◌, ◌++◌, has, arith, ◌==◌, ◌||◌, success, Outcome,
  returned, if◌then◌else◌,
}
use nanomsg_copy.Ins.{Ins, bind, connect, in_use, same_addr, strncmp_eq}
use nanomsg_copy.Ins.Rendezvous.{IsIns, with_bound, with_connected, bind-connect}

-- The endpoints 1 and 2 have one address, and so have 3 and 4.
abbrev addr : ℕ → List ℕ
addr i = if i == 1 || i == 2 then 97 ∷ [] else 98 ∷ 99 ∷ []

abbrev all_peers : ℕ → ℕ → Bool
all_peers i j = true

abbrev note : ℕ → ℕ → List (ℕ × ℕ) → Outcome (List (ℕ × ℕ))
note i j calls = returned (calls ++ (i, j) ∷ [])

abbrev ins : Ins
ins = record { bound = 1 ∷ []; connected = 2 ∷ [] }

ins-apart : (q : ℕ) → has q ins.bound ≡ true → has q ins.connected ≡ false
ins-apart q h = ground (arith, h)

abbrev ins-IsIns : IsIns addr ins
unfolding in_use same_addr strncmp_eq
ins-IsIns = record {
  unique = (refl, tt);
  bound = (refl, tt);
  connected = (refl, tt);
  apart = ins-apart;
}

bind-connect_example :
    (bind addr all_peers note 3 ins [] ≡ returned (success, with_bound 3 ins, []))
    × (connect addr all_peers note 4 (with_bound 3 ins) []
        ≡ returned (with_connected 4 (with_bound 3 ins), (4, 3) ∷ []))
    × (connect addr all_peers note 4 ins [] ≡ returned (with_connected 4 ins, []))
    × (bind addr all_peers note 3 (with_connected 4 ins) []
        ≡ returned (success, with_bound 3 (with_connected 4 ins), (3, 4) ∷ []))
unfolding in_use same_addr strncmp_eq
bind-connect_example =
    bind-connect addr all_peers note 3 4 ins [] [] ins-IsIns (omega arith) refl refl refl refl refl
      refl refl refl
