-- ===== src/Ctx/Tests.antt =====
-- Tests of contexts: one machine, whose function raises event 9 once.
use mathlib.Core.Path.{subst, sym}
use nanomsg_copy.Prelude.{
  ℕ, zero, suc, ◌≡◌, refl, false, Option, none, some, List, [], ◌∷◌, Outcome, returned, arith,
  update, Bool-cases, inl, inr, if◌then◌else◌,
}
use nanomsg_copy.Prelude.Int.{ℤ, pos}
use nanomsg_copy.Ctx.{State, World, Function, cleared, raise, feed, process, drain}
use nanomsg_copy.Ctx.Leave.{Acts, Behaves, HasMachine-cleared, drain-Behaves}

-- Raises event 9 for the machine, if it is in no queue, as long as the number in the memory is not 0, and lowers
-- that.
abbrev raising : Function ℕ
raising m src type srcptr w =
    if w.queued 9 then record { world = w; raised = []; raisedto = [] } else elim w.data_of [
      | zero ↦ record { world = w; raised = []; raisedto = [] }
      | suc n ↦ record {
        world = record w { data_of = n; event = update w.event 9 (cleared (some m)) };
        raised = 9 ∷ [];
        raisedto = [];
      }
    ]

abbrev idle_Acts :
    (w : World ℕ) → Acts (λ n. n) w (record { world = w; raised = []; raisedto = [] })
idle_Acts w = record {
  spends = omega arith;
  fresh = tt;
  freshto = tt;
  machines = tt;
  keeps = λ e h. h;
}

raising_once :
    (m n : ℕ) (w : World ℕ)
    → w.data_of ≡ suc n
    → w.queued 9 ≡ false
    → Acts
        (λ n. n)
        w
        (record {
          world = record w { data_of = n; event = update w.event 9 (cleared (some m)) };
          raised = 9 ∷ [];
          raisedto = [];
        })
raising_once m n w e q = record {
  spends = omega (arith, e);
  fresh = (q, tt);
  freshto = tt;
  machines = ((m, refl), tt);
  keeps = λ a h. HasMachine-cleared w 9 m a h;
}

raising_idle :
    (k m : ℕ) (src type : ℤ) (srcptr : Option ℕ) (w : World ℕ)
    → w.data_of ≡ k
    → w.queued 9 ≡ false
    → Acts (λ n. n) w (raising m src type srcptr w)
raising_idle zero m src type srcptr w e q =
    subst (λ f. Acts (λ n. n) w f) (sym (ground (arith, e, q))) (idle_Acts w)
raising_idle (suc n) m src type srcptr w e q =
    subst (λ f. Acts (λ n. n) w f) (sym (ground (arith, e, q))) (raising_once m n w e q)

raising-Behaves : Behaves (λ n. n) raising
raising-Behaves m src type srcptr w = elim (Bool-cases (w.queued 9)) [
  | inl q ↦ rw q (idle_Acts w)
  | inr q ↦ raising_idle w.data_of m src type srcptr w refl q
]

abbrev world : World ℕ
world = record {
  event = λ e. record { fsm = some 0; src = pos e; srcptr = none; type = pos 1 };
  queued = λ e. false;
  fsm = λ m. record { state = State.active; ctx = 0 };
  data_of = 1;
}

drain-Behaves_example :
    (done more eventsto' : List ℕ) × (after : World ℕ) × (drain raising raising 4
        (1 ∷ 2 ∷ [])
        []
        world
      ≡ returned (done, more, eventsto', after))
    × (done ≡ 1 ∷ 2 ∷ more)
drain-Behaves_example =
    drain-Behaves (λ n. n) raising raising raising-Behaves raising-Behaves 4 (1 ∷ 2 ∷ []) [] world
      ((0, refl), ((0, refl), tt)) (omega arith)

-- The events that the loop processes.
abbrev processed : Outcome (List ℕ × List ℕ × List ℕ × World ℕ) → Option (List ℕ)
processed (returned (done, more, eventsto, w)) = some done
processed _ = none

raised_last : processed (drain raising raising 4 (1 ∷ 2 ∷ []) [] world) ≡ some (1 ∷ 2 ∷ 9 ∷ [])
unfolding drain process feed raise
raised_last = refl
