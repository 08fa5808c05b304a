-- ===== src/Ctx/Leave.antt =====
-- src/aio/ctx.c: the first loop of nn_ctx_leave, for machines that may raise more events while it runs.
use mathlib.Core.List.{append-nil, append_assoc}
use nanomsg_copy.Prelude.{
  ℕ, zero, suc, ◌+◌, ◌≤◌, ◌<◌, ◌≡◌, refl, sym, ap, ◌∙◌, true, false, update, inl, inr, Bool,
  Bool-cases, ◌==◌, Option, some, List, [], ◌∷◌, ◌++◌, length, length-append, returned, ◌>>=◌,
  arith,
}
use nanomsg_copy.Prelude.Int.{ℤ}
use nanomsg_copy.Ctx.{
  cleared, World, Effect, Function, set_queued, raise, raise_all, is_stopping, feed, process, drain,
}

-- Events that are in no queue, each once.
abbrev pub Fresh : (ℕ → Bool) → List ℕ → Type 0
Fresh queued [] = Unit
Fresh queued (e ∷ es) = (queued e ≡ false) × Fresh (update queued e true) es

-- What is in a queue after these events are raised.
abbrev pub marked : (ℕ → Bool) → List ℕ → ℕ → Bool
marked queued [] = queued
marked queued (e ∷ es) = marked (update queued e true) es

module _ {X : Type 0} where
  abbrev pub HasMachine : World X → ℕ → Type 0
  HasMachine w e = (m : ℕ) × ((w.event e).fsm ≡ some m)

  abbrev pub AllHaveMachine : World X → List ℕ → Type 0
  AllHaveMachine w [] = Unit
  AllHaveMachine w (e ∷ es) = HasMachine w e × AllHaveMachine w es

  -- What a call of a machine's function may do: for each event that it raises for the context it spends one of
  -- an allowance, it raises only events that are in no queue, and each event that it raises has a machine, as
  -- has each event that had one.
  pub record Acts (allowance : X → ℕ) (w : World X) (effect : Effect X) : Type 0 where
    pub spends : allowance effect.world.data_of + length effect.raised ≤ allowance w.data_of
    pub fresh : Fresh effect.world.queued effect.raised
    pub freshto : Fresh (marked effect.world.queued effect.raised) effect.raisedto
    pub machines : AllHaveMachine effect.world effect.raised
    pub keeps : (e : ℕ) → HasMachine w e → HasMachine effect.world e

  abbrev pub Behaves : (X → ℕ) → Function X → Type 0
  Behaves allowance f =
      (m : ℕ) (src type : ℤ) (srcptr : Option ℕ) (w : World X)
      → Acts allowance w (f m src type srcptr w)

  abbrev marked_world : World X → List ℕ → World X
  marked_world w es = record w { queued = marked w.queued es }

  raise-Fresh :
      (e : ℕ) (q : List ℕ) (w : World X)
      → w.queued e ≡ false
      → raise e q w ≡ returned (q ++ e ∷ [], set_queued e true w)
  unfolding raise
  raise-Fresh e q w h = rw h refl

  -- Raising events that are in no queue appends them in order.
  raise_all-Fresh :
      (es q : List ℕ) (w : World X)
      → Fresh w.queued es
      → raise_all es q w ≡ returned (q ++ es, marked_world w es)
  raise_all-Fresh [] q w h = ap (λ x. returned (x, w)) (sym (append-nil q))
  raise_all-Fresh (e ∷ es) q w h =
      rw (raise-Fresh e q w h.0, raise_all-Fresh es (q ++ e ∷ []) (set_queued e true w) h.1)
        (ap (λ x. returned (x, marked_world w (e ∷ es))) (append_assoc q (e ∷ []) es))

  AllHaveMachine-append :
      (w : World X) (es fs : List ℕ)
      → AllHaveMachine w es
      → AllHaveMachine w fs
      → AllHaveMachine w (es ++ fs)
  AllHaveMachine-append w [] fs a b = b
  AllHaveMachine-append w (e ∷ es) fs a b = (a.0, AllHaveMachine-append w es fs a.1 b)

  AllHaveMachine-keeps :
      (w w' : World X)
      → ((e : ℕ) → HasMachine w e → HasMachine w' e)
      → (es : List ℕ) → AllHaveMachine w es
      → AllHaveMachine w' es
  AllHaveMachine-keeps w w' k [] a = tt
  AllHaveMachine-keeps w w' k (e ∷ es) a = (k e a.0, AllHaveMachine-keeps w w' k es a.1)

  pub HasMachine-cleared :
      (w : World X) (e m a : ℕ)
      → HasMachine w a
      → HasMachine (record w { event = update w.event e (cleared (some m)) }) a
  HasMachine-cleared w e m a h = elim (Bool-cases (a == e)) [
    | inl t ↦ (m, ground (arith, t))
    | inr t ↦ (h.0, ground (arith, t, h.1))
  ]

module _ {X : Type 0} (allowance : X → ℕ) (fn shutdown_fn : Function X)
    (behaves : Behaves allowance fn) (behaves_too : Behaves allowance shutdown_fn) where
  feed-Behaves : Behaves allowance (feed fn shutdown_fn)
  unfolding feed
  feed-Behaves m src type srcptr w = elim (Bool-cases (is_stopping (w.fsm m).state)) [
    | inl t ↦ rw t (behaves_too m src type srcptr w)
    | inr t ↦ rw t (behaves m src type srcptr w)
  ]

  process-Acts :
      (e : ℕ) (w : World X)
      → HasMachine w e
      → (effect : Effect X) × (process fn shutdown_fn e w ≡ returned effect)
        × Acts allowance w effect
  unfolding process
  process-Acts e w (m, s) =
      let before : World X = record w { event = update w.event e (cleared (some m)) } in
      let effect : Effect X =
        feed fn shutdown_fn m (w.event e).src (w.event e).type (w.event e).srcptr before in
      let a : Acts allowance before effect =
        feed-Behaves m (w.event e).src (w.event e).type (w.event e).srcptr before in
      (
        effect,
        rw s refl,
        record {
          spends = a.spends;
          fresh = a.fresh;
          freshto = a.freshto;
          machines = a.machines;
          keeps = λ b h. a.keeps b (HasMachine-cleared w e m b h);
        },
      )

  -- One round of the loop, from what its parts give.
  drain-step :
      (fuel e : ℕ) (events eventsto : List ℕ) (w : World X) {effect : Effect X}
      → process fn shutdown_fn e (set_queued e false w) ≡ returned effect
      → Acts allowance (set_queued e false w) effect
      → drain fn shutdown_fn (suc fuel) (e ∷ events) eventsto w ≡ (
          drain fn shutdown_fn fuel
            (events ++ effect.raised)
            (eventsto ++ effect.raisedto)
            (marked_world (marked_world effect.world effect.raised) effect.raisedto)
          >>= λ (done, more, eventsto3, w3).
              returned (e ∷ done, effect.raised ++ more, eventsto3, w3))
  unfolding drain
  drain-step fuel e events eventsto w {effect} p a =
      rw
        (
          p,
          raise_all-Fresh effect.raised events effect.world a.fresh,
          raise_all-Fresh effect.raisedto eventsto (marked_world effect.world effect.raised)
              a.freshto,
        )
        refl

-- For machines whose functions raise only events that are in no queue and have a machine, and spend an allowance
-- for those that they raise for the same context: with events in the queue that have machines, and fuel above the
-- number of these and the allowance, the first loop of nn_ctx_leave fails no assertion and returns. It has
-- processed the events of the queue in their order, and after them, in their order, those that were raised for
-- the context meanwhile.
pub drain-Behaves :
    {X : Type 0} (allowance : X → ℕ) (fn shutdown_fn : Function X)
    → Behaves allowance fn
    → Behaves allowance shutdown_fn
    → (fuel : ℕ) (events eventsto : List ℕ) (w : World X) → AllHaveMachine w events
    → length events + allowance w.data_of < fuel
    → (done more eventsto' : List ℕ) × (after : World X) × (drain fn shutdown_fn fuel events
          eventsto w
        ≡ returned (done, more, eventsto', after))
      × (done ≡ events ++ more)
unfolding drain
drain-Behaves allowance fn shutdown_fn a b zero events eventsto w h l = absurd (omega arith)
drain-Behaves allowance fn shutdown_fn a b (suc fuel) [] eventsto w h l =
    ([], [], eventsto, w, refl, refl)
drain-Behaves allowance fn shutdown_fn a b (suc fuel) (e ∷ events) eventsto w h l =
    let (effect, p, acts) =
      process-Acts allowance fn shutdown_fn a b e (set_queued e false w) h.0 in
    let w2 = marked_world (marked_world effect.world effect.raised) effect.raisedto in
    let have : AllHaveMachine effect.world (events ++ effect.raised) =
      AllHaveMachine-append effect.world events effect.raised
        (AllHaveMachine-keeps w effect.world acts.keeps events h.1) acts.machines in
    let (done, more, eventsto', after, s, o) =
      drain-Behaves allowance fn shutdown_fn a b fuel (events ++ effect.raised)
        (eventsto ++ effect.raisedto) w2 (AllHaveMachine-keeps effect.world w2 (λ d m. m) _ have)
        (omega (arith, acts.spends, length-append events effect.raised)) in
    (
      e ∷ done,
      effect.raised ++ more,
      eventsto',
      after,
      drain-step allowance fn shutdown_fn a b fuel e events eventsto w p acts ∙ rw s refl,
      ap (λ x. e ∷ x) (o ∙ append_assoc events effect.raised more),
    )
