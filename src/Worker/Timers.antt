-- ===== src/Worker/Timers.antt =====
-- src/aio/worker_posix.inc: the timers that have expired, in a round of the worker.
use nanomsg_copy.Prelude.{
  ℕ, ◌<◌, ◌≡◌, refl, ap, ◌∙◌, inl, inr, Bool-cases, none, some, List, [], ◌∷◌, length, Outcome,
  returned, arith, ltb, if◌then◌else◌, Rc,
}
use nanomsg_copy.Timerset.{event, Timerset, Hndls}
use nanomsg_copy.Timerset.Order.{IsTimerset}
use nanomsg_copy.Timerset.Expiry.{event-expired, event_none, event_waiting}
use nanomsg_copy.Worker.{Worker, Call, timer_timeout, fire}

-- The timers that are taken, for the time of each look at the set, and those that are left.
abbrev pub expired : List ℕ → (ℕ → ℕ) → List ℕ → List ℕ
expired [] t xs = []
expired (now ∷ nows) t [] = []
expired (now ∷ nows) t (x ∷ xs) = if ltb now (t x) then [] else x ∷ expired nows t xs

abbrev pub waiting : List ℕ → (ℕ → ℕ) → List ℕ → List ℕ
waiting [] t xs = xs
waiting (now ∷ nows) t [] = []
waiting (now ∷ nows) t (x ∷ xs) = if ltb now (t x) then x ∷ xs else waiting nows t xs

-- What the machines do returns and leaves the timers as they are.
abbrev pub LeavesTimers : (Call → Worker → Outcome Worker) → Type 0
LeavesTimers feed =
    (call : Call) (w : Worker)
    → (w' : Worker) × (feed call w ≡ returned w')
      × (w'.timerset ≡ w.timerset)
      × (w'.timers ≡ w.timers)

abbrev taken : Worker → Timerset → Hndls → Worker
taken w ts hs = record w { timerset = ts; timers = hs }

module _ (feed : Call → Worker → Outcome Worker) (now : ℕ) (nows : List ℕ) (w : Worker) where
  fire_stop :
      {rc : Rc}
      → event now w.timerset w.timers ≡ returned (rc, none, w.timerset, w.timers)
      → fire feed (now ∷ nows) w ≡ returned ([], w)
  unfolding fire
  fire_stop e = rw e refl

  fire_go :
      {t : ℕ} {ts : Timerset} {hs : Hndls} {rc : Rc} {w2 w3 : Worker} {fired : List ℕ}
      → event now w.timerset w.timers ≡ returned (rc, some t, ts, hs)
      → feed (timer_timeout (w.timer_owners t) t) (taken w ts hs) ≡ returned w2
      → fire feed nows w2 ≡ returned (fired, w3)
      → fire feed (now ∷ nows) w ≡ returned (t ∷ fired, w3)
  unfolding fire
  fire_go e f g = rw (e, f, g) refl

-- Where the machines leave the timers as they are, for the times of more looks at the set than it has timers:
-- the loop of the worker over expired timers returns. It feeds the timers in the order in which they expire, each
-- after its time, up to the first that has not expired when it is looked at; these and no others have left the set.
pub fire-expired :
    (feed : Call → Worker → Outcome Worker) (nows xs : List ℕ) (w : Worker)
    → LeavesTimers feed
    → IsTimerset xs w.timerset w.timers
    → length xs < length nows
    → (w' : Worker) × (fire feed nows w ≡ returned (expired nows w.timers.timeout xs, w'))
      × IsTimerset (waiting nows w.timers.timeout xs) w'.timerset w'.timers
fire-expired feed [] xs w f i l = absurd (omega arith)
fire-expired feed (now ∷ nows) [] w f i l =
    (w, fire_stop feed now nows w (event_none now w.timerset w.timers i), i)
fire-expired feed (now ∷ nows) (x ∷ xs) w f i l = elim (Bool-cases (ltb now (w.timers.timeout x))) [
  | inl e ↦ rw e (w, fire_stop feed now nows w (event_waiting now x xs w.timerset w.timers i e), i)
  | inr e ↦
      let (ts, hs, call, left, first, same) =
        event-expired now x xs w.timerset w.timers i (ground (arith, e)) in
      let (w2, fed, p, q) = f (timer_timeout (w.timer_owners x) x) (taken w ts hs) in
      let (w3, go, kept) = fire-expired feed nows xs w2 f (rw (p, q) left) (omega arith) in
      let times : w2.timers.timeout ≡ w.timers.timeout =
        ap (λ (hs' : Hndls). hs'.timeout) q ∙ same in
      rw e (
        w3,
        fire_go feed now nows w call fed go ∙ ap (λ t. returned (x ∷ expired nows t xs, w3)) times,
        rw times at kept,
      )
]
