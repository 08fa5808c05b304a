-- ===== src/Pipe/Flow.antt =====
-- The flow control of a pipe (src/core/pipe.c): NN_PIPEBASE_RELEASE tells the protocol to wait for the
-- event of the pipe before it uses the pipe again.
use nanomsg_copy.Prelude.{
  ℕ, ◌%◌, ◌≡◌, ◌⊎◌, inl, inr, refl, ◌∙◌, [], ◌∷◌, ◌++◌, Outcome, returned, ◌>>=◌, arith,
}
use nanomsg_copy.Prelude.Int.{ℤ, pos}
use nanomsg_copy.Pipe.{
  Instate, Outstate, Event, Pipebase, raise, on_received, on_sent, release, after_send, after_recv,
  send, recv,
}

-- The bit NN_PIPEBASE_RELEASE.
abbrev pub is_released : ℕ → ℕ
is_released rc = rc % 2

-- What a transport's send function leaves of a pipe: it has not called nn_pipebase_sent, or once.
abbrev pub SentOnce : Outstate → Type 0
SentOnce Outstate.sending = Unit
SentOnce Outstate.sent = Unit
SentOnce _ = ⊥

abbrev pub ReceivedOnce : Instate → Type 0
ReceivedOnce Instate.receiving = Unit
ReceivedOnce Instate.received = Unit
ReceivedOnce _ = ⊥

SentOnce-cases : (o : Outstate) → SentOnce o → (o ≡ Outstate.sending) ⊎ (o ≡ Outstate.sent)
SentOnce-cases Outstate.sending s = inl refl
SentOnce-cases Outstate.sent s = inr refl
SentOnce-cases Outstate.deactivated s = absurd s
SentOnce-cases Outstate.idle s = absurd s
SentOnce-cases Outstate.async s = absurd s

ReceivedOnce-cases :
    (i : Instate) → ReceivedOnce i → (i ≡ Instate.receiving) ⊎ (i ≡ Instate.received)
ReceivedOnce-cases Instate.receiving s = inl refl
ReceivedOnce-cases Instate.received s = inr refl
ReceivedOnce-cases Instate.deactivated s = absurd s
ReceivedOnce-cases Instate.idle s = absurd s
ReceivedOnce-cases Instate.async s = absurd s

pub release-bit : (rc : ℕ) → is_released rc ≡ 0 → is_released (release rc) ≡ 1
unfolding release
release-bit rc e = omega arith

module _ {T : Type 0} where
  after_send-sending :
      (rc : ℕ) (p : Pipebase) (t : T)
      → p.outstate ≡ Outstate.sending
      → after_send (pos rc, p, t) ≡ returned (release rc, record p { outstate = Outstate.async }, t)
  unfolding after_send
  after_send-sending rc p t e = ground (arith, e)

  after_send-sent :
      (rc : ℕ) (p : Pipebase) (t : T)
      → p.outstate ≡ Outstate.sent
      → after_send (pos rc, p, t) ≡ returned (rc, record p { outstate = Outstate.idle }, t)
  unfolding after_send
  after_send-sent rc p t e = ground (arith, e)

  send-idle :
      (vsend : Pipebase → T → Outcome (ℤ × Pipebase × T)) (self : Pipebase) (t : T)
      → self.outstate ≡ Outstate.idle
      → send vsend self t ≡ (vsend (record self { outstate = Outstate.sending }) t >>= after_send)
  unfolding send
  send-idle vsend self t e = ground (arith, e)

  -- nn_pipe_send on a pipe that is ready to send, when the transport accepts the message without
  -- NN_PIPEBASE_RELEASE in its result and calls nn_pipebase_sent at most once, passes all assertions.
  -- Either the result has no NN_PIPEBASE_RELEASE and the pipe is ready to send again, or the result
  -- has it, and the next nn_pipebase_sent makes the pipe ready and raises NN_PIPE_OUT.
  pub send-ready :
      (vsend : Pipebase → T → Outcome (ℤ × Pipebase × T)) (self p : Pipebase) (t u : T) (rc : ℕ)
      → self.outstate ≡ Outstate.idle
      → vsend (record self { outstate = Outstate.sending }) t ≡ returned (pos rc, p, u)
      → SentOnce p.outstate
      → is_released rc ≡ 0
      → (out : ℕ × Pipebase × T) × (send vsend self t ≡ returned out)
        × (((is_released out.0 ≡ 0) × (out.1 ≡ record p { outstate = Outstate.idle }))
            ⊎ ((is_released out.0 ≡ 1)
                × (on_sent out.1
                    ≡ returned (record p {
                      outstate = Outstate.idle;
                      raised = p.raised ++ Event.pipe_out ∷ [];
                    }))))
  unfolding on_sent raise
  send-ready vsend self p t u rc o e s r = elim (SentOnce-cases p.outstate s) [
    | inl k ↦ (
      (release rc, record p { outstate = Outstate.async }, u),
      send-idle vsend self t o ∙ rw e (after_send-sending rc p u k),
      inr (release-bit rc r, refl),
    )
    | inr k ↦ (
      (rc, record p { outstate = Outstate.idle }, u),
      send-idle vsend self t o ∙ rw e (after_send-sent rc p u k),
      inl (r, refl),
    )
  ]

module _ {T Msg : Type 0} where
  pub after_recv-receiving :
      (rc : ℕ) (m : Msg) (p : Pipebase) (t : T)
      → p.instate ≡ Instate.receiving
      → after_recv (pos rc, m, p, t)
        ≡ returned (release rc, m, record p { instate = Instate.async }, t)
  unfolding after_recv
  after_recv-receiving rc m p t e = ground (arith, e)

  pub after_recv-received :
      (rc : ℕ) (m : Msg) (p : Pipebase) (t : T)
      → p.instate ≡ Instate.received
      → after_recv (pos rc, m, p, t) ≡ returned (rc, m, record p { instate = Instate.idle }, t)
  unfolding after_recv
  after_recv-received rc m p t e = ground (arith, e)

  pub recv-idle :
      (vrecv : Pipebase → T → Outcome (ℤ × Msg × Pipebase × T)) (self : Pipebase) (t : T)
      → self.instate ≡ Instate.idle
      → recv vrecv self t ≡ (vrecv (record self { instate = Instate.receiving }) t >>= after_recv)
  unfolding recv
  recv-idle vrecv self t e = ground (arith, e)

  -- nn_pipe_recv on a pipe that has a message, when the transport gives it without
  -- NN_PIPEBASE_RELEASE in its result and calls nn_pipebase_received at most once, passes all
  -- assertions and hands on the message. Either the result has no NN_PIPEBASE_RELEASE and the pipe can
  -- be received from again, or the result has it, and the next nn_pipebase_received makes the pipe
  -- ready and raises NN_PIPE_IN.
  pub recv-ready :
      (vrecv : Pipebase → T → Outcome (ℤ × Msg × Pipebase × T)) (self p : Pipebase) (t u : T)
      (m : Msg) (rc : ℕ)
      → self.instate ≡ Instate.idle
      → vrecv (record self { instate = Instate.receiving }) t ≡ returned (pos rc, m, p, u)
      → ReceivedOnce p.instate
      → is_released rc ≡ 0
      → (out : ℕ × Msg × Pipebase × T) × (recv vrecv self t ≡ returned out)
        × (out.1 ≡ m)
        × (((is_released out.0 ≡ 0) × (out.2 ≡ record p { instate = Instate.idle }))
            ⊎ ((is_released out.0 ≡ 1)
                × (on_received out.2
                    ≡ returned (record p {
                      instate = Instate.idle;
                      raised = p.raised ++ Event.pipe_in ∷ [];
                    }))))
  unfolding on_received raise
  recv-ready vrecv self p t u m rc o e s r = elim (ReceivedOnce-cases p.instate s) [
    | inl k ↦ (
      (release rc, m, record p { instate = Instate.async }, u),
      recv-idle vrecv self t o ∙ rw e (after_recv-receiving rc m p u k),
      refl,
      inr (release-bit rc r, refl),
    )
    | inr k ↦ (
      (rc, m, record p { instate = Instate.idle }, u),
      recv-idle vrecv self t o ∙ rw e (after_recv-received rc m p u k),
      refl,
      inl (r, refl),
    )
  ]

pub on_received-async :
    (p : Pipebase)
    → p.instate ≡ Instate.async
    → on_received p
      ≡ returned (record p { instate = Instate.idle; raised = p.raised ++ Event.pipe_in ∷ [] })
unfolding on_received raise
on_received-async p e = ground (arith, e)

pub on_received-receiving :
    (p : Pipebase)
    → p.instate ≡ Instate.receiving
    → on_received p ≡ returned (record p { instate = Instate.received })
unfolding on_received
on_received-receiving p e = ground (arith, e)
