-- ===== src/Bot/LivePreview/Delivery.antt =====
-- What the workflow returns, and when it says that a preview was delivered.
use funi.Common.{
  ℕ, ◌<◌, ◌≡◌, refl, sym, ap, ◌∙◌, Bool, true, false, Option, none, some, arith, Result, ok, err,
  Text,
}
use funi.Bot.LivePreview.Defs.{
  TerminalPhase, delivered, failed, superseded, delivery_failed, Outcome,
  authoritative_live_preview, explicit_fail_closed, superseded_no_op, live_preview_compute,
  live_preview_persist_computed, telegram_final_preview_delivery, Code, Thrown, Terminal, Execution,
  terminalize, cancel_work,
}
use funi.Bot.LivePreview.Run.{World, Settled, fulfilled, ◌>>=◌, ◌>>◌, return}
use funi.Bot.LivePreview.Workflow.{
  Script, may_throw, notify_terminal, conclude, code_of, fail_with, caught, attempt,
  run_live_preview_delivery_workflow, recovered, recovered_at, delivers,
}
use funi.Bot.LivePreview.Rules.{
  Post, Post-continue, Post-weaken, is_delivered, WorldIsCalm, Passed, Done, validates-Post,
  marks-Post, run_stage-Post,
}

terminalize_ends :
    (s : Execution) (p : TerminalPhase) (o : Outcome) (c : Code) (now : ℕ)
    → (terminalize s p o c now).0.terminal ≡ some (terminalize s p o c now).1
unfolding terminalize
terminalize_ends s p o c now = ground arith

-- A terminal that fails is a delivery only if there was one before.
fails_undelivered :
    (s : Execution) (e : Thrown) (o : Outcome) (c : Code) (now : ℕ)
    → is_delivered (some (terminalize (cancel_work s e) failed o c now).1) ≡ true
    → is_delivered s.terminal ≡ true
unfolding terminalize cancel_work
fails_undelivered s e o c now h = ground arith

module _ {R : Type 0} where
  abbrev pub HasTerminal : Terminal → World R → Type 0
  HasTerminal t w = w.execution.terminal ≡ some t

  -- The call leaves the terminal `t`, and returns nothing else.
  abbrev pub EndsWith : Terminal → World R × Result Thrown Terminal → Type 0
  EndsWith t = Post (λ r w. HasTerminal t w × (r ≡ t)) (HasTerminal t)

  notify_terminal-Post :
      (t : Terminal) (current : Bool) (notice : Thrown × Bool) (how : Settled (Unit {0}))
      (w : World R)
      → HasTerminal t w
      → Post
          (λ (shown : Bool). HasTerminal t)
          (HasTerminal t)
          (notify_terminal current notice how w)
  unfolding notify_terminal
  notify_terminal-Post t current notice how w h = ground arith

  may_throw-Post :
      (P : World R → Type 0) (e : Option Thrown) (w : World R)
      → P w
      → Post (λ (u : Unit {0}). P) P (may_throw e w)
  may_throw-Post P none w h = h
  may_throw-Post P (some e) w h = h

  module _ {V : Type 0} (i : Script V) where
    failure : World R → Thrown → Terminal
    failure w e =
        (terminalize (cancel_work w.execution e) failed explicit_fail_closed (code_of e)
          i.failed_at).1

    fail_with-EndsWith : (e : Thrown) (w : World R) → EndsWith (failure w e) (fail_with i e w)
    unfolding fail_with failure
    fail_with-EndsWith e w =
        let t = failure w e in
        Post-continue (λ (u : Unit {0}). HasTerminal t) (λ r w'. HasTerminal t w' × (r ≡ t))
          (HasTerminal t) (may_throw i.persist_failure _) _
          (may_throw-Post (HasTerminal t) i.persist_failure _ (
            terminalize_ends (cancel_work w.execution e) failed explicit_fail_closed (code_of e)
              i.failed_at))
          λ u w1 h1.
            Post-continue (λ (shown : Bool). HasTerminal t) (λ r w'. HasTerminal t w' × (r ≡ t))
              (HasTerminal t) _ _ (notify_terminal-Post t i.current_at_notice _ i.notice w1 h1)
              λ shown w2 h2. (h2, refl)

    -- The terminal that is left is a delivery only if there was one before.
    abbrev Recovers : World R → World R × Result Thrown Terminal → Type 0
    Recovers w x =
        (t : Terminal) × EndsWith t x
        × (is_delivered (some t) ≡ true → is_delivered w.execution.terminal ≡ true)

    fail_with-Recovers : (e : Thrown) (w : World R) → Recovers w (fail_with i e w)
    unfolding failure
    fail_with-Recovers e w = (
      failure w e,
      fail_with-EndsWith e w,
      fails_undelivered w.execution e explicit_fail_closed (code_of e) i.failed_at,
    )

    recovered_at-Recovers :
        (p : TerminalPhase) (t : Terminal) (e : Thrown) (w : World R)
        → HasTerminal t w
        → Recovers w (recovered_at p t i e w)
    recovered_at-Recovers superseded t e w h = (t, (h, refl), λ d. ap is_delivered h ∙ d)
    recovered_at-Recovers delivered t e w h = fail_with-Recovers e w
    recovered_at-Recovers failed t e w h = fail_with-Recovers e w
    recovered_at-Recovers delivery_failed t e w h = fail_with-Recovers e w

    recovered-Recovers :
        (o : Option Terminal) (e : Thrown) (w : World R)
        → w.execution.terminal ≡ o
        → Recovers w (recovered o i e w)
    recovered-Recovers none e w eq = fail_with-Recovers e w
    recovered-Recovers (some t) e w eq = recovered_at-Recovers t.phase t e w eq

    -- What the `try` block leaves, the `catch` block keeps.
    caught-EndsWith :
        (Q : Type 0) (x : World R × Result Thrown Terminal)
        → Post
            (λ t w. HasTerminal t w × (is_delivered (some t) ≡ true → Q))
            (λ w. is_delivered w.execution.terminal ≡ true → Q)
            x
        → (t : Terminal) × EndsWith t (caught i x) × (is_delivered (some t) ≡ true → Q)
    unfolding caught
    caught-EndsWith Q (w, ok t) h = (t, (h.0, refl), h.1)
    caught-EndsWith Q (w, err e) h =
        let r = recovered-Recovers w.execution.terminal e w refl in (r.0, r.1, λ d. h (r.2 d))

module _ {V R : Type 0} (render : V → Text → R) (computed_outcome : V → Outcome) where
  -- What stands behind a delivered preview.
  pub record Evidence (i : Script V) (D : ℕ) : Type 0 where
    pub value : V
    pub is_computed : i.compute.settled ≡ fulfilled value
    pub is_authoritative : computed_outcome value ≡ authoritative_live_preview
    pub is_persisted : i.persist.settled ≡ fulfilled tt
    pub is_received : i.delivery.settled ≡ fulfilled tt
    pub is_current : i.delivery.later.current ≡ true
    pub is_in_time : i.delivery.later.now < D

  conclude-Post :
      (D : ℕ) (o : Outcome) (now : ℕ) (w : World R)
      → WorldIsCalm D w
      → Post
          (λ t w'.
            HasTerminal t w' × (is_delivered (some t) ≡ true → o ≡ authoritative_live_preview))
          (λ w'. ⊥)
          (conclude o now w)
  unfolding conclude terminalize
  conclude-Post D authoritative_live_preview now w h = ground arith
  conclude-Post D explicit_fail_closed now w h = ground arith
  conclude-Post D superseded_no_op now w h = ground arith

  module _ (i : Script V) (D : ℕ) where
    abbrev Claims : Option Terminal → Type 0
    Claims t = is_delivered t ≡ true → Evidence i D

    abbrev Left : World R → Type 0
    Left w = Claims w.execution.terminal

    abbrev Returned : Terminal → World R → Type 0
    Returned t w = HasTerminal t w × Claims (some t)

    calm-Left : (w : World R) → WorldIsCalm D w → Left w
    calm-Left w h = λ d. absurd (ground arith)

    -- The last steps, after `deliver` was fulfilled.
    finish-Post :
        (value : V) (w : World R)
        → i.compute.settled ≡ fulfilled value
        → i.persist.settled ≡ fulfilled tt
        → Done D i.delivery tt w
        → Post Returned Left (
            (do
              t ← conclude (computed_outcome value) i.concluded_at
              may_throw i.persist_terminal
              return t)
              w)
    finish-Post value w got kept h =
        Post-weaken (λ t w'. HasTerminal t w' × Claims (some t)) Returned (λ w'. ⊥) Left
          (conclude (computed_outcome value) i.concluded_at w) _ (λ w' none. absurd none)
          (concluded (conclude (computed_outcome value) i.concluded_at w)
            (conclude-Post D (computed_outcome value) i.concluded_at w h.0))
          λ t w1 h1.
            Post-continue (λ (u : Unit {0}). Returned t) Returned Left
              (may_throw i.persist_terminal w1) _ (told i.persist_terminal t w1 h1) λ u w2 h2. h2
      where
        concluded :
            (x : World R × Result Thrown Terminal)
            → Post
                (λ t w'.
                  HasTerminal t w'
                  × (is_delivered (some t) ≡ true
                      → computed_outcome value ≡ authoritative_live_preview))
                (λ w'. ⊥)
                x
            → Post (λ t w'. HasTerminal t w' × Claims (some t)) (λ w'. ⊥) x
        concluded (w', ok t) p = (
          p.0,
          λ d. record {
            value = value;
            is_computed = got;
            is_authoritative = p.1 d;
            is_persisted = kept;
            is_received = h.1;
            is_current = h.2;
            is_in_time = h.3;
          },
        )
        concluded (w', err e) p = p

        told :
            (e : Option Thrown) (t : Terminal) (w' : World R)
            → Returned t w'
            → Post {R = R} (λ (u : Unit {0}). Returned t) Left (may_throw e w')
        told none t w' p = p
        told (some e) t w' p = λ d. p.1 (sym (ap is_delivered p.0) ∙ d)

    attempt-Post :
        (w : World R) → WorldIsCalm D w → Post Returned Left (attempt render computed_outcome i w)
    unfolding attempt
    attempt-Post w h =
        Post-weaken (Done D i.compute) Returned (WorldIsCalm D) Left _ _ calm-Left
          (run_stage-Post D live_preview_compute none 1500 (λ w'. w') i.compute w (λ w' c. c) h)
          λ value w1 h1.
            Post-weaken (λ (u : Unit {0}). Passed D i.computed_at) Returned (WorldIsCalm D) Left _ _
              calm-Left (validates-Post D i.computed_at w1 h1.0)
              λ u w2 h2.
                Post-weaken (Done D i.persist) Returned (WorldIsCalm D) Left _ _ calm-Left
                  (run_stage-Post D live_preview_persist_computed none 1200 (λ w'. w') i.persist w2
                    (λ w' c. c) h2.0)
                  λ u w3 h3.
                    Post-weaken (λ (u : Unit {0}). Passed D i.marked_at) Returned (WorldIsCalm D)
                      Left _ _ calm-Left (marks-Post D i.marked_at w3 h3.0)
                      λ u w4 h4.
                        Post-weaken (λ (u : Unit {0}). Passed D i.checked_at) Returned
                          (WorldIsCalm D) Left _ _ calm-Left (validates-Post D i.checked_at w4 h4.0)
                          λ u w5 h5.
                            Post-weaken (Done D i.delivery) Returned (WorldIsCalm D) Left _ _
                              calm-Left
                              (run_stage-Post D telegram_final_preview_delivery (some 3000) 1000
                                (delivers render computed_outcome value) i.delivery w5 (λ w' c. c)
                                h5.0)
                              λ u w6 h6. finish-Post value w6 h1.1 h3.1 h6

  workflow_leaves :
      (i : Script V) (w : World R)
      → is_delivered w.execution.terminal ≡ false
      → (t : Terminal) × EndsWith t (run_live_preview_delivery_workflow render computed_outcome i w)
        × (is_delivered (some t) ≡ true → Evidence i w.execution.identity.hard_deadline_at_ms)
  unfolding run_live_preview_delivery_workflow
  workflow_leaves i w calm =
      let D = w.execution.identity.hard_deadline_at_ms in
      caught-EndsWith i (Evidence i D) (attempt render computed_outcome i w)
        (attempt-Post i D w (calm, refl))

  terminal_of :
      (t : Terminal) (x : World R × Result Thrown Terminal) → EndsWith t x → HasTerminal t x.0
  terminal_of t (w, ok r) h = h.0
  terminal_of t (w, err e) h = h

  -- Started on a context in which nothing has been delivered, the workflow leaves a terminal, however
  -- its operations settle and whatever interferes; what it returns, if it returns, is that terminal.
  pub workflow_concludes :
      (i : Script V) (w : World R)
      → is_delivered w.execution.terminal ≡ false
      → (t : Terminal) × EndsWith t (run_live_preview_delivery_workflow render computed_outcome i w)
  workflow_concludes i w calm = let l = workflow_leaves i w calm in (l.0, l.1)

  -- Started on a context in which nothing has been delivered, the workflow leaves a terminal that says
  -- DELIVERED only if the computed value's outcome is authoritative, computing, persisting and
  -- delivering it were each fulfilled, and the identity was still current and the deadline not reached
  -- when the delivery came back.
  pub delivered_is_authoritative :
      (i : Script V) (w : World R) (t : Terminal)
      → is_delivered w.execution.terminal ≡ false
      → (run_live_preview_delivery_workflow render computed_outcome i w).0.execution.terminal
        ≡ some t
      → is_delivered (some t) ≡ true
      → Evidence i w.execution.identity.hard_deadline_at_ms
  delivered_is_authoritative i w t calm left d =
      let l = workflow_leaves i w calm in
      let x = run_live_preview_delivery_workflow render computed_outcome i w in
      l.2 (ap is_delivered (sym (terminal_of l.0 x l.1) ∙ left) ∙ d)
