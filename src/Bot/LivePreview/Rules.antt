-- ===== src/Bot/LivePreview/Rules.antt =====
-- Rules for calls that may throw, and the state in which nothing has been delivered.
use funi.Common.{
  ℕ, ◌<◌, ◌≡◌, refl, inl, inr, Bool, true, false, Option, none, some, List, [], ◌∷◌, arith,
  Bool-cases, Result, ok, err, Text, leb,
}
use funi.Bot.LivePreview.Defs.{
  TerminalPhase, Phase, preparing, computed, ended, delivered, failed, superseded, delivery_failed,
  Stage, Outcome, Code, Thrown, Terminal, Execution, Moment, terminalize, supersede,
  hard_timer_fires, validate_current, mark_computed, explicit_fail_closed, superseded_no_op,
  hard_deadline, identity_superseded, computed_from, computed_after,
}
use funi.Bot.LivePreview.Run.{
  World, Interference, timer_fires, supersedes, liquidity_settles, Settled, fulfilled, rejected,
  pending, Wait, Options, interfere, disturb, M, continue, validates, marks, race, run_stage,
  liquidity_arrives, line_after, settles, abort_reason, raced, budget_ms, has_budget, lifted,
}

module _ {R A : Type 0} where
  -- What holds of the value and the world after a call that returns, and of the world after one that
  -- throws.
  abbrev pub Post : (A → World R → Type 0) → (World R → Type 0) → World R × Result Thrown A → Type 0
  Post P Q (w, ok a) = P a w
  Post P Q (w, err e) = Q w

module _ {R A B : Type 0} where
  pub Post-continue :
      (P : A → World R → Type 0) (P' : B → World R → Type 0) (Q : World R → Type 0)
      (x : World R × Result Thrown A) (f : A → M R B)
      → Post P Q x
      → ((a : A) (w : World R) → P a w → Post P' Q (f a w))
      → Post P' Q (continue x f)
  Post-continue P P' Q (w, ok a) f h k = k a w h
  Post-continue P P' Q (w, err e) f h k = h

module _ {R A B : Type 0} where
  -- The same, where less is known after a call that throws.
  pub Post-weaken :
      (P : A → World R → Type 0) (P' : B → World R → Type 0) (Q Q' : World R → Type 0)
      (x : World R × Result Thrown A) (f : A → M R B)
      → ((w : World R) → Q w → Q' w)
      → Post P Q x
      → ((a : A) (w : World R) → P a w → Post P' Q' (f a w))
      → Post P' Q' (continue x f)
  Post-weaken P P' Q Q' (w, ok a) f imp h k = k a w h
  Post-weaken P P' Q Q' (w, err e) f imp h k = imp w h

abbrev pub is_delivered : Option Terminal → Bool
is_delivered none = false
is_delivered (some t) = elim t.phase [ delivered ↦ true | _ ↦ false ]

-- Nothing has been delivered, and the deadline is `D`.
abbrev pub IsCalm : ℕ → Execution → Type 0
IsCalm D s = (is_delivered s.terminal ≡ false) × (s.identity.hard_deadline_at_ms ≡ D)

terminalize-IsCalm :
    (D : ℕ) (s : Execution) (p : TerminalPhase) (o : Outcome) (c : Code) (now : ℕ)
    → is_delivered (some (record { phase = p; outcome = o; code = c; terminal_at_ms = now }))
      ≡ false
    → IsCalm D s
    → IsCalm D (terminalize s p o c now).0
unfolding terminalize
terminalize-IsCalm D s p o c now e h = ground arith

supersede-IsCalm :
    (D : ℕ) (s : Execution) (c : Code) (now : ℕ) → IsCalm D s → IsCalm D (supersede s c now).0
unfolding supersede
supersede-IsCalm D s c now h = terminalize-IsCalm D s superseded superseded_no_op c now refl h

hard_timer_fires-IsCalm :
    (D : ℕ) (s : Execution) (now : ℕ) → IsCalm D s → IsCalm D (hard_timer_fires s now)
unfolding hard_timer_fires
hard_timer_fires-IsCalm D s now h = ground (
  arith,
  terminalize-IsCalm D s failed explicit_fail_closed hard_deadline now refl,
  terminalize-IsCalm D s delivery_failed explicit_fail_closed hard_deadline now refl,
)

-- A context that passes the test is current and before its deadline.
abbrev pub Validated : ℕ → Moment → Execution × Result Thrown (Unit {0}) → Type 0
Validated D m (s, ok u) = IsCalm D s × (m.current ≡ true) × (m.now < D)
Validated D m (s, err e) = IsCalm D s

validate_current-Validated :
    (D : ℕ) (s : Execution) (m : Moment) → IsCalm D s → Validated D m (validate_current s m)
unfolding validate_current
validate_current-Validated D s m h = ground (
  arith,
  terminalize-IsCalm D s failed explicit_fail_closed hard_deadline m.now refl h,
  supersede-IsCalm D s identity_superseded m.now h,
)

mark_computed-Validated :
    (D : ℕ) (s : Execution) (m : Moment) → IsCalm D s → Validated D m (mark_computed s m)
unfolding mark_computed
mark_computed-Validated D s m h = marked (validate_current s m) (validate_current-Validated D s m h)
  where
    from_phase :
        (p : Phase) (s' : Execution)
        → IsCalm D s'
        → m.current ≡ true
        → m.now < D
        → Validated D m (computed_from p s')
    from_phase preparing s' h' c n = (h', c, n)
    from_phase computed s' h' c n = h'
    from_phase (ended p) s' h' c n = h'

    marked :
        (x : Execution × Result Thrown (Unit {0}))
        → Validated D m x
        → Validated D m (computed_after x)
    marked (s', ok u) v = from_phase s'.phase s' v.0 v.1 v.2
    marked (s', err e) v = v

module _ {R : Type 0} (D : ℕ) where
  abbrev pub WorldIsCalm : World R → Type 0
  WorldIsCalm w = IsCalm D w.execution

  line_after-IsCalm :
      (w : World R) (v : Text) (m : Moment) (x : Execution × Result Thrown (Unit {0}))
      → Validated D m x
      → WorldIsCalm (line_after w v x)
  line_after-IsCalm w v m (s, ok u) h = h.0
  line_after-IsCalm w v m (s, err e) h = h

  liquidity_arrives-IsCalm :
      (p : Phase) (w : World R) (v : Text) (m : Moment)
      → WorldIsCalm w
      → WorldIsCalm (liquidity_arrives p w v m)
  liquidity_arrives-IsCalm preparing w v m h =
      line_after-IsCalm w v m (validate_current w.execution m)
        (validate_current-Validated D w.execution m h)
  liquidity_arrives-IsCalm computed w v m h = h
  liquidity_arrives-IsCalm (ended p) w v m h = h

  interfere-IsCalm : (w : World R) (e : Interference) → WorldIsCalm w → WorldIsCalm (interfere w e)
  unfolding interfere
  interfere-IsCalm w (timer_fires now) h = hard_timer_fires-IsCalm D w.execution now h
  interfere-IsCalm w (supersedes c now) h = supersede-IsCalm D w.execution c now h
  interfere-IsCalm w (liquidity_settles none m) h = h
  interfere-IsCalm w (liquidity_settles (some v) m) h =
      liquidity_arrives-IsCalm w.execution.phase w v m h

  disturb-IsCalm :
      (w : World R) (es : List Interference) → WorldIsCalm w → WorldIsCalm (disturb w es)
  unfolding disturb
  disturb-IsCalm w [] h = h
  disturb-IsCalm w (e ∷ es) h = disturb-IsCalm (interfere w e) es (interfere-IsCalm w e h)

  -- What is known after a test that passed at the moment `m`.
  abbrev pub Passed : Moment → World R → Type 0
  Passed m w = WorldIsCalm w × (m.current ≡ true) × (m.now < D)

  lifted-Post :
      (m : Moment) (w : World R) (x : Execution × Result Thrown (Unit {0}))
      → Validated D m x
      → Post {R = R} (λ (u : Unit {0}). Passed m) WorldIsCalm (lifted w x)
  lifted-Post m w (s, ok u) h = h
  lifted-Post m w (s, err e) h = h

  pub validates-Post :
      (m : Moment) (w : World R)
      → WorldIsCalm w
      → Post (λ (u : Unit {0}). Passed m) WorldIsCalm (validates m w)
  unfolding validates
  validates-Post m w h =
      lifted-Post m w (validate_current w.execution m)
        (validate_current-Validated D w.execution m h)

  pub marks-Post :
      (m : Moment) (w : World R)
      → WorldIsCalm w
      → Post (λ (u : Unit {0}). Passed m) WorldIsCalm (marks m w)
  unfolding marks
  marks-Post m w h =
      lifted-Post m w (mark_computed w.execution m) (mark_computed-Validated D w.execution m h)

  has_budget-Post :
      (o : Options) (now : ℕ) (w : World R)
      → WorldIsCalm w
      → Post (λ (u : Unit {0}). WorldIsCalm) WorldIsCalm (has_budget o now w)
  has_budget-Post o now w h = elim (Bool-cases (leb (budget_ms o w.execution now) 0)) [
    | inl e ↦ rw e h
    | inr e ↦ rw e h
  ]

  module _ {A : Type 0} where
    race-Post :
        (delivery : Bool) (stage : Stage) (wait : Wait A) (w : World R)
        → WorldIsCalm w
        → Post
            (λ a w'. WorldIsCalm w' × (wait.settled ≡ fulfilled a))
            WorldIsCalm
            (race delivery stage wait w)
    unfolding race
    race-Post delivery stage wait w h =
        raced-Post (abort_reason delivery (disturb w wait.interim).execution) wait.settled refl
      where
        calm : WorldIsCalm (disturb w wait.interim)
        calm = disturb-IsCalm w wait.interim h

        raced-Post :
            (reason : Option Thrown) (how : Settled A)
            → wait.settled ≡ how
            → Post {R = R}
                (λ a w'. WorldIsCalm w' × (wait.settled ≡ fulfilled a))
                WorldIsCalm
                (disturb w wait.interim, raced reason (settles stage how))
        raced-Post (some e) how eq = calm
        raced-Post none (fulfilled a) eq = (calm, eq)
        raced-Post none (rejected e) eq = calm
        raced-Post none pending eq = calm

    -- An operation that returns was fulfilled, and its context was still current and in time.
    abbrev pub Done : Wait A → A → World R → Type 0
    Done wait a w =
        WorldIsCalm w
        × (wait.settled ≡ fulfilled a)
        × (wait.later.current ≡ true)
        × (wait.later.now < D)

    pub run_stage-Post :
        (stage : Stage) (max_ms : Option ℕ) (reserve_ms : ℕ) (started : World R → World R)
        (wait : Wait A) (w : World R)
        → ((w' : World R) → WorldIsCalm w' → WorldIsCalm (started w'))
        → WorldIsCalm w
        → Post (Done wait) WorldIsCalm (
            run_stage stage
              (record { max_ms = max_ms; reserve_ms = reserve_ms; terminal_delivery = false })
              started
              wait
              w)
    unfolding run_stage
    run_stage-Post stage max_ms reserve_ms started wait w keeps h =
        Post-continue (λ (u : Unit {0}). Passed wait.before) (Done wait) WorldIsCalm _ _
          (validates-Post wait.before w h)
          λ u w1 p1.
            Post-continue (λ (u : Unit {0}). WorldIsCalm) (Done wait) WorldIsCalm _ _
              (has_budget-Post
                (record { max_ms = max_ms; reserve_ms = reserve_ms; terminal_delivery = false })
                wait.before.now w1 p1.0)
              λ u w2 p2.
                Post-continue {A = A} (λ a w'. WorldIsCalm w' × (wait.settled ≡ fulfilled a))
                  (Done wait) WorldIsCalm (race false stage wait (started w2)) _
                  (race-Post false stage wait (started w2) (keeps w2 p2))
                  λ a w3 p3.
                    Post-continue (λ (u : Unit {0}). Passed wait.later) (Done wait) WorldIsCalm _ _
                      (validates-Post wait.later w3 p3.0) λ u w4 p4. (p4.0, p3.1, p4.1, p4.2)
