-- ===== src/Bot/LivePreview/Run.antt =====
-- The method `run` and what may happen while it waits.
use funi.Common.{
  ℕ, ◌-◌, min, Bool, true, false, Option, none, some, List, [], ◌∷◌, Text, leb, coalesce,
  if◌then◌else◌, Result, ok, err,
}
use funi.Bot.LivePreview.Defs.{
  Phase, preparing, computed, ended, superseded, Stage, Code, identity_superseded,
  operation_budget_exhausted, timeout, Thrown, lifecycle, Terminal, Execution, Moment, supersede,
  hard_timer_fires, remaining_ms, validate_current, mark_computed,
}

-- The context, the liquidity line of the workflow, what was passed to `deliver`, and the failure
-- notices with the error that each tells and whether it speaks of a timeout.
pub record World (R : Type 0) : Type 0 where
  pub execution : Execution
  pub liquidity_line : Text
  pub sent : List R
  pub notices : List (Thrown × Bool)

-- What runs while an operation is awaited: the hard timer, another caller that supersedes, and the
-- optional liquidity line, which arrives or fails.
pub data Interference : Type 0 where
  timer_fires : ℕ → Interference
  supersedes : Code → ℕ → Interference
  liquidity_settles : Option Text → Moment → Interference

-- How an awaited promise ends: `pending` outlasts the budget.
pub data Settled (A : Type 0) : Type 0 where
  fulfilled : A → Settled A
  rejected : Thrown → Settled A
  pending : Settled A

pub record Wait (A : Type 0) : Type 0 where
  pub before : Moment
  pub interim : List Interference
  pub settled : Settled A
  pub later : Moment

pub record Options : Type 0 where
  pub max_ms : Option ℕ
  pub reserve_ms : ℕ
  pub terminal_delivery : Bool

module _ {R : Type 0} where
  abbrev pub in_world : World R → Execution → World R
  in_world w s = record w { execution = s }

  abbrev pub line_after : World R → Text → Execution × Result Thrown (Unit {0}) → World R
  line_after w value (s, ok done) = record w { execution = s; liquidity_line = value }
  line_after w value (s, err e) = record w { execution = s }

  abbrev pub liquidity_arrives : Phase → World R → Text → Moment → World R
  liquidity_arrives preparing w value m = line_after w value (validate_current w.execution m)
  liquidity_arrives computed w value m = w
  liquidity_arrives (ended p) w value m = w

  unfoldable pub interfere : World R → Interference → World R
  interfere w (timer_fires now) = in_world w (hard_timer_fires w.execution now)
  interfere w (supersedes code now) = in_world w (supersede w.execution code now).0
  interfere w (liquidity_settles none m) = w
  interfere w (liquidity_settles (some value) m) = liquidity_arrives w.execution.phase w value m

  unfoldable pub disturb : World R → List Interference → World R
  disturb w [] = w
  disturb w (e ∷ es) = disturb (interfere w e) es

-- A call that may throw keeps what it did to the world.
abbrev pub M : Type 0 → Type 0 → Type 0
M R A = World R → World R × Result Thrown A

module _ {R A B : Type 0} where
  abbrev pub continue : World R × Result Thrown A → (A → M R B) → World R × Result Thrown B
  continue (w, ok a) f = f a w
  continue (w, err e) f = (w, err e)

  infixl 5 ◌>>=◌
  abbrev pub ◌>>=◌ : M R A → (A → M R B) → M R B
  ◌>>=◌ m f w = continue (m w) f

infixl 5 ◌>>◌
abbrev pub ◌>>◌ : {R B : Type 0} → M R (Unit {0}) → M R B → M R B
m >> k = m >>= λ _. k

abbrev pub delivery_allowed :
    Option Terminal → Execution → Moment → Execution × Result Thrown (Unit {0})
delivery_allowed none s m =
    if m.current
    then (s, ok tt)
    else ((supersede s identity_superseded m.now).0, err (lifecycle identity_superseded))
delivery_allowed (some t) s m = elim t.phase [
  | superseded ↦ (s, err (lifecycle t.code))
  | _ ↦
      if m.current
      then (s, ok tt)
      else ((supersede s identity_superseded m.now).0, err (lifecycle identity_superseded))
]

abbrev pub available_ms : Options → Execution → ℕ → ℕ
available_ms o s now = remaining_ms s now - o.reserve_ms

abbrev pub budget_ms : Options → Execution → ℕ → ℕ
budget_ms o s now = min (coalesce o.max_ms (available_ms o s now)) (available_ms o s now)

-- The reason that reaches the operation's own controller first.
abbrev pub abort_reason : Bool → Execution → Option Thrown
abort_reason true s = s.deadline_aborted
abort_reason false s = elim s.aborted [ some e ↦ some e | none ↦ s.deadline_aborted ]

abbrev pub settles : {A : Type 0} → Stage → Settled A → Result Thrown A
settles stage (fulfilled a) = ok a
settles stage (rejected e) = err e
settles stage pending = err (lifecycle (timeout stage))

abbrev pub raced : {A : Type 0} → Option Thrown → Result Thrown A → Result Thrown A
raced (some reason) r = err reason
raced none r = r

module _ {R : Type 0} where
  abbrev pub lifted :
      {A : Type 0} → World R → Execution × Result Thrown A → World R × Result Thrown A
  lifted w (s, r) = (in_world w s, r)

  unfoldable pub validates : Moment → M R (Unit {0})
  validates m w = lifted w (validate_current w.execution m)

  unfoldable pub marks : Moment → M R (Unit {0})
  marks m w = lifted w (mark_computed w.execution m)

  -- The first test of `run`.
  abbrev pub enters : Bool → Moment → M R (Unit {0})
  enters false m w = validates m w
  enters true m w = lifted w (delivery_allowed w.execution.terminal w.execution m)

  abbrev pub has_budget : Options → ℕ → M R (Unit {0})
  has_budget o now w =
      if leb (budget_ms o w.execution now) 0
      then (w, err (lifecycle operation_budget_exhausted))
      else (w, ok tt)

  -- `Promise.race`: whatever interferes comes before the operation settles.
  unfoldable pub race : {A : Type 0} → Bool → Stage → Wait A → M R A
  unfolding disturb
  race delivery stage wait w =
      let w' = disturb w wait.interim in
      (w', raced (abort_reason delivery w'.execution) (settles stage wait.settled))

  abbrev pub leaves : Bool → Moment → M R (Unit {0})
  leaves false m w = validates m w
  leaves true m w = (w, ok tt)

  abbrev pub does : (World R → World R) → M R (Unit {0})
  does f w = (f w, ok tt)

  abbrev pub return : {A : Type 0} → A → M R A
  return a w = (w, ok a)

  -- `started` is what the operation does to the world when it is called.
  unfoldable pub run_stage : {A : Type 0} → Stage → Options → (World R → World R) → Wait A → M R A
  unfolding validates race
  run_stage stage o started wait = do
    enters o.terminal_delivery wait.before
    has_budget o wait.before.now
    does started
    value ← race o.terminal_delivery stage wait
    leaves o.terminal_delivery wait.later
    return value
