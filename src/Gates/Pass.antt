-- ===== src/Gates/Pass.antt =====
-- When the gates are open.
use funi.Common.{
  normalized, ◌≡◌, refl, ◌∙◌, Bool, true, false, not, ◌&&◌, ◌||◌, Option, none, some, List, [], ◌∷◌,
  arith, Text, text, text_eq, text_eq_iff, lower, inl, inr, Bool-cases, Result,
}
use funi.Gates.Defs.{
  Key, Error, gates_of, GateInput, true_values, false_values, is_one_of, parse_word,
  parse_strict_boolean, value_or, read_canonical_execution_gates,
  evaluate_canonical_execution_gates, passes,
}

-- A switch that is set to one of some words.
unfoldable pub is_set_to : List Text → Option Text → Bool
is_set_to words none = false
is_set_to words (some s) = is_one_of words (normalized s)

unset :
    (w x y z : Bool)
    → w ≡ false
    → x ≡ false
    → y ≡ false
    → z ≡ false
    → (w || (x || (y || (z || false)))) ≡ true
    → ⊥
unset w x y z a b c d h = ground arith

-- No word means both.
words_differ : (s : Text) → is_one_of true_values s ≡ true → is_one_of false_values s ≡ false
unfolding text_eq
words_differ s h = elim (Bool-cases (text_eq s (text "true"))) [
  | inl e ↦ rw ((text_eq_iff s (text "true")).0 e) refl
  | inr a ↦ elim (Bool-cases (text_eq s (text "1"))) [
    | inl e ↦ rw ((text_eq_iff s (text "1")).0 e) refl
    | inr b ↦ elim (Bool-cases (text_eq s (text "yes"))) [
      | inl e ↦ rw ((text_eq_iff s (text "yes")).0 e) refl
      | inr c ↦ elim (Bool-cases (text_eq s (text "on"))) [
        | inl e ↦ rw ((text_eq_iff s (text "on")).0 e) refl
        | inr d ↦ absurd (
            unset (text_eq s (text "true")) (text_eq s (text "1")) (text_eq s (text "yes"))
              (text_eq s (text "on")) a b c d h)
      ]
    ]
  ]
]

word_on :
    (key : Key) (s : Text)
    → value_or false (parse_word key s) ≡ is_one_of true_values (normalized s)
word_on key s = elim (Bool-cases (is_one_of true_values (normalized s))) [
  | inl e ↦ rw e refl
  | inr e ↦ elim (Bool-cases (is_one_of false_values (normalized s))) [
    | inl f ↦ rw (e, f) refl
    | inr f ↦ rw (e, f) refl
  ]
]

word_off :
    (key : Key) (s : Text)
    → not (value_or true (parse_word key s)) ≡ is_one_of false_values (normalized s)
word_off key s = elim (Bool-cases (is_one_of true_values (normalized s))) [
  | inl e ↦ rw (e, words_differ (normalized s) e) refl
  | inr e ↦ elim (Bool-cases (is_one_of false_values (normalized s))) [
    | inl f ↦ rw (e, f) refl
    | inr f ↦ rw (e, f) refl
  ]
]

-- A switch whose fallback is false is on exactly if it is set to a word for true.
on_if_set :
    (key : Key) (o : Option Text)
    → value_or false (parse_strict_boolean key o false) ≡ is_set_to true_values o
unfolding parse_strict_boolean is_set_to normalized lower text_eq
on_if_set key none = refl
on_if_set key (some []) = refl
on_if_set key (some (c ∷ s)) = word_on key (c ∷ s)

-- A switch whose fallback is true is off exactly if it is set to a word for false.
off_if_set :
    (key : Key) (o : Option Text)
    → not (value_or true (parse_strict_boolean key o true)) ≡ is_set_to false_values o
unfolding parse_strict_boolean is_set_to normalized lower text_eq
off_if_set key none = refl
off_if_set key (some []) = refl
off_if_set key (some (c ∷ s)) = word_off key (c ∷ s)

-- The verdict on three switches, each parsed or not, and the readiness of the runtime.
verdict :
    (enabled dry pause : Result Error Bool) (signer chain deployment manual : Bool)
    → passes (
        evaluate_canonical_execution_gates
          (gates_of enabled dry pause signer chain deployment manual))
      ≡ (value_or false enabled
          && (not (value_or true dry)
              && (not (value_or true pause) && (not manual && (signer && (chain && deployment))))))
unfolding evaluate_canonical_execution_gates
verdict enabled dry pause signer chain deployment manual = ground arith

-- The gates that are read from an environment pass exactly if EXECUTION_ENABLED is set to a word for
-- true, DRY_RUN and EMERGENCY_PAUSE are each set to a word for false, there is no manual pause, and the
-- signer, the chain and the deployment are ready.
pub gates_pass_iff :
    (i : GateInput)
    → passes (evaluate_canonical_execution_gates (read_canonical_execution_gates i)) ≡ (
        is_set_to true_values (i.env Key.execution_enabled)
        && (is_set_to false_values (i.env Key.dry_run)
            && (is_set_to false_values (i.env Key.emergency_pause)
                && (not i.manual_pause
                    && (i.signer_ready && (i.chain_ready && i.deployment_ready))))))
unfolding read_canonical_execution_gates
gates_pass_iff i =
    verdict (parse_strict_boolean Key.execution_enabled (i.env Key.execution_enabled) false)
      (parse_strict_boolean Key.dry_run (i.env Key.dry_run) true)
      (parse_strict_boolean Key.emergency_pause (i.env Key.emergency_pause) true) i.signer_ready
      i.chain_ready i.deployment_ready i.manual_pause
    ∙ rw
        (
          on_if_set Key.execution_enabled (i.env Key.execution_enabled),
          off_if_set Key.dry_run (i.env Key.dry_run),
          off_if_set Key.emergency_pause (i.env Key.emergency_pause),
        )
        refl
