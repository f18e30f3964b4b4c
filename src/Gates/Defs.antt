-- ===== src/Gates/Defs.antt =====
-- `parseStrictBoolean`, `readCanonicalExecutionGates` and `evaluateCanonicalExecutionGates`. A value of
-- the environment is a string or missing.
use funi.Common.{
  normalized, Bool, true, false, not, ◌&&◌, Option, none, some, List, [], ◌∷◌, ◌++◌, Text, text,
  text_eq, any_where, if◌then◌else◌, Result, ok, err,
}

abbrev pub true_values : List Text
true_values = text "true" ∷ text "1" ∷ text "yes" ∷ text "on" ∷ []

abbrev pub false_values : List Text
false_values = text "false" ∷ text "0" ∷ text "no" ∷ text "off" ∷ []

abbrev pub is_one_of : List Text → Text → Bool
is_one_of words s = any_where (text_eq s) words

-- What an environment variable is called, and the error that names it.
pub data Key : Type 0 where
  execution_enabled dry_run emergency_pause : Key

pub data Error : Type 0 where
  config_invalid : Key → Error

-- `parseStrictBoolean` with a fallback.
abbrev pub parse_word : Key → Text → Result Error Bool
parse_word key s =
    if is_one_of true_values (normalized s)
    then ok true
    else (if is_one_of false_values (normalized s) then ok false else err (config_invalid key))

unfoldable pub parse_strict_boolean : Key → Option Text → Bool → Result Error Bool
unfolding normalized
parse_strict_boolean key none fallback = ok fallback
parse_strict_boolean key (some []) fallback = ok fallback
parse_strict_boolean key (some (c ∷ s)) fallback = parse_word key (c ∷ s)

pub record Gates : Type 0 where
  pub execution_enabled : Bool
  pub dry_run : Bool
  pub emergency_pause : Bool
  pub signer_ready : Bool
  pub chain_ready : Bool
  pub deployment_ready : Bool
  pub manual_pause : Bool
  pub config_valid : Bool
  pub config_errors : List Error

pub record GateInput : Type 0 where
  pub env : Key → Option Text
  pub signer_ready : Bool
  pub chain_ready : Bool
  pub deployment_ready : Bool
  pub manual_pause : Bool

abbrev pub value_or : Bool → Result Error Bool → Bool
value_or fallback (ok b) = b
value_or fallback (err e) = fallback

abbrev pub errors_of : Result Error Bool → List Error
errors_of (ok b) = []
errors_of (err e) = e ∷ []

abbrev pub no_errors : List Error → Bool
no_errors [] = true
no_errors (e ∷ es) = false

-- `readCanonicalExecutionGates`: a switch that does not parse has its fallback and leaves an error.
abbrev pub gates_of :
    (enabled dry pause : Result Error Bool) (signer chain deployment manual : Bool) → Gates
gates_of enabled dry pause signer chain deployment manual = record {
  execution_enabled = value_or false enabled;
  dry_run = value_or true dry;
  emergency_pause = value_or true pause;
  signer_ready = signer;
  chain_ready = chain;
  deployment_ready = deployment;
  manual_pause = manual;
  config_valid = no_errors (errors_of enabled ++ (errors_of dry ++ errors_of pause));
  config_errors = errors_of enabled ++ (errors_of dry ++ errors_of pause);
}

unfoldable pub read_canonical_execution_gates : GateInput → Gates
unfolding parse_strict_boolean
read_canonical_execution_gates i =
    gates_of (parse_strict_boolean Key.execution_enabled (i.env Key.execution_enabled) false)
      (parse_strict_boolean Key.dry_run (i.env Key.dry_run) true)
      (parse_strict_boolean Key.emergency_pause (i.env Key.emergency_pause) true) i.signer_ready
      i.chain_ready i.deployment_ready i.manual_pause

pub data Reason : Type 0 where
  config_error : Error → Reason
  execution_disabled dry_run_enabled emergency_pause manual_pause : Reason
  protected_signer_required wrong_chain v4_deployment_unverified : Reason

abbrev pub reasons_of_errors : List Error → List Reason
reasons_of_errors [] = []
reasons_of_errors (e ∷ es) = config_error e ∷ reasons_of_errors es

abbrev pub reason_if : Bool → Reason → List Reason
reason_if c r = if c then r ∷ [] else []

-- `evaluateCanonicalExecutionGates`: the reasons, and the verdict is PASS where there are none.
unfoldable pub evaluate_canonical_execution_gates : Gates → List Reason
evaluate_canonical_execution_gates g =
    reasons_of_errors g.config_errors
    ++ (reason_if (not g.execution_enabled) execution_disabled
        ++ (reason_if g.dry_run dry_run_enabled
            ++ (reason_if (g.config_valid && g.emergency_pause) Reason.emergency_pause
                ++ (reason_if g.manual_pause Reason.manual_pause
                    ++ (reason_if (not g.signer_ready) protected_signer_required
                        ++ (reason_if (not g.chain_ready) wrong_chain
                            ++ reason_if (not g.deployment_ready) v4_deployment_unverified))))))

abbrev pub passes : List Reason → Bool
passes [] = true
passes (r ∷ rs) = false
