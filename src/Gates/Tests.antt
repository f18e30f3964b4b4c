-- ===== src/Gates/Tests.antt =====
-- The theorem on gates, applied to an environment that opens them.
use funi.Common.{
  normalized, ◌≡◌, refl, true, false, not, ◌&&◌, Option, some, Text, text, text_eq, lower,
}
use funi.Gates.Defs.{
  Key, GateInput, true_values, false_values, read_canonical_execution_gates,
  evaluate_canonical_execution_gates, passes,
}
use funi.Gates.Pass.{is_set_to, gates_pass_iff}

abbrev open_env : Key → Option Text
open_env Key.execution_enabled = some (text " TRUE ")
open_env Key.dry_run = some (text "off")
open_env Key.emergency_pause = some (text "0")

abbrev input : GateInput
input = record {
  env = open_env;
  signer_ready = true;
  chain_ready = true;
  deployment_ready = true;
  manual_pause = false;
}

gates_pass_iff_example :
    passes (evaluate_canonical_execution_gates (read_canonical_execution_gates input)) ≡ (
      is_set_to true_values (some (text " TRUE "))
      && (is_set_to false_values (some (text "off"))
          && (is_set_to false_values (some (text "0")) && (not false && (true && (true && true))))))
gates_pass_iff_example = gates_pass_iff input

gates_open :
    passes (evaluate_canonical_execution_gates (read_canonical_execution_gates input)) ≡ true
unfolding evaluate_canonical_execution_gates read_canonical_execution_gates normalized lower text_eq
gates_open = refl
