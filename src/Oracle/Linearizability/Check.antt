-- ===== src/Oracle/Linearizability/Check.antt =====
-- The two oracles and the verdict of `check`. Of the two results of `parse_spans` in the source the
-- error is never made, so the model has the spans alone.
use propsim.Base.{ℕ, Bool, true, false, Text, [], ◌∷◌, ◌++◌, codes, length, if◌then◌else◌}
use propsim.Numerals.{show_radix}
use propsim.Core.Oracle.{
  Verdict, Oracle, RunOutput, Needs, pass, invalid, anomaly, with_witness, text,
}
use propsim.Oracle.Model.{SequentialModel}
use propsim.Oracle.Linearizability.{parse_spans, search}

-- The flag `real_time` tells the linearizability oracle from the other.

unfoldable pub oracle_name : Bool → Text
oracle_name true = codes "linearizable"
oracle_name false = codes "sequentially-consistent"

unfoldable pub anomaly_kind : Bool → Text
anomaly_kind true = codes "non-linearizable"
anomaly_kind false = codes "not-sequentially-consistent"

unfoldable pub witness_text : Bool → ℕ → Text
witness_text real_time count =
    codes "no valid "
    ++ (oracle_name real_time
        ++ (codes " ordering of " ++ (show_radix 10 count ++ codes " operations")))

unfoldable pub refusal : Bool → ℕ → Verdict
refusal real_time count =
    with_witness (invalid (anomaly (anomaly_kind real_time) ∷ []))
      (text (witness_text real_time count))

module _ (M : SequentialModel) (real_time : Bool) where
  unfoldable pub check : RunOutput → Verdict
  check out =
      let spans = parse_spans M out.history in
      if search M real_time spans then pass else refusal real_time (length spans)

  -- `linearizable` and `sequentially_consistent`.
  unfoldable pub oracle : Oracle
  oracle = record { name = oracle_name real_time; needs = Needs.history; check = check }
