-- ===== src/Core/Oracle.antt =====
-- crates/propsim-core/src/oracle.rs, the verdicts of crates/propsim-core/src/plan.rs and the
-- output of crates/propsim-core/src/executor.rs. A path of a file is its text.
use propsim.Base.{Bool, true, false, Option, none, some, List, [], Text}
use propsim.History.{History}
use propsim.Core.Plan.{Seed}
use propsim.Core.World.{WorldTrace, ErasedState}
use propsim.Core.Artifacts.{Artifacts, new}

pub record Anomaly : Type 0 where
  pub kind : Text
  pub detail : Option Text

unfoldable pub anomaly : Text → Anomaly
anomaly kind = record { kind = kind; detail = none }

unfoldable pub anomaly_with_detail : Text → Text → Anomaly
anomaly_with_detail kind detail = record { kind = kind; detail = some detail }

pub data Witness : Type 0 where
  text artifact : Text → Witness

pub record Verdict : Type 0 where
  pub valid : Bool
  pub anomalies : List Anomaly
  pub witness : Option Witness

-- `Verdict::valid` and `Verdict::invalid`.
unfoldable pub pass : Verdict
pass = record { valid = true; anomalies = []; witness = none }

unfoldable pub invalid : List Anomaly → Verdict
invalid anomalies = record { valid = false; anomalies = anomalies; witness = none }

unfoldable pub with_witness : Verdict → Witness → Verdict
with_witness v w = record v { witness = some w }

pub record NamedVerdict : Type 0 where
  pub name : Text
  pub verdict : Verdict

-- `NamedVerdict::new`.
abbrev pub named_verdict : Text → Verdict → NamedVerdict
named_verdict name verdict = record { name = name; verdict = verdict }

pub data Needs : Type 0 where
  world history : Needs

-- The trace stands for the states of any node type.
pub record RunOutput : Type 0 where
  pub history : History
  pub world_trace : Option (WorldTrace ErasedState)
  pub artifacts : Artifacts
  pub seed : Seed

-- What every run of the program gives to its oracles: no trace, and no artifact.
abbrev pub plain_output : History → Seed → RunOutput
plain_output entries seed = record {
  history = entries;
  world_trace = none;
  artifacts = new;
  seed = seed;
}

-- The trait `Oracle`.
pub record Oracle : Type 0 where
  pub name : Text
  pub needs : Needs
  pub check : RunOutput → Verdict
