-- ===== src/Core.antt =====
-- The enumerations of shared_llm_core, with the members that this repository names. A column that
-- holds a member's value is read back by the enumeration, so the model keeps the member.
use shared_integration.Prelude.{Bool, true, false}

pub data Source : Type 0 where
  soc vuln lab code reverse firmware external : Source

pub data Severity : Type 0 where
  info low medium high critical : Severity

pub Source-discrete : Discrete Source
Source-discrete = hlevel

pub Severity-discrete : Discrete Severity
Severity-discrete = hlevel

abbrev pub source_eq : Source → Source → Bool
source_eq soc soc = true
source_eq vuln vuln = true
source_eq lab lab = true
source_eq code code = true
source_eq reverse reverse = true
source_eq firmware firmware = true
source_eq external external = true
source_eq _ _ = false
