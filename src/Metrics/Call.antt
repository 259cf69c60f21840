-- ===== src/Metrics/Call.antt =====
-- What the components ask of a MetricsCollector (metrics.go), as values.
use r.Common.{String, List}
use r.Common.Int.{ℤ}

-- `map[string]string`, as the list of its entries.
abbrev pub Tags : Type 0
Tags = List (String × String)

-- A call of IncrementCounter.
pub record Counter : Type 0 where
  pub name : String
  pub tags : Tags

-- A call of the collector: IncrementCounter, RecordTiming or RecordValue.
pub data Call (V : Type 0) : Type 0 where
  count : String → Tags → Call V
  timing : String → ℤ → Tags → Call V
  value : String → V → Tags → Call V
