-- ===== src/Correlations.antt =====
-- `SameHostMultiSourceRule` of src/shared_integration/correlations.py. Times and the window are
-- numbers of microseconds; `__init__` refuses a window below zero, which has no value here.
pub mod Reports
use shared_integration.Prelude.{
  ℕ, ◌-◌, max, min, String, Bool, true, false, not, ◌&&◌, Option, none, some, List, [], ◌∷◌, ◌++◌,
  map, str_eq, leb, ltb, if◌then◌else◌, select, Text, codes,
}
use shared_integration.Core.{Source, source_eq, Severity, info, low, medium, high, critical}

-- The attributes of a finding that the rule reads.
pub record Finding : Type 0 where
  pub id : String
  pub source : Source
  pub severity : Severity
  pub host : Option String
  pub ts : Option ℕ

pub record Correlation : Type 0 where
  pub rule_id : String
  pub findings : List String
  pub severity : Severity
  pub narrative : Text

-- `_SEVERITY_RANK`
abbrev pub rank : Severity → ℕ
rank info = 0
rank low = 1
rank medium = 2
rank high = 3
rank critical = 4

-- `_within_window`
abbrev pub within : Option ℕ → Option ℕ → ℕ → Bool
within none t w = true
within (some s) none w = true
within (some s) (some t) w = leb (max s t - min s t) w

-- `_max_severity` of a first finding and the others: the first of the highest rank.
unfoldable pub max_severity : Severity → List Finding → Severity
max_severity best [] = best
max_severity best (f ∷ fs) =
    max_severity (if ltb (rank best) (rank f.severity) then f.severity else best) fs

abbrev pub same_host : String → Option String → Bool
same_host h none = false
same_host h (some g) = str_eq g h

-- The condition of the comprehension, for a new finding with the host `h`.
abbrev pub is_related : ℕ → String → Finding → Finding → Bool
is_related w h new f =
    not (str_eq f.id new.id)
    && (same_host h f.host && (not (source_eq f.source new.source) && within new.ts f.ts w))

unfoldable pub related : ℕ → String → Finding → List Finding → List Finding
related w h new = select (is_related w h new)

-- `", ".join`
unfoldable pub join : List Text → Text
join [] = []
join (t ∷ []) = t
join (t ∷ (u ∷ ts)) = t ++ codes ", " ++ join (u ∷ ts)

abbrev pub correlation : (Source → String) → String → Finding → List Finding → Correlation
correlation value h new fs = record {
  rule_id = "integ-same-host-multi-source";
  findings = new.id ∷ map (λ f. f.id) fs;
  severity = max_severity new.severity fs;
  narrative =
      codes "Multi-source findings on "
      ++ codes h
      ++ codes ": "
      ++ join (codes (value new.source) ∷ map (λ f. codes (value f.source)) fs);
}

abbrev pub report : (Source → String) → String → Finding → List Finding → List Correlation
report value h new [] = []
report value h new (f ∷ fs) = correlation value h new (f ∷ fs) ∷ []

abbrev pub on_host :
    (Source → String) → ℕ → Option String → Finding → List Finding → List Correlation
on_host value w none new existing = []
on_host value w (some h) new existing =
    if str_eq h "" then [] else report value h new (related w h new existing)

-- `correlate`; `value` gives a source's text.
unfoldable pub correlate : (Source → String) → ℕ → Finding → List Finding → List Correlation
correlate value w new existing = on_host value w new.host new existing
