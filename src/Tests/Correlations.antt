-- ===== src/Tests/Correlations.antt =====
-- Two products' findings on one host.
use shared_integration.Prelude.{String, ◌≡◌, ◌⊎◌, refl, none, some, [], ◌∷◌, Memᴰ, select}
use shared_integration.Core.{Source, soc, vuln, medium, high}
use shared_integration.Correlations.{Finding, Correlation, correlate, max_severity, related}
use shared_integration.Correlations.Reports.{IsRelated, Reports, correlate_lem}

abbrev alert : Finding
alert = record { id = "f1"; source = soc; severity = medium; host = some "web"; ts = some 100 }

abbrev weakness : Finding
weakness = record { id = "f2"; source = vuln; severity = high; host = some "web"; ts = none }

abbrev value : Source → String
value s = "product"

gravest : max_severity medium (related 50 "web" alert (weakness ∷ alert ∷ [])) ≡ high
unfolding related select max_severity
gravest = refl

correlate_lem_example :
    ((correlate value 50 alert (weakness ∷ []) ≡ [])
      × ((alert.host ≡ none)
          ⊎ ((alert.host ≡ some "")
              ⊎ ((f : Finding) → Memᴰ f (weakness ∷ []) → IsRelated 50 alert f → ⊥))))
    ⊎ ((c : Correlation) × (correlate value 50 alert (weakness ∷ []) ≡ c ∷ [])
        × Reports 50 alert (weakness ∷ []) c)
correlate_lem_example = correlate_lem value 50 alert (weakness ∷ [])
