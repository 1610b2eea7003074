-- ===== src/Tax/Examples.antt =====
-- lib/server/valuation/tax.ts: an invoice of one taxed line, at a site asked about twice.
use reckon.Common.{ℕ, true, some, List, [], ◌∷◌, Text, codes}
use reckon.Decimal.{half_up}
use reckon.TaxRounding.{TaxRounding, by_line}
use reckon.Tax.{TaxLine, TaxCheck}

abbrev check_on : Text → ℕ → TaxCheck
check_on on moment = record {
  site_id = codes "s";
  checked_on = on;
  checked_at = moment;
  rate_pct = some (codes "7.25");
  state_pct = some (codes "6");
  district_pct = some (codes "1.25");
  jurisdiction = some (codes "Napa");
}

abbrev checks : List TaxCheck
checks = check_on (codes "2026-03-01") 20 ∷ check_on (codes "2026-01-01") 10 ∷ []

abbrev line : TaxLine
line = record {
  invoice_id = codes "i";
  amount = codes "100.00";
  taxable = true;
  tax_rate_pct = codes "7.25";
  site_id = some (codes "s");
}

abbrev by_half : TaxRounding
by_half = record { scope = by_line; method = half_up }
