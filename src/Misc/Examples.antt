-- ===== src/Misc/Examples.antt =====
-- lib/server/valuation/misc.ts: a service charged by the mile, and its price.
use reckon.Common.{Option, none, some, Text, codes}
use reckon.Pricing.{Price, ServiceTerms, UnitKind}

abbrev driving : ServiceTerms
driving = record {
  id = codes "drive";
  unit = UnitKind.mile;
  bill_to_nearest_seconds = none;
  minimum_charge = none;
}

abbrev pub listed : Price
listed = record {
  service_id = codes "drive";
  entity_id = none;
  rate = codes "0.60";
  additional_rate = codes "0";
  effective_from = codes "2025-01-01";
}

abbrev pub services : Text → Option ServiceTerms
services id = some driving
