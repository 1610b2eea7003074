-- ===== src/Tax/Splits.antt =====
-- lib/server/valuation/tax.ts: every invoice with a taxable line has its split, and no other.
use reckon.Common.{ℕ, ◌≡◌, Option, none, some, List, [], ◌∷◌, All, Text}
use reckon.Common.Maps.{Map, get}
use reckon.TaxRounding.{TaxRounding}
use reckon.Tax.{Part, InvoiceTax}
use reckon.Tax.Invoices.{IsTaxed}
use reckon.Tax.Parts.{Given, IsFair}

module _ (rounding : TaxRounding) (places : ℕ) where
  -- What is kept for an invoice: its split when it has parts, and what was there when not.
  abbrev Settled : Text → Option (List Part) → Option InvoiceTax → Option InvoiceTax → Type 0
  Settled id none before after = after ≡ before
  Settled id (some ps) before after = IsTaxed id ps rounding places after

  abbrev Fair : Map (List Part) → Type 0
  Fair parts = (id : Text) → Given (All IsFair) (get id parts)

-- What there is of an invoice: nothing where it has no taxable line, and else the split of its lines' parts.
abbrev pub IsSplit : Text → List Part → TaxRounding → ℕ → Option InvoiceTax → Type 0
IsSplit id [] rounding places o = o ≡ none
IsSplit id (p ∷ ps) rounding places o = IsTaxed id (p ∷ ps) rounding places o
