-- ===== src/LineMerge/Examples.antt =====
-- lib/line-merge.ts: a quantity changed on the phone and on the server.
use reckon.Common.{
  ◌≡◌, refl, All, Text, codes, text_eq, none, some, true, ok, if◌then◌else◌, trim, trim_start,
  is_space,
}
use reckon.Decimal.{eq, cmp, at, pow10}
use reckon.Common.Int.{◌*ℤ◌}
use reckon.Decimal.Numeric.{
  from, read_sign, span_digits, is_digit, read_whole, read_fraction, read_end, make, value,
}
use reckon.LineMerge.{
  Fields, Merge, merge, merged_fields, same, same_trimmed, same_figure, is_figure, is_unsigned,
  is_fraction, is_run,
}
use reckon.LineMerge.Fates.{Merged, is_apart, merge-Merged}

abbrev qty : Text → Fields
qty v key = if text_eq key (codes "qty") then some v else none

-- 30 and 30.00 are one quantity.
same_test : same (codes "qty") (some (codes "30")) (some (codes " 30.00")) ≡ ok true
unfolding same same_trimmed same_figure is_figure is_unsigned is_fraction is_run text_eq eq cmp at
    pow10 ◌*ℤ◌ from trim trim_start is_space read_sign span_digits is_digit read_whole read_fraction
    read_end make value
same_test = refl

merge-Merged_example :
    (r : Merge) × (merge (qty (codes "1")) (qty (codes "2")) (qty (codes "3")) ≡ ok r)
    × All (Merged (qty (codes "1")) (qty (codes "2")) (qty (codes "3")) r) merged_fields
    × ((g : Text) → is_apart g merged_fields ≡ true → r.fields g ≡ qty (codes "3") g)
merge-Merged_example = merge-Merged (qty (codes "1")) (qty (codes "2")) (qty (codes "3"))
