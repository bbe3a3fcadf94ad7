-- ===== src/Model/Capabilities/Rows.antt =====
-- About the order of the finished table and the capabilities in it.
use test_exchanges_helper.Base.{◌≡◌, false, List, [], ◌∷◌, All}
use test_exchanges_helper.Model.Products.{CapabilityRow}
use test_exchanges_helper.Model.Capabilities.{same_capability, row_less}

-- No two rows are the same capability.
abbrev pub Distinct : List CapabilityRow → Type 0
Distinct [] = Unit
Distinct (row ∷ rows) = All (λ x. same_capability row x ≡ false) rows × Distinct rows

-- No row stands behind a row that it is less than.
abbrev pub Ordered : List CapabilityRow → Type 0
Ordered [] = Unit
Ordered (x ∷ []) = Unit
Ordered (x ∷ y ∷ rows) = (row_less y x ≡ false) × Ordered (y ∷ rows)
