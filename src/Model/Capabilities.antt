-- ===== src/Model/Capabilities.antt =====
-- `finalize_capabilities` of src/Model.cpp: the table of what a product can do, from its cases.
pub mod Rows
pub mod Coverage
use test_exchanges_helper.Base.{
  ℕ, Bool, true, false, not, ◌&&◌, ◌||◌, List, [], ◌∷◌, ◌++◌, map, Bytes, bytes_eq, bytes_lt, codes,
  any, ltb, ◌==◌, if◌then◌else◌,
}
use test_exchanges_helper.Model.Kinds.{
  Surface, public_surface, private_surface, surface_rank, Transport, no_transport, rest, web_socket,
  fix, transport_rank, Wire, no_wire, json, fix_sbe, wire_rank, Selection, diagnostic_variant,
  external_adapter_required, selection_rank, ProfileStatus, profiled, not_profiled, not_applicable,
  adapter_required, profile_status_rank,
}
use test_exchanges_helper.Model.Products.{RestCase, WsCase, FixCase, CapabilityRow, ProductSpec}

-- `same_capability`
unfoldable pub same_capability : CapabilityRow → CapabilityRow → Bool
same_capability lhs rhs =
    bytes_eq lhs.name rhs.name
    && surface_rank lhs.surface == surface_rank rhs.surface
    && transport_rank lhs.transport == transport_rank rhs.transport
    && wire_rank lhs.wire == wire_rank rhs.wire
    && selection_rank lhs.selection == selection_rank rhs.selection
    && profile_status_rank lhs.profile_status == profile_status_rank rhs.profile_status

-- `add_capability`
unfoldable pub add_capability : List CapabilityRow → CapabilityRow → List CapabilityRow
add_capability rows row =
    if any (λ existing. same_capability existing row) rows then rows else rows ++ row ∷ []

unfoldable pub add_all : List CapabilityRow → List CapabilityRow → List CapabilityRow
add_all rows [] = rows
add_all rows (row ∷ later) = add_all (add_capability rows row) later

abbrev pub is_not_applicable : ProfileStatus → Bool
is_not_applicable not_applicable = true
is_not_applicable _ = false

-- `has_named_capability`
abbrev pub is_named : Bytes → CapabilityRow → Bool
is_named name row = bytes_eq row.name name && not (is_not_applicable row.profile_status)

unfoldable pub has_named_capability : List CapabilityRow → Bytes → Bool
has_named_capability rows name = any (is_named name) rows

abbrev pub is_private : Surface → Bool
is_private private_surface = true
is_private public_surface = false

-- The rows of a case.
unfoldable pub rest_rows : Surface → RestCase → List CapabilityRow
rest_rows surface probe_case = map row probe_case.capabilities
  where
    row : Bytes → CapabilityRow
    row capability = record {
      name = capability;
      surface = surface;
      transport = rest;
      wire = json;
      selection = probe_case.selection;
      profile_status = profiled;
      requires_confirmation = is_private surface;
      native = probe_case.native;
    }

unfoldable pub ws_rows : WsCase → List CapabilityRow
ws_rows probe_case = map row probe_case.capabilities
  where
    row : Bytes → CapabilityRow
    row capability = record {
      name = capability;
      surface = public_surface;
      transport = web_socket;
      wire = probe_case.wire;
      selection = probe_case.selection;
      profile_status = profiled;
      requires_confirmation = false;
      native = true;
    }

unfoldable pub fix_row : FixCase → CapabilityRow
fix_row probe_case = record {
  name = probe_case.capability;
  surface = public_surface;
  transport = fix;
  wire = fix_sbe;
  selection = external_adapter_required;
  profile_status = adapter_required;
  requires_confirmation = false;
  native = false;
}

-- A row with no transport, as `add_missing` writes it, and the ones that do not apply.
unfoldable pub absent_row : ProfileStatus → Surface → Bytes → CapabilityRow
absent_row status surface name = record {
  name = name;
  surface = surface;
  transport = no_transport;
  wire = no_wire;
  selection = diagnostic_variant;
  profile_status = status;
  requires_confirmation = is_private surface;
  native = false;
}

-- The four loops over the cases.
unfoldable pub concat_rows {ℓ} :
    {A : Type ℓ} → (A → List CapabilityRow) → List A → List CapabilityRow
concat_rows rows_of [] = []
concat_rows rows_of (probe_case ∷ cases) = rows_of probe_case ++ concat_rows rows_of cases

unfoldable pub case_rows : ProductSpec → List CapabilityRow
case_rows product =
    concat_rows (rest_rows public_surface) product.public_rest
    ++ concat_rows (rest_rows private_surface) product.private_rest
    ++ concat_rows ws_rows product.public_ws
    ++ map fix_row product.fix_sessions

-- `add_missing`, and its loop over names
unfoldable pub add_missing : Surface → List CapabilityRow → Bytes → List CapabilityRow
add_missing surface rows name =
    if not (has_named_capability rows name)
    then add_capability rows (absent_row not_profiled surface name)
    else rows

unfoldable pub add_all_missing : Surface → List CapabilityRow → List Bytes → List CapabilityRow
add_all_missing surface rows [] = rows
add_all_missing surface rows (name ∷ names) =
    add_all_missing surface (add_missing surface rows name) names

abbrev pub public_common : List Bytes
public_common =
    codes "exchange_info"
    ∷ codes "instrument_catalog"
    ∷ codes "instrument_detail"
    ∷ codes "ticker_24h"
    ∷ codes "historical_trades"
    ∷ codes "live_trades"
    ∷ codes "live_bbo"
    ∷ codes "live_l2"
    ∷ []

abbrev pub public_futures : List Bytes
public_futures =
    codes "funding_current_all" ∷ codes "funding_current_symbol" ∷ codes "funding_history" ∷ []

abbrev pub private_common : List Bytes
private_common =
    codes "balances"
    ∷ codes "fills_history"
    ∷ codes "open_orders"
    ∷ codes "order_history"
    ∷ codes "user_account_stream"
    ∷ codes "user_orders_stream"
    ∷ codes "user_trades_stream"
    ∷ []

-- What a product that is not a futures product gets in place of a missing row.
abbrev pub add_inapplicable : Surface → List CapabilityRow → List Bytes → List CapabilityRow
add_inapplicable surface rows names = add_all rows (map (absent_row not_applicable surface) names)

unfoldable pub add_futures : Bool → Surface → List CapabilityRow → List Bytes → List CapabilityRow
add_futures futures surface rows names =
    if futures then add_all_missing surface rows names else add_inapplicable surface rows names

-- The rows, in the order in which they are added.
unfoldable pub collected_rows : Bool → List CapabilityRow → List CapabilityRow
collected_rows futures cases =
    let common = add_all_missing public_surface (add_all [] cases) public_common in
    let funding = add_futures futures public_surface common public_futures in
    let owned = add_all_missing private_surface funding private_common in
    add_futures futures private_surface owned (codes "positions" ∷ [])

-- `std::tie` of the surface, the name, the status and the transport
unfoldable pub row_less : CapabilityRow → CapabilityRow → Bool
row_less lhs rhs =
    ltb (surface_rank lhs.surface) (surface_rank rhs.surface)
    || (surface_rank lhs.surface == surface_rank rhs.surface
        && (bytes_lt lhs.name rhs.name
            || (bytes_eq lhs.name rhs.name
                && (ltb (profile_status_rank lhs.profile_status)
                      (profile_status_rank rhs.profile_status)
                    || (profile_status_rank lhs.profile_status
                          == profile_status_rank rhs.profile_status
                        && ltb (transport_rank lhs.transport) (transport_rank rhs.transport))))))

-- `std::stable_sort`
unfoldable pub insert_row : CapabilityRow → List CapabilityRow → List CapabilityRow
insert_row row [] = row ∷ []
insert_row row (x ∷ rows) =
    let after = x ∷ insert_row row rows in if row_less x row then after else row ∷ x ∷ rows

unfoldable pub stable_sort : List CapabilityRow → List CapabilityRow
stable_sort [] = []
stable_sort (row ∷ rows) = insert_row row (stable_sort rows)

-- `finalize_capabilities`
unfoldable pub finalize_capabilities : ProductSpec → ProductSpec
finalize_capabilities product = record product {
  capabilities =
      stable_sort (collected_rows (bytes_eq product.product (codes "futures")) (case_rows product));
}
