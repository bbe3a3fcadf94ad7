-- ===== src/Tests/ModelRuns.antt =====
-- Names and capability tables at concrete inputs.
use test_exchanges_helper.Base.{refl, ◌≡◌, ◌⊎◌, true, false, [], ◌∷◌, bytes_eq, codes, All}
use test_exchanges_helper.Model.Kinds.{
  enum_name, surface_rank, transport_rank, wire_rank, selection_rank, profile_status_rank,
  public_surface, web_socket, binary_json, core_selected, profiled, surface_to_string,
  transport_to_string, wire_to_string, selection_to_string, profile_status_to_string,
}
use test_exchanges_helper.Model.Products.{SourceAnchor, ProductSpec}
use test_exchanges_helper.Model.Capabilities.{has_named_capability, finalize_capabilities}
use test_exchanges_helper.Model.Capabilities.Coverage.{
  required_names, futures_names, finalize_capabilities-covers,
}

-- The names of the enumerations as the reports print them.
run_names :
    (surface_to_string public_surface ≡ codes "public")
    × (transport_to_string web_socket ≡ codes "ws")
    × (wire_to_string binary_json ≡ codes "binary_json")
    × (selection_to_string core_selected ≡ codes "profile_selected")
    × (profile_status_to_string profiled ≡ codes "profiled")
unfolding surface_to_string transport_to_string wire_to_string selection_to_string
    profile_status_to_string enum_name surface_rank transport_rank wire_rank selection_rank
    profile_status_rank
run_names = (refl, refl, refl, refl, refl)

abbrev anchor : SourceAnchor
anchor = record { path = []; symbol = []; literals = [] }

abbrev futures_product : ProductSpec
futures_product = record {
  venue = codes "binance";
  product = codes "futures";
  credential_prefix = [];
  public_rest = [];
  private_rest = [];
  public_ws = [];
  fix_sessions =
      record {
        name = codes "fix";
        host = codes "fix.example";
        port = 9000;
        session_kind = codes "market";
        capability = codes "live_bbo";
        core_anchor = anchor;
        payload_anchor = anchor;
      }
      ∷ [];
  capabilities = [];
  notes = [];
  credential_anchor = anchor;
}

finalize_capabilities-covers_example :
    All
      (λ name.
        has_named_capability (finalize_capabilities futures_product).capabilities name ≡ true)
      required_names
    × ((bytes_eq (codes "futures") (codes "futures") ≡ false)
        ⊎ All
            (λ name.
              has_named_capability (finalize_capabilities futures_product).capabilities name ≡ true)
            futures_names)
finalize_capabilities-covers_example = finalize_capabilities-covers futures_product
