-- ===== src/ResearchProfile/Laws.antt =====
-- About the conversions between names and enumerators.
use test_exchanges_helper.Base.{◌≡◌, refl, bytes_eq}
use test_exchanges_helper.ResearchProfile.{
  ResearchChannelKind, trade, ResearchSupport, exact, kind_to_string, support_to_string,
  research_channel_kind, research_support,
}

pub kind_round_trip :
    (kind : ResearchChannelKind) → research_channel_kind (kind_to_string kind) ≡ kind
unfolding research_channel_kind kind_to_string bytes_eq
kind_round_trip trade = refl
kind_round_trip _ = refl

support_round_trip : (s : ResearchSupport) → research_support (support_to_string s) ≡ s
unfolding research_support support_to_string bytes_eq
support_round_trip exact = refl
support_round_trip _ = refl

-- Every channel kind and every support level reads back from the name that it is written with.
pub names_round_trip :
    (kind : ResearchChannelKind) (s : ResearchSupport)
    → (research_channel_kind (kind_to_string kind) ≡ kind)
      × (research_support (support_to_string s) ≡ s)
names_round_trip kind s = (kind_round_trip kind, support_round_trip s)
