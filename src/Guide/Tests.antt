-- ===== src/Guide/Tests.antt =====
-- A guide of two channels: the witnesses of the theorems, and runs of the store.
use tvproxy.Base.{ℕ, String, ◌≡◌, refl, List, [], ◌∷◌, ok, err}
use tvproxy.Store.Table.{not_found}
use tvproxy.Guide.{
  EpgData, ProgramData, EpgStore, no_file, bulk_create_epg_data, bulk_create_programs,
  delete_by_source_id,
}
use tvproxy.Guide.Views.{programs_of, get_now_by_channel_id}
use tvproxy.Guide.Now.{IsNow, get_now_by_channel_id-IsNow}
use tvproxy.Guide.Links.{IsLinked, bulk_create_epg_data-IsLinked, delete_by_source_id-IsLinked}

abbrev empty_guide : EpgStore
empty_guide = record {
  epg_data = [];
  programs = [];
  by_source_id = [];
  programs_by_epg_id = [];
  epg_by_channel_id = [];
  revision = 0;
  file = no_file;
}

abbrev one_data : EpgData
one_data = record {
  id = "e1";
  epg_source_id = "src";
  channel_id = "bbc1";
  name = "BBC One";
  icon = "";
}

abbrev two_data : EpgData
two_data = record one_data { id = "e2"; channel_id = "bbc2"; name = "BBC Two" }

abbrev show : ProgramData
show = record {
  id = "p1";
  epg_data_id = "e1";
  title = "News";
  description = "";
  start = 10;
  stop = 30;
  category = "";
}

abbrev overlap : ProgramData
overlap = record show { id = "p2"; title = "Weather"; start = 20 }

abbrev no_ids : ℕ → String
no_ids i = "new"

-- The guide that the two calls build.
abbrev guide : EpgStore
guide = record {
  epg_data = ("e1", one_data) ∷ ("e2", two_data) ∷ [];
  programs = ("p1", show) ∷ ("p2", overlap) ∷ [];
  by_source_id = ("src", "e1" ∷ "e2" ∷ []) ∷ [];
  programs_by_epg_id = ("e1", "p1" ∷ "p2" ∷ []) ∷ [];
  epg_by_channel_id = ("bbc1", "e1") ∷ ("bbc2", "e2") ∷ [];
  revision = 2;
  file = no_file;
}

guide_built :
    bulk_create_programs no_ids
      (show ∷ overlap ∷ [])
      (bulk_create_epg_data no_ids (one_data ∷ two_data ∷ []) empty_guide)
    ≡ guide
unfolding bulk_create_programs bulk_create_epg_data
guide_built = refl

now_on : get_now_by_channel_id "bbc1" 25 guide ≡ ok overlap
unfolding get_now_by_channel_id
now_on = refl

nothing_on : get_now_by_channel_id "bbc1" 30 guide ≡ err not_found
unfolding get_now_by_channel_id
nothing_on = refl

get_now_by_channel_id-IsNow_example :
    IsNow 25 (programs_of guide "e1") (get_now_by_channel_id "bbc1" 25 guide)
get_now_by_channel_id-IsNow_example = get_now_by_channel_id-IsNow "bbc1" "e1" 25 guide refl

guide-IsLinked : IsLinked guide
guide-IsLinked = ((refl, (refl, tt)), (refl, (refl, tt)))

-- The first channel is refreshed under a new identifier, the second under its own.
abbrev refreshed : List EpgData
refreshed = record one_data { id = "e3" } ∷ record two_data { name = "BBC 2" } ∷ []

bulk_create_epg_data-IsLinked_example : IsLinked (bulk_create_epg_data no_ids refreshed guide)
bulk_create_epg_data-IsLinked_example =
    bulk_create_epg_data-IsLinked no_ids refreshed guide (tt, (refl, tt)) guide-IsLinked

delete_by_source_id-IsLinked_example : IsLinked (delete_by_source_id "src" guide)
delete_by_source_id-IsLinked_example = delete_by_source_id-IsLinked "src" guide guide-IsLinked
