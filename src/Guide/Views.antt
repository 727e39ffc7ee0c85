-- ===== src/Guide/Views.antt =====
-- pkg/store/epg.go: the queries of the guide.
use tvproxy.Base.{
  ℕ, String, Bool, not, ◌&&◌, ◌==◌, List, [], ◌∷◌, ◌++◌, Option, none, some, Result, ok, err, ltb,
  if◌then◌else◌,
}
use tvproxy.Base.Maps.{Map, lookup, put, values}
use tvproxy.Base.Sort.{sort}
use tvproxy.Base.Text.{text_ltb}
use tvproxy.Store.Table.{Error, not_found}
use tvproxy.Guide.{EpgData, ProgramData, GuideProgram, EpgStore, listed_under, present}

abbrev pub data_by_name : EpgData → EpgData → Bool
data_by_name a b = text_ltb a.name b.name

abbrev pub sooner : ProgramData → ProgramData → Bool
sooner p q = ltb p.start q.start

unfoldable pub list_epg_data : EpgStore → List EpgData
list_epg_data g = sort data_by_name (values g.epg_data)

unfoldable pub list_by_source_id : String → EpgStore → List EpgData
list_by_source_id source g =
    sort data_by_name (present g.epg_data (listed_under source g.by_source_id))

unfoldable pub get_icon_by_channel_id : String → EpgStore → String
get_icon_by_channel_id channel g = elim (lookup channel g.epg_by_channel_id) [
  | none ↦ ""
  | some id ↦ elim (lookup id g.epg_data) [ some d ↦ d.icon | none ↦ "" ]
]

abbrev pub programs_of : EpgStore → String → List ProgramData
programs_of g epg = present g.programs (listed_under epg g.programs_by_epg_id)

-- `!p.Start.After(now) && p.Stop.After(now)`.
abbrev pub is_airing : ℕ → ProgramData → Bool
is_airing now p = not (ltb now p.start) && ltb now p.stop

abbrev later_of : Option ProgramData → ProgramData → Option ProgramData
later_of none p = some p
later_of (some best) p = if ltb best.start p.start then some p else some best

abbrev pub best_now : ℕ → Option ProgramData → List ProgramData → Option ProgramData
best_now now best [] = best
best_now now best (p ∷ ps) = best_now now (if is_airing now p then later_of best p else best) ps

unfoldable pub get_now_by_channel_id : String → ℕ → EpgStore → Result Error ProgramData
get_now_by_channel_id channel now g = elim (lookup channel g.epg_by_channel_id) [
  | none ↦ err not_found
  | some epg ↦ elim (best_now now none (programs_of g epg)) [ some p ↦ ok p | none ↦ err not_found ]
]

abbrev first_airing : ℕ → List ProgramData → Option ProgramData
first_airing now [] = none
first_airing now (p ∷ ps) = if is_airing now p then some p else first_airing now ps

abbrev airing_on : ℕ → EpgStore → Map String → Map ProgramData
airing_on now g [] = []
airing_on now g ((channel, epg) ∷ rows) =
    let rest = airing_on now g rows in
    elim (first_airing now (programs_of g epg)) [ some p ↦ (channel, p) ∷ rest | none ↦ rest ]

abbrev titles : Map ProgramData → Map String
titles [] = []
titles ((channel, p) ∷ rows) = (channel, p.title) ∷ titles rows

unfoldable pub list_now_playing : ℕ → EpgStore → Map String
list_now_playing now g = titles (airing_on now g g.epg_by_channel_id)

-- The fields of the programme stand for the map of its fields.
unfoldable pub list_now_playing_full : ℕ → EpgStore → Map ProgramData
list_now_playing_full now g = airing_on now g g.epg_by_channel_id

abbrev pub as_guide : String → ProgramData → GuideProgram
as_guide channel p = record {
  channel_id = channel;
  title = p.title;
  description = p.description;
  start = p.start;
  stop = p.stop;
  category = p.category;
}

abbrev guide_of : ℕ → ℕ → String → List ProgramData → List GuideProgram
guide_of start end channel [] = []
guide_of start end channel (p ∷ ps) =
    let rest = guide_of start end channel ps in
    if ltb p.start end && ltb start p.stop then as_guide channel p ∷ rest else rest

abbrev guide_rows : ℕ → ℕ → EpgStore → Map String → List GuideProgram
guide_rows start end g [] = []
guide_rows start end g ((channel, epg) ∷ rows) =
    guide_of start end channel (programs_of g epg) ++ guide_rows start end g rows

abbrev guide_less : GuideProgram → GuideProgram → Bool
guide_less p q =
    if p.channel_id == q.channel_id then ltb p.start q.start else text_ltb p.channel_id q.channel_id

unfoldable pub list_for_guide : ℕ → ℕ → EpgStore → List GuideProgram
list_for_guide start end g = sort guide_less (guide_rows start end g g.epg_by_channel_id)

unfoldable pub list_programs : String → EpgStore → List ProgramData
list_programs epg g = sort sooner (programs_of g epg)

unfoldable pub list_programs_by_epg_data_ids : List String → EpgStore → Map (List ProgramData)
list_programs_by_epg_data_ids [] g = []
list_programs_by_epg_data_ids (epg ∷ ids) g =
    put epg (sort sooner (programs_of g epg)) (list_programs_by_epg_data_ids ids g)
