-- ===== src/Selector.antt =====
-- pkg/lib/av/selector: which audio track of a stream is played. The index -1, which `SelectAudio`
-- gives when there is no track, is `none`.
pub mod Best
mod Tests
use tvproxy.Base.{
  ℕ, String, Bool, true, false, not, ◌&&◌, ◌||◌, ◌==◌, List, [], ◌∷◌, Option, none, some, nat_eq,
  ltb, if◌then◌else◌, keep, length,
}

pub record AudioTrack : Type 0 where
  pub index : ℕ
  pub codec : String
  pub channels : ℕ
  pub sample_rate : ℕ
  pub language : String
  pub is_ad : Bool
  pub bitrate_kbps : ℕ

unfoldable pub codec_priority : String → ℕ
codec_priority codec =
    if codec == "aac"
    then 50
    else if codec == "mp2"
    then 40
    else if codec == "ac3"
    then 30
    else if codec == "eac3"
    then 20
    else if codec == "dts"
    then 10
    else 0

-- The list, or the other one if it is empty.
abbrev pub or_all : List AudioTrack → List AudioTrack → List AudioTrack
or_all [] all = all
or_all (t ∷ ts) all = t ∷ ts

abbrev pub without_ad : List AudioTrack → List AudioTrack
without_ad tracks = or_all (keep (λ t. not t.is_ad) tracks) tracks

abbrev pub in_language : String → List AudioTrack → List AudioTrack
in_language language tracks =
    if language == "" then tracks else or_all (keep (λ t. t.language == language) tracks) tracks

unfoldable pub candidates : String → List AudioTrack → List AudioTrack
candidates language tracks = in_language language (without_ad tracks)

abbrev pub beats : AudioTrack → AudioTrack → Bool
beats t best =
    let tp = codec_priority t.codec in
    let bp = codec_priority best.codec in
    ltb bp tp || (nat_eq tp bp && ltb best.channels t.channels)

abbrev pub best_track : AudioTrack → List AudioTrack → AudioTrack
best_track best [] = best
best_track best (t ∷ ts) = best_track (if beats t best then t else best) ts

abbrev pub best_index : List AudioTrack → Option ℕ
best_index [] = none
best_index (t ∷ ts) = some (best_track t ts).index

-- `prefs` is the preferred language.
unfoldable pub select_audio : String → List AudioTrack → Option ℕ
unfolding candidates
select_audio language tracks = best_index (candidates language tracks)
