-- ===== src/Strategy.antt =====
-- pkg/service/strategy.go: copy or transcode, from what the source is and what the client takes.
pub mod Laws
mod Tests
use tvproxy.Base.{
  ℕ, ◌<◌, String, Bool, true, false, not, ◌&&◌, ◌||◌, ◌==◌, nat_eq, ltb, if◌then◌else◌,
}
use tvproxy.Base.Text.{lower, has_prefix, trim_prefix}

pub data StreamCategory : Type 0 where
  live_iptv live_sat_ip vod_remote vod_local file : StreamCategory

pub record SessionStrategy : Type 0 where
  pub category : StreamCategory
  pub metadata_only : Bool
  pub video_codec : String
  pub audio_codec : String
  pub hw_accel : String
  pub container : String

-- The fields that the strategy reads.
pub record StrategyInput : Type 0 where
  pub stream_url : String
  pub vod_type : String
  pub sat_ip_source : Bool
  pub stream_vcodec : String
  pub stream_acodec : String

pub record StrategyOutput : Type 0 where
  pub video_codec : String
  pub audio_codec : String
  pub hw_accel : String
  pub container : String
  pub output_height : ℕ

unfoldable pub is_local_url : String → Bool
is_local_url u =
    if not (has_prefix u "http://") && not (has_prefix u "https://")
    then true
    else let host = trim_prefix (trim_prefix u "http://") "https://" in
      has_prefix host "192.168."
      || has_prefix host "10."
      || has_prefix host "172."
      || has_prefix host "localhost"
      || has_prefix host "127."

unfoldable pub classify_stream : StrategyInput → StreamCategory
classify_stream i =
    if i.sat_ip_source
    then live_sat_ip
    else if i.vod_type == "movie" || i.vod_type == "series"
    then if is_local_url i.stream_url then vod_local else vod_remote
    else live_iptv

-- The `switch` on the lower-case name.
unfoldable pub codec_family : String → String
codec_family l =
    if l == "hevc" || l == "h265" || l == "h.265"
    then "h265"
    else if l == "hvc1"
    then "hvc1"
    else if l == "hev1"
    then "hev1"
    else if l == "avc" || l == "h264" || l == "h.264"
    then "h264"
    else l

unfoldable pub normalize_video_codec_name : String → String
unfolding codec_family
normalize_video_codec_name c = codec_family (lower c)

unfoldable pub base_of : String → String
base_of n = if n == "hvc1" || n == "hev1" || n == "h265" then "h265" else n

unfoldable pub base_video_codec : String → String
unfolding base_of normalize_video_codec_name
base_video_codec c = base_of (normalize_video_codec_name c)

abbrev pub keeps_source : String → Bool
keeps_source client = client == "" || client == "default" || client == "copy"

unfoldable pub resolve_video_action_with_height : String → String → ℕ → String
resolve_video_action_with_height source client height =
    if keeps_source client
    then if ltb 0 height
      then if not (source == "") then normalize_video_codec_name source else "hvc1"
      else "copy"
    else if base_video_codec source == base_video_codec client && nat_eq height 0
    then "copy"
    else client

unfoldable pub resolve_video_action : String → String → String
unfolding resolve_video_action_with_height
resolve_video_action source client = resolve_video_action_with_height source client 0

unfoldable pub resolve_audio_action : String → String → String → String
resolve_audio_action source client container =
    if client == "" || client == "default"
    then if source == "aac" && not (container == "webm")
      then "copy"
      else if container == "webm"
      then "opus"
      else "aac"
    else if client == "copy" || source == client
    then "copy"
    else client

-- The lower-case name of the stream's codec, or the default where the stream has none.
abbrev pub source_codec : String → String → String
source_codec default_name name = if not (name == "") then lower name else default_name

-- "copy" of anything but AAC becomes a transcode to AAC.
abbrev pub aac_unless : String → String → String
aac_unless source audio = if audio == "copy" && not (source == "aac") then "aac" else audio

abbrev pub is_live : StreamCategory → Bool
is_live live_iptv = true
is_live live_sat_ip = true
is_live _ = false

unfoldable pub live_strategy : StrategyInput → StrategyOutput → StreamCategory → SessionStrategy
live_strategy i o cat =
    let source_audio = source_codec "aac" i.stream_acodec in
    let audio =
      aac_unless source_audio (resolve_audio_action source_audio o.audio_codec o.container) in
    record {
      category = cat;
      video_codec =
          resolve_video_action_with_height (source_codec "h264" i.stream_vcodec) o.video_codec
            o.output_height;
      audio_codec = if audio == "copy" && is_live cat then "aac" else audio;
      hw_accel = o.hw_accel;
      container = o.container;
      metadata_only = false;
    }

abbrev pub vod_audio : StrategyInput → StrategyOutput → String
vod_audio i o =
    let source_audio = source_codec "aac" i.stream_acodec in
    aac_unless source_audio (resolve_audio_action source_audio o.audio_codec o.container)

unfoldable pub vod_remote_strategy : StrategyInput → StrategyOutput → SessionStrategy
vod_remote_strategy i o = record {
  category = vod_remote;
  video_codec = o.video_codec;
  audio_codec = vod_audio i o;
  hw_accel = o.hw_accel;
  container = o.container;
  metadata_only = false;
}

unfoldable pub vod_local_strategy : StrategyInput → StrategyOutput → SessionStrategy
vod_local_strategy i o = record {
  category = vod_local;
  video_codec = o.video_codec;
  audio_codec = vod_audio i o;
  hw_accel = o.hw_accel;
  container = o.container;
  metadata_only = false;
}

abbrev pub strategy_for : StreamCategory → StrategyInput → StrategyOutput → SessionStrategy
strategy_for live_iptv i o = live_strategy i o live_iptv
strategy_for live_sat_ip i o = live_strategy i o live_sat_ip
strategy_for vod_remote i o = vod_remote_strategy i o
strategy_for vod_local i o = vod_local_strategy i o
strategy_for file i o = vod_local_strategy i o

unfoldable pub resolve_session_strategy : StrategyInput → StrategyOutput → SessionStrategy
unfolding classify_stream
resolve_session_strategy i o = strategy_for (classify_stream i) i o
