-- ===== src/Strategy/Tests.antt =====
-- pkg/service/strategy.go: a live channel and a film, and the theorems at inputs that meet their
-- hypotheses.
use tvproxy.Base.{◌≡◌, refl, true, false}
use tvproxy.Base.Text.{lower, has_prefix, trim_prefix}
use tvproxy.Strategy.{
  StrategyInput, StrategyOutput, classify_stream, is_local_url, resolve_session_strategy,
  live_strategy, vod_local_strategy, resolve_video_action_with_height, resolve_audio_action,
  base_video_codec, is_live,
}

abbrev sport : StrategyInput
sport = record {
  stream_url = "http://tv.example/7";
  vod_type = "";
  sat_ip_source = false;
  stream_vcodec = "H264";
  stream_acodec = "AAC";
}

abbrev film : StrategyInput
film = record {
  stream_url = "http://10.0.0.7/film";
  vod_type = "movie";
  sat_ip_source = false;
  stream_vcodec = "HEVC";
  stream_acodec = "AAC";
}

abbrev browser : StrategyOutput
browser = record {
  video_codec = "avc";
  audio_codec = "default";
  hw_accel = "";
  container = "mp4";
  output_height = 0;
}

sport_audio : (resolve_session_strategy sport browser).audio_codec ≡ "aac"
unfolding resolve_session_strategy live_strategy resolve_audio_action is_local_url lower
sport_audio = refl

sport_video : (resolve_session_strategy sport browser).video_codec ≡ "copy"
unfolding resolve_session_strategy live_strategy resolve_video_action_with_height base_video_codec
    lower
sport_video = refl

sport_live : is_live (classify_stream sport) ≡ true
unfolding classify_stream is_local_url
sport_live = refl

film_copied : (resolve_session_strategy film browser).audio_codec ≡ "copy"
unfolding resolve_session_strategy classify_stream is_local_url vod_local_strategy
    resolve_audio_action has_prefix trim_prefix lower
film_copied = refl
