-- ===== src/Strategy/Laws.antt =====
-- pkg/service/strategy.go: what the chosen strategy promises the client.
use tvproxy.Base.{
  String, ◌≡◌, ◌≢◌, refl, ◌∙◌, ap, Bool, true, false, not, ◌&&◌, ◌||◌, ◌==◌, eq_iff, ==→ne, arith,
  if◌then◌else◌,
}
use tvproxy.Base.Text.{lower, lower_idem}
use tvproxy.Strategy.{
  StreamCategory, file, live_iptv, live_sat_ip, vod_remote, vod_local, StrategyInput,
  StrategyOutput, classify_stream, codec_family, normalize_video_codec_name, resolve_audio_action,
  source_codec, aac_unless, is_live, live_strategy, vod_audio, vod_remote_strategy,
  vod_local_strategy, strategy_for, resolve_session_strategy,
}

never_copy_when :
    (t : Bool) (audio : String)
    → (t ≡ false → audio ≢ "copy")
    → (if t && true then "aac" else audio) ≢ "copy"
never_copy_when true audio f = ==→ne "aac" "copy" refl
never_copy_when false audio f = f refl

never_copy :
    (audio : String) (b : Bool)
    → b ≡ true
    → (if audio == "copy" && b then "aac" else audio) ≢ "copy"
never_copy audio b h = rw h (never_copy_when (audio == "copy") audio (==→ne audio "copy"))

kept_copy :
    (audio : String) (b : Bool)
    → (if audio == "copy" && b then "aac" else audio) ≡ "copy"
    → audio ≡ "copy"
kept_copy audio b h = ground (arith, eq_iff audio "copy")

aac_when :
    (t u : Bool) (audio : String)
    → (t ≡ false → audio ≢ "copy")
    → (if t && not u then "aac" else audio) ≡ "copy"
    → u ≡ true
aac_when true true audio f h = refl
aac_when true false audio f h = elim (==→ne "aac" "copy" refl h) [ ]
aac_when false u audio f h = elim (f refl h) [ ]

aac_unless-copy : (source audio : String) → aac_unless source audio ≡ "copy" → source ≡ "aac"
aac_unless-copy source audio h =
    (eq_iff source "aac").0
      (aac_when (audio == "copy") (source == "aac") audio (==→ne audio "copy") h)

live_strategy-never :
    (i : StrategyInput) (o : StrategyOutput) (cat : StreamCategory)
    → is_live cat ≡ true
    → (live_strategy i o cat).audio_codec ≢ "copy"
unfolding live_strategy
live_strategy-never i o cat h =
    let source_audio = source_codec "aac" i.stream_acodec in
    never_copy
      (aac_unless source_audio (resolve_audio_action source_audio o.audio_codec o.container))
      (is_live cat) h

strategy_for-never :
    (cat : StreamCategory) (i : StrategyInput) (o : StrategyOutput)
    → is_live cat ≡ true
    → (strategy_for cat i o).audio_codec ≢ "copy"
strategy_for-never live_iptv i o h = live_strategy-never i o live_iptv h
strategy_for-never live_sat_ip i o h = live_strategy-never i o live_sat_ip h
strategy_for-never vod_remote i o h = ground arith
strategy_for-never vod_local i o h = ground arith
strategy_for-never file i o h = ground arith

-- A live channel's audio is never copied: it is transcoded, to the client's codec or to AAC.
pub live-never_copies :
    (i : StrategyInput) (o : StrategyOutput)
    → is_live (classify_stream i) ≡ true
    → (resolve_session_strategy i o).audio_codec ≢ "copy"
unfolding resolve_session_strategy
live-never_copies i o h = strategy_for-never (classify_stream i) i o h

vod_audio-aac :
    (i : StrategyInput) (o : StrategyOutput)
    → vod_audio i o ≡ "copy"
    → source_codec "aac" i.stream_acodec ≡ "aac"
vod_audio-aac i o h =
    let source_audio = source_codec "aac" i.stream_acodec in
    aac_unless-copy source_audio (resolve_audio_action source_audio o.audio_codec o.container) h

live_strategy-aac :
    (i : StrategyInput) (o : StrategyOutput) (cat : StreamCategory)
    → (live_strategy i o cat).audio_codec ≡ "copy"
    → source_codec "aac" i.stream_acodec ≡ "aac"
unfolding live_strategy
live_strategy-aac i o cat h =
    let source_audio = source_codec "aac" i.stream_acodec in
    let audio = resolve_audio_action source_audio o.audio_codec o.container in
    aac_unless-copy source_audio audio (kept_copy (aac_unless source_audio audio) (is_live cat) h)

strategy_for-aac :
    (cat : StreamCategory) (i : StrategyInput) (o : StrategyOutput)
    → (strategy_for cat i o).audio_codec ≡ "copy"
    → source_codec "aac" i.stream_acodec ≡ "aac"
unfolding vod_remote_strategy vod_local_strategy
strategy_for-aac live_iptv i o h = live_strategy-aac i o live_iptv h
strategy_for-aac live_sat_ip i o h = live_strategy-aac i o live_sat_ip h
strategy_for-aac vod_remote i o h = vod_audio-aac i o h
strategy_for-aac vod_local i o h = vod_audio-aac i o h
strategy_for-aac file i o h = vod_audio-aac i o h

-- No strategy copies audio that is not AAC.
pub copy-aac :
    (i : StrategyInput) (o : StrategyOutput)
    → (resolve_session_strategy i o).audio_codec ≡ "copy"
    → source_codec "aac" i.stream_acodec ≡ "aac"
unfolding resolve_session_strategy
copy-aac i o h = strategy_for-aac (classify_stream i) i o h

family_cases {ℓ} :
    (P : String → Type ℓ) (t u v w : Bool) (l : String)
    → P "h265"
    → P "hvc1"
    → P "hev1"
    → P "h264"
    → ((if t then "h265" else if u then "hvc1" else if v then "hev1" else if w then "h264" else l)
          ≡ l
        → P l)
    → P (if t then "h265" else if u then "hvc1" else if v then "hev1" else if w then "h264" else l)
family_cases P true u v w l a b c d f = a
family_cases P false true v w l a b c d f = b
family_cases P false false true w l a b c d f = c
family_cases P false false false true l a b c d f = d
family_cases P false false false false l a b c d f = f refl

codec_family-settled :
    (l : String) → lower l ≡ l → codec_family (lower (codec_family l)) ≡ codec_family l
unfolding codec_family lower
codec_family-settled l h =
    family_cases (λ s. codec_family (lower s) ≡ s) (l == "hevc" || l == "h265" || l == "h.265")
      (l == "hvc1") (l == "hev1") (l == "avc" || l == "h264" || l == "h.264") l refl refl refl refl
      (λ e. ap codec_family h ∙ e)

-- The name that a codec is given is stable: normalising it again changes nothing.
pub normalize_idempotent :
    (c : String)
    → normalize_video_codec_name (normalize_video_codec_name c) ≡ normalize_video_codec_name c
unfolding normalize_video_codec_name
normalize_idempotent c = codec_family-settled (lower c) (lower_idem c)
