-- ===== src/Selector/Tests.antt =====
-- pkg/lib/av/selector: a small stream, and the theorems at inputs that meet their hypotheses.
use tvproxy.Base.{ℕ, String, ◌≡◌, refl, Bool, true, false, List, [], ◌∷◌, none, some, All}
use tvproxy.Selector.{AudioTrack, codec_priority, candidates, select_audio, beats}
use tvproxy.Selector.Best.{Eligible, select_audio-best}

abbrev track : ℕ → String → String → Bool → ℕ → AudioTrack
track index codec language is_ad channels = record {
  index = index;
  codec = codec;
  channels = channels;
  sample_rate = 48_000;
  language = language;
  is_ad = is_ad;
  bitrate_kbps = 0;
}

abbrev mixed : List AudioTrack
mixed =
    track 1 "aac" "fr" false 6
    ∷ track 2 "ac3" "en" false 6
    ∷ track 3 "aac" "en" true 2
    ∷ track 4 "mp2" "en" false 2
    ∷ []

mixed_chosen : select_audio "en" mixed ≡ some 4
unfolding select_audio candidates codec_priority
mixed_chosen = refl

none_chosen : select_audio "en" [] ≡ none
unfolding select_audio candidates
none_chosen = refl

select_audio-best_example :
    (t : AudioTrack) × (t.index ≡ 4)
    × Eligible "en" mixed t
    × All (λ u. beats u t ≡ false) (candidates "en" mixed)
select_audio-best_example = select_audio-best "en" mixed 4 mixed_chosen
