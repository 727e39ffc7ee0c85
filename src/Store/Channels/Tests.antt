-- ===== src/Store/Channels/Tests.antt =====
-- pkg/store/channel.go: two channels, and the theorems at inputs that meet their hypotheses.
use tvproxy.Base.{ℕ, String, ◌≡◌, refl, true, [], ◌∷◌, none, ok, All}
use tvproxy.Base.Sort.{sort}
use tvproxy.Store.Table.{File, Write}
use tvproxy.Store.Channels.{
  Channel, ChannelStream, ChannelEntry, Channels, get_streams, remove_stream_mappings,
}
use tvproxy.Store.Channels.Laws.{Unmapped, remove_stream_mappings-Unmapped}

abbrev channel_of : String → String → Channel
channel_of id user = record {
  id = id;
  user_id = user;
  name = id;
  logo_id = none;
  logo = "";
  tvg_id = "";
  channel_group_id = none;
  stream_profile_id = none;
  fail_count = 0;
  is_enabled = true;
  created_at = 0;
  updated_at = 0;
}

abbrev mapping : String → ℕ → ChannelStream
mapping stream priority = record {
  id = stream;
  channel_id = "c1";
  stream_id = stream;
  priority = priority;
}

abbrev first_entry : ChannelEntry
first_entry = record {
  channel = channel_of "c1" "ann";
  stream_ids = mapping "s1" 2 ∷ mapping "s2" 1 ∷ [];
}

abbrev two : Channels
two = record {
  rows =
      first_entry
      ∷ record { channel = channel_of "c2" "bob"; stream_ids = mapping "s1" 0 ∷ [] }
      ∷ [];
  file = File.absent;
}

-- The second channel loses its only stream and is dropped.
two_left :
    (remove_stream_mappings Write.written ("s1" ∷ []) two).0.rows
    ≡ record first_entry { stream_ids = mapping "s2" 1 ∷ [] } ∷ []
unfolding remove_stream_mappings
two_left = refl

remove_stream_mappings-Unmapped_example :
    All (Unmapped ("s1" ∷ [])) (remove_stream_mappings Write.written ("s1" ∷ []) two).0.rows
remove_stream_mappings-Unmapped_example =
    remove_stream_mappings-Unmapped Write.written ("s1" ∷ []) two

streams_given : get_streams "c1" two ≡ ok (mapping "s2" 1 ∷ mapping "s1" 2 ∷ [])
unfolding get_streams sort
streams_given = refl
