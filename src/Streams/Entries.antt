-- ===== src/Streams/Entries.antt =====
-- pkg/store/stream_indexed.go: the entries of the index, and the state of the store.
use tvproxy.Base.{ℕ, String, Bool, Option, ltb}
use tvproxy.Base.Integers.{ℤ}
use tvproxy.Base.Maps.{Map}
use tvproxy.Base.Text.{text_ltb}
use tvproxy.Extradata.{Bytes}
use tvproxy.Streams.{Stream, StreamSummary}

pub record StreamIndex : Type 0 where
  pub id : String
  pub name : String
  pub group : String
  pub m3u_account_id : String
  pub satip_source_id : String
  pub hdhr_source_id : String
  pub vod_type : String
  pub vod_series : String
  pub vod_collection : String
  pub vod_season : ℤ
  pub vod_season_name : String
  pub vod_episode : ℤ
  pub vod_year : ℤ
  pub tmdb_id : ℤ
  pub tmdb_manual : Bool
  pub cache_type : String
  pub cache_key : ℤ
  pub language : String
  pub use_wireguard : Bool
  pub is_active : Bool
  pub logo : String
  pub created_at : ℕ
  pub updated_at : ℕ
  pub offset : ℕ
  pub size : ℕ

-- With the place that the caller of `indexFromStream` fills in.
abbrev pub index_from_stream : Stream → ℕ → ℕ → StreamIndex
index_from_stream st offset size = record {
  id = st.id;
  name = st.name;
  group = st.group;
  m3u_account_id = st.m3u_account_id;
  satip_source_id = st.satip_source_id;
  hdhr_source_id = st.hdhr_source_id;
  vod_type = st.vod_type;
  vod_series = st.vod_series;
  vod_collection = st.vod_collection;
  vod_season = st.vod_season;
  vod_season_name = st.vod_season_name;
  vod_episode = st.vod_episode;
  vod_year = st.vod_year;
  tmdb_id = st.tmdb_id;
  tmdb_manual = st.tmdb_manual;
  cache_type = st.cache_type;
  cache_key = st.cache_key;
  language = st.language;
  use_wireguard = st.use_wireguard;
  is_active = st.is_active;
  logo = st.logo;
  created_at = st.created_at;
  updated_at = st.updated_at;
  offset = offset;
  size = size;
}

abbrev pub summary_from_index : StreamIndex → StreamSummary
summary_from_index x = record {
  id = x.id;
  m3u_account_id = x.m3u_account_id;
  satip_source_id = x.satip_source_id;
  hdhr_source_id = x.hdhr_source_id;
  name = x.name;
  group = x.group;
  logo = x.logo;
  vod_type = x.vod_type;
  vod_series = x.vod_series;
  vod_season = x.vod_season;
  vod_season_name = x.vod_season_name;
  vod_episode = x.vod_episode;
  vod_year = x.vod_year;
  tmdb_id = x.tmdb_id;
}

-- `streams.dat`, where there is one.
pub record IndexedStore : Type 0 where
  pub index : Map StreamIndex
  pub revision : ℕ
  pub bytes : Bytes
  pub data_file : Option Bytes

abbrev pub older : StreamIndex → StreamIndex → Bool
older x y = ltb x.created_at y.created_at

abbrev pub index_by_name : StreamIndex → StreamIndex → Bool
index_by_name x y = text_ltb x.name y.name
