-- ===== src/Streams.antt =====
-- pkg/models/models.go: streams and their summaries, which the stores of pkg/store keep.
pub mod Plain
pub mod Entries
pub mod Indexed
pub mod Dropping
pub mod Refinement
pub mod Steps
pub mod Simulation
pub mod Queries
pub mod Restart
pub mod Identifiers
mod Codec
mod Tests
use tvproxy.Base.{ℕ, String, Bool, false, true, ◌&&◌, not, ◌==◌, List, if◌then◌else◌}
use tvproxy.Base.Integers.{ℤ, pos, int_ltb}

pub record StreamTrack : Type 0 where
  pub pid : ℕ
  pub kind : String
  pub category : String
  pub language : String
  pub audio_type : ℕ
  pub label : String

-- Times are nanoseconds; a duration only ever meets zero, and a natural number stands for it.
pub record Stream : Type 0 where
  pub id : String
  pub m3u_account_id : String
  pub satip_source_id : String
  pub hdhr_source_id : String
  pub name : String
  pub url : String
  pub group : String
  pub logo : String
  pub tvg_id : String
  pub tvg_name : String
  pub content_hash : String
  pub vod_type : String
  pub vod_series : String
  pub vod_collection : String
  pub vod_season : ℤ
  pub vod_season_name : String
  pub vod_episode : ℤ
  pub vod_year : ℤ
  pub vod_vcodec : String
  pub vod_acodec : String
  pub vod_res : String
  pub vod_audio : String
  pub vod_duration : ℕ
  pub tmdb_id : ℤ
  pub tmdb_manual : Bool
  pub cache_type : String
  pub cache_key : ℤ
  pub language : String
  pub use_wireguard : Bool
  pub is_active : Bool
  pub tracks : List StreamTrack
  pub created_at : ℕ
  pub updated_at : ℕ

pub record StreamSummary : Type 0 where
  pub id : String
  pub m3u_account_id : String
  pub satip_source_id : String
  pub hdhr_source_id : String
  pub name : String
  pub group : String
  pub logo : String
  pub vod_type : String
  pub vod_series : String
  pub vod_season : ℤ
  pub vod_season_name : String
  pub vod_episode : ℤ
  pub vod_year : ℤ
  pub tmdb_id : ℤ

abbrev pub is_positive : ℤ → Bool
is_positive n = int_ltb (pos 0) n
