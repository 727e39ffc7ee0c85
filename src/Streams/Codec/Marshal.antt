-- ===== src/Streams/Codec/Marshal.antt =====
-- A concrete marshalling of streams, for the tests.
use tvproxy.Base.{
  ◌<◌, ◌≡◌, refl, true, false, List, [], ◌∷◌, Option, none, some, arith, length, append_nil,
}
use tvproxy.Base.Integers.{pos}
use tvproxy.Extradata.{Bytes}
use tvproxy.Streams.{Stream, StreamTrack}
use tvproxy.Streams.Codec.{
  Codec, number, characters, ◌⊗◌, by_way, flag, integer, many, codes, bit, sign, write_many,
  read_number, read_sized, read_counted,
}

track : Codec StreamTrack
track =
    by_way (number ⊗ characters ⊗ characters ⊗ characters ⊗ number ⊗ characters)
      (λ r. record {
        pid = r.0;
        kind = r.1.0;
        category = r.1.1.0;
        language = r.1.1.1.0;
        audio_type = r.1.1.1.1.0;
        label = r.1.1.1.1.1;
      })
      (λ t. (t.pid, (t.kind, (t.category, (t.language, (t.audio_type, t.label)))))) (λ t. refl)

tracks : Codec (List StreamTrack)
tracks = many track

stream : Codec Stream
stream =
    by_way
      (characters ⊗ characters ⊗ characters ⊗ characters ⊗ characters ⊗ characters ⊗ characters
        ⊗ characters ⊗ characters ⊗ characters ⊗ characters ⊗ characters ⊗ characters ⊗ characters
        ⊗ integer ⊗ characters ⊗ integer ⊗ integer ⊗ characters ⊗ characters ⊗ characters
        ⊗ characters ⊗ number ⊗ integer ⊗ flag ⊗ characters ⊗ integer ⊗ characters ⊗ flag ⊗ flag
        ⊗ tracks ⊗ number ⊗ number)
      (λ r. record {
        id = r.0;
        m3u_account_id = r.1.0;
        satip_source_id = r.1.1.0;
        hdhr_source_id = r.1.1.1.0;
        name = r.1.1.1.1.0;
        url = r.1.1.1.1.1.0;
        group = r.1.1.1.1.1.1.0;
        logo = r.1.1.1.1.1.1.1.0;
        tvg_id = r.1.1.1.1.1.1.1.1.0;
        tvg_name = r.1.1.1.1.1.1.1.1.1.0;
        content_hash = r.1.1.1.1.1.1.1.1.1.1.0;
        vod_type = r.1.1.1.1.1.1.1.1.1.1.1.0;
        vod_series = r.1.1.1.1.1.1.1.1.1.1.1.1.0;
        vod_collection = r.1.1.1.1.1.1.1.1.1.1.1.1.1.0;
        vod_season = r.1.1.1.1.1.1.1.1.1.1.1.1.1.1.0;
        vod_season_name = r.1.1.1.1.1.1.1.1.1.1.1.1.1.1.1.0;
        vod_episode = r.1.1.1.1.1.1.1.1.1.1.1.1.1.1.1.1.0;
        vod_year = r.1.1.1.1.1.1.1.1.1.1.1.1.1.1.1.1.1.0;
        vod_vcodec = r.1.1.1.1.1.1.1.1.1.1.1.1.1.1.1.1.1.1.0;
        vod_acodec = r.1.1.1.1.1.1.1.1.1.1.1.1.1.1.1.1.1.1.1.0;
        vod_res = r.1.1.1.1.1.1.1.1.1.1.1.1.1.1.1.1.1.1.1.1.0;
        vod_audio = r.1.1.1.1.1.1.1.1.1.1.1.1.1.1.1.1.1.1.1.1.1.0;
        vod_duration = r.1.1.1.1.1.1.1.1.1.1.1.1.1.1.1.1.1.1.1.1.1.1.0;
        tmdb_id = r.1.1.1.1.1.1.1.1.1.1.1.1.1.1.1.1.1.1.1.1.1.1.1.0;
        tmdb_manual = r.1.1.1.1.1.1.1.1.1.1.1.1.1.1.1.1.1.1.1.1.1.1.1.1.0;
        cache_type = r.1.1.1.1.1.1.1.1.1.1.1.1.1.1.1.1.1.1.1.1.1.1.1.1.1.0;
        cache_key = r.1.1.1.1.1.1.1.1.1.1.1.1.1.1.1.1.1.1.1.1.1.1.1.1.1.1.0;
        language = r.1.1.1.1.1.1.1.1.1.1.1.1.1.1.1.1.1.1.1.1.1.1.1.1.1.1.1.0;
        use_wireguard = r.1.1.1.1.1.1.1.1.1.1.1.1.1.1.1.1.1.1.1.1.1.1.1.1.1.1.1.1.0;
        is_active = r.1.1.1.1.1.1.1.1.1.1.1.1.1.1.1.1.1.1.1.1.1.1.1.1.1.1.1.1.1.0;
        tracks = r.1.1.1.1.1.1.1.1.1.1.1.1.1.1.1.1.1.1.1.1.1.1.1.1.1.1.1.1.1.1.0;
        created_at = r.1.1.1.1.1.1.1.1.1.1.1.1.1.1.1.1.1.1.1.1.1.1.1.1.1.1.1.1.1.1.1.0;
        updated_at = r.1.1.1.1.1.1.1.1.1.1.1.1.1.1.1.1.1.1.1.1.1.1.1.1.1.1.1.1.1.1.1.1;
      })
      (λ st. (
        st.id,
        (
          st.m3u_account_id,
          (
            st.satip_source_id,
            (
              st.hdhr_source_id,
              (
                st.name,
                (
                  st.url,
                  (
                    st.group,
                    (
                      st.logo,
                      (
                        st.tvg_id,
                        (
                          st.tvg_name,
                          (
                            st.content_hash,
                            (
                              st.vod_type,
                              (
                                st.vod_series,
                                (
                                  st.vod_collection,
                                  (
                                    st.vod_season,
                                    (
                                      st.vod_season_name,
                                      (
                                        st.vod_episode,
                                        (
                                          st.vod_year,
                                          (
                                            st.vod_vcodec,
                                            (
                                              st.vod_acodec,
                                              (
                                                st.vod_res,
                                                (
                                                  st.vod_audio,
                                                  (
                                                    st.vod_duration,
                                                    (
                                                      st.tmdb_id,
                                                      (
                                                        st.tmdb_manual,
                                                        (
                                                          st.cache_type,
                                                          (
                                                            st.cache_key,
                                                            (
                                                            st.language,
                                                            (
                                                            st.use_wireguard,
                                                            (
                                                            st.is_active,
                                                            (
                                                            st.tracks,
                                                            (st.created_at, st.updated_at),
                                                            ),
                                                            ),
                                                            ),
                                                            ),
                                                          ),
                                                        ),
                                                      ),
                                                    ),
                                                  ),
                                                ),
                                              ),
                                            ),
                                          ),
                                        ),
                                      ),
                                    ),
                                  ),
                                ),
                              ),
                            ),
                          ),
                        ),
                      ),
                    ),
                  ),
                ),
              ),
            ),
          ),
        ),
      ))
      (λ st. refl)

pub marshal : Stream → Bytes
marshal st = 1 ∷ stream.write st

first_of : Option (Stream × Bytes) → Option Stream
first_of none = none
first_of (some (st, rest)) = some st

pub unmarshal : Bytes → Option Stream
unmarshal [] = none
unmarshal (n ∷ bytes) = first_of (stream.read bytes)

pub unmarshal-marshal : (st : Stream) → unmarshal (marshal st) ≡ some st
unfolding unmarshal marshal first_of
unmarshal-marshal st =
    let e : stream.read (stream.write st) ≡ some (st, []) =
      rw (append_nil (stream.write st)) at (stream.read-write st []) in
    rw e refl

pub marshal-nonempty : (st : Stream) → 0 < length (marshal st)
unfolding marshal
marshal-nonempty st = omega arith

abbrev pub news : Stream
news = record {
  id = "s1";
  m3u_account_id = "a1";
  satip_source_id = "";
  hdhr_source_id = "";
  name = "News";
  url = "http://tv/1";
  group = "Live";
  logo = "";
  tvg_id = "";
  tvg_name = "";
  content_hash = "";
  vod_type = "";
  vod_series = "";
  vod_collection = "";
  vod_season = pos 0;
  vod_season_name = "";
  vod_episode = pos 0;
  vod_year = pos 0;
  vod_vcodec = "";
  vod_acodec = "";
  vod_res = "";
  vod_audio = "";
  vod_duration = 0;
  tmdb_id = pos 0;
  tmdb_manual = false;
  cache_type = "";
  cache_key = pos 0;
  language = "en";
  use_wireguard = false;
  is_active = true;
  tracks = [];
  created_at = 5;
  updated_at = 5;
}

pub marshal-news : length (marshal news) < 4_294_967_296
unfolding marshal stream by_way ◌⊗◌ characters codes number flag bit integer sign track tracks many
    write_many read_number read_sized read_counted
marshal-news = omega arith
