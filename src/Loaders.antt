-- ===== src/Loaders.antt =====
-- `LoadChannelMap` of src/internal/usecase/channel.go, `LoadOnlineSessionMap` of session.go, and the
-- goroutines of `Start` that run them and send the map. A map that is not sent is `none`: receiving
-- from the closed channel gives nil.
pub mod Laws
use aggregator_demo.Base.{Option, none, some, List, [], ◌∷◌, ◌++◌, nat_eq, text_eq}
use aggregator_demo.Base.Text.{Text}
use aggregator_demo.Base.Map.{Map, insert, get_or}
use aggregator_demo.Entity.{Error, no_data, internal_error, Channel, OnlineSession, Result, ok, err}
use aggregator_demo.Traffic.{ChannelMap}
use aggregator_demo.Transaction.{SqlSession}
use aggregator_demo.Database.{Db, load_channel_list, load_online_session_list}
use aggregator_demo.Aggregator.Save.{opened}

-- The last `switch` of both: only `ErrNoData` is passed on.
unfoldable pub no_data_or_internal : Error → Error
no_data_or_internal no_data = no_data
no_data_or_internal e = internal_error

-- The loop of `LoadChannelMap`
unfoldable pub channel_map_of : ChannelMap → List Channel → ChannelMap
unfolding insert
channel_map_of m [] = m
channel_map_of m (ch ∷ channels) = channel_map_of (insert ch.id ch.enabled m) channels

unfoldable pub channels_loaded : Result (List Channel) → Result ChannelMap
unfolding channel_map_of no_data_or_internal
channels_loaded (ok channels) = ok (channel_map_of [] channels)
channels_loaded (err e) = err (no_data_or_internal e)

unfoldable pub load_channel_map : Option Error → Db → Result ChannelMap
unfolding channels_loaded load_channel_list
load_channel_map query db = channels_loaded (load_channel_list query db)

abbrev pub SessionMap : Type 0
SessionMap = Map Text (List OnlineSession)

-- The loop of `LoadOnlineSessionMap`
unfoldable pub session_map_of : SessionMap → List OnlineSession → SessionMap
unfolding insert
session_map_of m [] = m
session_map_of m (sess ∷ sessions) =
    session_map_of (insert sess.nas_ip (get_or sess.nas_ip m [] ++ sess ∷ []) m) sessions

unfoldable pub sessions_loaded : Result (List OnlineSession) → Result SessionMap
unfolding session_map_of no_data_or_internal
sessions_loaded (ok sessions) = ok (session_map_of [] sessions)
sessions_loaded (err e) = err (no_data_or_internal e)

unfoldable pub load_online_session_map : Option Error → Db → Result SessionMap
unfolding sessions_loaded load_online_session_list
load_online_session_map query db = sessions_loaded (load_online_session_list query db)

-- `loadChannelMap` and `loadOnlineSessionMap` of the aggregator: a transaction is opened, and rolled
-- back at the end.
unfoldable pub sent {ℓ} : {M : Type ℓ} → Result M → Option Error → Option M
sent (ok m) none = some m
sent (err e) none = none
sent r (some e) = none

unfoldable pub send_channel_map : Option Error → Option Error → Db → Option ChannelMap
unfolding sent load_channel_map opened
send_channel_map begin query db = sent (load_channel_map query db) (opened begin).1

unfoldable pub send_online_session_map : Option Error → Option Error → Db → Option SessionMap
unfolding sent load_online_session_map opened
send_online_session_map begin query db = sent (load_online_session_map query db) (opened begin).1
