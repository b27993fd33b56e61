-- ===== src/Runtime/Relay.antt =====
-- pkg/pgruntime/pgwatch.go: `relay` turns the watcher's events into watch events. `convertible` says
-- whether the scheme can make an object of a resource. A consumer that stops sees a prefix of them.
use postgres_controller_back.Base.{Bool, List, [], ◌∷◌, ltb, if◌then◌else◌}
use postgres_controller_back.Base.Int.{pos}
use postgres_controller_back.Base.Text.{Text}
use postgres_controller_back.Json.{Json}
use postgres_controller_back.Model.{Resource}
use postgres_controller_back.ResourceVersion.{Rv, to_text}
use postgres_controller_back.Reader.Poll.{EventType, Event, PollError}
use postgres_controller_back.Runtime.Convert.{has_finalizers}

-- `watch.EventType`; an error carries the reason of its Status.
pub data Reason : Type 0 where
  expired internal : Reason

pub data WatchEvent : Type 0 where
  added modified deleted : Resource → Text → WatchEvent
  error : Reason → WatchEvent

-- What `Run` of the source returned: nil, a cancelled context, or an error of a poll.
pub data RunEnd : Type 0 where
  stopped cancelled : RunEnd
  failed : PollError → RunEnd

unfoldable pub send_error : RunEnd → List WatchEvent
send_error stopped = []
send_error cancelled = []
send_error (failed PollError.send_cancelled) = []
send_error (failed PollError.gone) = error expired ∷ []
send_error (failed PollError.begin_failed) = error internal ∷ []
send_error (failed PollError.query_failed) = error internal ∷ []
send_error (failed PollError.commit_failed) = error internal ∷ []

-- The watermark goes to the event's stamp, and the object version rides along.
unfoldable pub stamp_rv : Rv → Event → Rv
stamp_rv rv e = record {
  object_version = pos e.resource.object_version;
  watermark =
      if ltb rv.watermark e.resource.txid_stamp then e.resource.txid_stamp else rv.watermark;
}

module _ (owners_ok : Json → Bool) (convertible : Resource → Bool) where
  unfoldable pub watch_event : EventType → Resource → Text → WatchEvent
  watch_event EventType.added r v = added r v
  watch_event EventType.modified r v = modified r v
  watch_event EventType.deleted r v =
      if has_finalizers owners_ok r then modified r v else deleted r v

  unfoldable pub relay : Rv → List Event → RunEnd → List WatchEvent
  unfolding stamp_rv watch_event send_error
  relay rv [] end = send_error end
  relay rv (e ∷ es) end =
      let rest = relay (stamp_rv rv e) es end in
      if convertible e.resource
      then watch_event e.type e.resource (to_text (stamp_rv rv e)) ∷ rest
      else error internal ∷ []

-- The resource version after the events, from which the Reflector watches again.
unfoldable pub last_rv : Rv → List Event → Rv
unfolding stamp_rv
last_rv rv [] = rv
last_rv rv (e ∷ es) = last_rv (stamp_rv rv e) es
