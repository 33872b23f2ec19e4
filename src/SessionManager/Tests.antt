-- ===== src/SessionManager/Tests.antt =====
-- Tests and instances for sessions.
use Prim.Native.String.{String}
use auction_manager.Prelude.{◌≡◌, refl, [], ◌∷◌, none, some, arith, Result, ok, err, ◌>>=◌}
use auction_manager.Prelude.Dict.{lookup, insert, erase, nat_key}
use auction_manager.Prelude.Int.{pos}
use auction_manager.Timeval.{Timeval}
use auction_manager.Event.{EventType, other}
use auction_manager.EventScheduler.{EventList}
use auction_manager.Slots.{slot, place}
use auction_manager.IdSource.{new_id, skip_reserved, is_reserved}
use auction_manager.SessionManager.{
  Manager, Session, Error, new_state, valid, new_manager, get_session, find_session,
  get_anslp_session, index_active_session, add_session, add_unless, trim_done,
  store_session_as_done, delete_session, delete_found, delete_session_id, delete_session_uid,
  past_the_end,
}
use auction_manager.SessionManager.Laws.{IsWellFormed, new_manager-IsWellFormed}
use auction_manager.SessionManager.Adding.{IsAdded, add_session-IsAdded, added, added-IsWellFormed}
use auction_manager.SessionManager.Removing.{IsRemoved, delete_session_id-IsRemoved}

abbrev session : String → Session
session id = record { session_id = id; uid = 0; state = new_state }

abbrev active : Result Error Manager
active = add_session 1 new_manager (session "x") >>= λ m. index_active_session m "x" "sid"

-- The session of a signalling id is found while it is there, and not after it was removed.
anslp_test :
    (active >>= λ m. get_anslp_session m "sid") ≡ ok (some (record (session "x") { state = valid }))
unfolding add_session add_unless index_active_session find_session get_session get_anslp_session
    new_id skip_reserved is_reserved place slot lookup insert
anslp_test = refl

anslp_gone_test :
    (active >>= λ m. delete_session_id m none "x" >>= λ r. get_anslp_session r.0 "sid") ≡ ok none
unfolding add_session add_unless index_active_session find_session get_session get_anslp_session
    new_id skip_reserved is_reserved place slot lookup insert delete_session_id delete_found
    delete_session store_session_as_done trim_done erase
anslp_gone_test = refl

past_the_end_test : (active >>= λ m. delete_session_uid m none 1) ≡ err past_the_end
unfolding add_session add_unless index_active_session find_session get_session get_anslp_session
    new_id skip_reserved is_reserved place slot lookup insert delete_session_uid
past_the_end_test = refl

add_session-IsAdded_example :
    IsAdded new_manager
      (session "x")
      (find_session new_manager "x")
      (add_session 1 new_manager (session "x"))
add_session-IsAdded_example =
    add_session-IsAdded 0 new_manager (session "x") new_manager-IsWellFormed (omega arith)

abbrev time : Timeval
time = record { tv_sec = pos 50; tv_usec = pos 0 }

abbrev queue : EventList
queue =
    (time, record { type = EventType.remove_session; when = time; interval = 0; payload = other })
    ∷ []

-- A store with one session.
abbrev one : Manager
one = added new_manager (session "x")

one-IsWellFormed : IsWellFormed one
unfolding lookup slot
one-IsWellFormed =
    added-IsWellFormed new_manager (session "x") new_manager-IsWellFormed (omega arith) refl

delete_session_id-IsRemoved_example :
    IsRemoved one (some queue) "x" (find_session one "x") (delete_session_id one (some queue) "x")
delete_session_id-IsRemoved_example =
    delete_session_id-IsRemoved one (some queue) "x" one-IsWellFormed refl
