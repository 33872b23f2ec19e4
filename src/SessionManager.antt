-- ===== src/SessionManager.antt =====
-- The sessions of the agents: foundation/src/SessionManager.cpp, with the pending messages of
-- foundation/src/Session.cpp.
--
-- A session is held by one place at a time, a slot of the vector or the list of done sessions.
-- The type of the messages and their sequence numbers are arguments. A uid is not negative.
pub mod Laws
pub mod Adding
pub mod Removed
pub mod Removing
pub mod Pending
mod Tests
use Prim.Native.String.{String}
use text.Mathlib.Text.{◌==◌ as str_eq}
use auction_manager.Prelude.{
  ℕ, ◌+◌, ◌-◌, List, [], ◌∷◌, ◌++◌, Option, none, some, ltb, leb, if◌then◌else◌, Result, ok, err,
  ◌>>=◌, length, set, true,
}
use auction_manager.Prelude.Dict.{Dict, lookup, insert, erase, string_key, nat_key}
use auction_manager.Slots.{slot, place}
use auction_manager.EventScheduler.{EventList, del_session_events}
use auction_manager.IdSource.{IdSource, new_id_source, new_id, free_id}

pub data State : Type 0 where
  new_state valid active done error : State

pub data Error : Type 0 where
  already_installed no_such_session incomplete_id no_free_id past_the_end pending_exists : Error

pub record Session : Type 0 where
  pub session_id : String
  pub uid : ℕ
  pub state : State

pub record Manager : Type 0 where
  pub sessions : ℕ
  pub db : List (Option Session)
  pub session_index : Dict String ℕ
  pub anslp_index : Dict String ℕ
  pub done_list : List Session
  pub id_source : IdSource

abbrev pub new_manager : Manager
new_manager = record {
  sessions = 0;
  db = [];
  session_index = [];
  anslp_index = [];
  done_list = [];
  id_source = new_id_source true;
}

-- By uid: the test lets the size of the vector pass, and the read is then past the end.
unfoldable pub get_session : Manager → ℕ → Result Error (Option Session)
get_session m uid =
    if leb uid (length m.db)
    then if ltb uid (length m.db) then ok (slot m.db uid) else err past_the_end
    else ok none

abbrev pub get_at : Manager → Option ℕ → Result Error (Option Session)
get_at m none = ok none
get_at m (some uid) = get_session m uid

-- By the session's id.
unfoldable pub find_session : Manager → String → Result Error (Option Session)
find_session m id = get_at m (lookup id m.session_index)

unfoldable pub get_anslp_session : Manager → String → Result Error (Option Session)
get_anslp_session m anslp_id = get_at m (lookup anslp_id m.anslp_index)

unfoldable pub index_active_session : Manager → String → String → Result Error Manager
index_active_session m id anslp_id = find_session m id >>= λ found. elim found [
  | none ↦ ok m
  | some s ↦
      if str_eq anslp_id ""
      then ok m
      else ok (record m { anslp_index = insert anslp_id s.uid m.anslp_index })
]

-- What follows once the session has its uid.
abbrev pub install : Manager → Session → ℕ → IdSource → Manager
install m s uid ids = record m {
  sessions = m.sessions + 1;
  db = place uid (record s { uid = uid; state = valid }) m.db;
  session_index = insert s.session_id uid m.session_index;
  id_source = ids;
}

-- Past the test for the id, with what was found under it; `fuel` is for the search of an id.
unfoldable pub add_unless : ℕ → Manager → Session → Option Session → Result Error Manager
add_unless fuel m s (some t) = err already_installed
add_unless fuel m s none = elim (new_id fuel m.id_source) [
  | none ↦ err no_free_id
  | some (uid, ids) ↦ ok (install m s uid ids)
]

unfoldable pub add_session : ℕ → Manager → Session → Result Error Manager
add_session fuel m s = find_session m s.session_id >>= λ found. add_unless fuel m s found

abbrev pub done_list_size : ℕ
done_list_size = 50

-- The oldest done session leaves the list when there are too many.
unfoldable pub trim_done : Manager → List Session → Manager
trim_done m [] = record m { done_list = [] }
trim_done m (s ∷ rest) =
    if ltb done_list_size (length (s ∷ rest))
    then record m { done_list = rest; id_source = free_id s.uid m.id_source }
    else record m { done_list = s ∷ rest }

unfoldable pub store_session_as_done : Manager → Session → Manager
store_session_as_done m s = trim_done m (m.done_list ++ (record s { state = done } ∷ []))

-- `delSession` of a session, but for the queue.
unfoldable pub delete_session : Manager → Session → Manager
delete_session m s =
    let m' = store_session_as_done m s in
    record m' {
      db = set m'.db s.uid none;
      session_index = erase s.session_id m'.session_index;
      sessions = m'.sessions - 1;
    }

-- The queue is a pointer that may be NULL.
abbrev pub delete_events : ℕ → Option EventList → Option EventList
delete_events uid none = none
delete_events uid (some q) = some (del_session_events uid q)

unfoldable pub delete_found :
    Manager → Option EventList → Option Session → Result Error (Manager × Option EventList)
delete_found m q none = err no_such_session
delete_found m q (some s) = ok (delete_session m s, delete_events s.uid q)

unfoldable pub delete_session_id :
    Manager → Option EventList → String → Result Error (Manager × Option EventList)
delete_session_id m q id =
    if str_eq id ""
    then err incomplete_id
    else find_session m id >>= λ found. delete_found m q found

unfoldable pub delete_session_uid :
    Manager → Option EventList → ℕ → Result Error (Manager × Option EventList)
delete_session_uid m q uid = get_session m uid >>= λ found. delete_found m q found

unfoldable pub find_session_in_storage : List Session → String → Option Session
find_session_in_storage [] id = none
find_session_in_storage (s ∷ rest) id =
    if str_eq s.session_id id then some s else find_session_in_storage rest id

module _ {ℓ} {Message : Type ℓ} where
  -- `confirmMessage`, on the pending messages of a session.
  unfoldable pub confirm_message : ℕ → Dict ℕ Message → Dict ℕ Message
  confirm_message mid pending = elim (lookup mid pending) [
    | none ↦ pending
    | some mes ↦ erase mid pending
  ]

  unfoldable pub add_pending_message :
      (Message → ℕ) → Message → Dict ℕ Message → Result Error (Dict ℕ Message)
  add_pending_message get_seqno mes pending = elim (lookup (get_seqno mes) pending) [
    | none ↦ ok (insert (get_seqno mes) mes pending)
    | some other ↦ err pending_exists
  ]
