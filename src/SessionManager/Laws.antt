-- ===== src/SessionManager/Laws.antt =====
-- What the store of sessions keeps true.
use Prim.Native.String.{String}
use auction_manager.Prelude.{
  ℕ, ◌<◌, ◌≡◌, refl, true, List, [], ◌∷◌, ◌++◌, Option, none, some, arith, ok, length, Bool-cases,
  inl, inr, ltb,
}
use auction_manager.Prelude.Dict.{lookup, string_key}
use auction_manager.Slots.{slot}
use auction_manager.Slots.Laws.{count, slot-out}
use auction_manager.IdSource.Issued.{HasIssued, free_id-unique}
use auction_manager.SessionManager.{
  Manager, Session, done, new_manager, get_session, get_at, find_session, get_anslp_session,
  trim_done, store_session_as_done, done_list_size,
}

-- The vector and the map of ids agree, and no entry of the other map is past the vector's end.
pub record IsWellFormed (m : Manager) : Type 0 where
  pub issued : HasIssued (length m.db) m.id_source
  pub counted : m.sessions ≡ count m.db
  pub indexed :
      (uid : ℕ) (s : Session)
      → slot m.db uid ≡ some s
      → (s.uid ≡ uid) × (lookup s.session_id m.session_index ≡ some uid)
  pub backed :
      (id : String) (uid : ℕ)
      → lookup id m.session_index ≡ some uid
      → (s : Session) × (slot m.db uid ≡ some s) × (s.session_id ≡ id)
  pub reached :
      (anslp_id : String) (uid : ℕ) → lookup anslp_id m.anslp_index ≡ some uid → uid < length m.db

-- The session in the slot that an entry of a map names.
abbrev pub held_at : Manager → Option ℕ → Option Session
held_at m none = none
held_at m (some uid) = slot m.db uid

pub get_at-held_at :
    (m : Manager) (r : Option ℕ)
    → ((uid : ℕ) → r ≡ some uid → uid < length m.db)
    → get_at m r ≡ ok (held_at m r)
unfolding get_session
get_at-held_at m none small = refl
get_at-held_at m (some uid) small = ground (arith, small uid refl)

pub find_session-held_at :
    (m : Manager) (id : String)
    → IsWellFormed m
    → find_session m id ≡ ok (held_at m (lookup id m.session_index))
unfolding find_session
find_session-held_at m id w =
    get_at-held_at m (lookup id m.session_index)
      (λ uid e. let (s, at, name) = w.backed id uid e in ground (arith, slot-out m.db uid, at))

pub get_anslp_session-held_at :
    (m : Manager) (id : String)
    → IsWellFormed m
    → get_anslp_session m id ≡ ok (held_at m (lookup id m.anslp_index))
unfolding get_anslp_session
get_anslp_session-held_at m id w =
    get_at-held_at m (lookup id m.anslp_index) (λ uid e. w.reached id uid e)

pub new_manager-IsWellFormed : IsWellFormed new_manager
unfolding slot lookup
new_manager-IsWellFormed = record {
  issued = record { unique = refl; none_free = refl; none_reserved = refl; num = refl };
  counted = refl;
  indexed = λ uid s h. ground arith;
  backed = λ id uid h. ground arith;
  reached = λ id uid h. ground arith;
}

trim_done-rest :
    (m : Manager) (xs : List Session)
    → m.id_source.unique ≡ true
    → (ds : List Session) × (trim_done m xs ≡ record m { done_list = ds })
unfolding trim_done
trim_done-rest m [] h = ([], refl)
trim_done-rest m (x ∷ rest) h = elim (Bool-cases (ltb done_list_size (length (x ∷ rest)))) [
  | inl t ↦ (rest, rw t (rw (free_id-unique x.uid m.id_source h) refl))
  | inr f ↦ (x ∷ rest, rw f refl)
]

-- Storing a session as done changes nothing but the list of done sessions.
pub store_session_as_done-rest :
    (m : Manager) (s : Session)
    → m.id_source.unique ≡ true
    → (ds : List Session) × (store_session_as_done m s ≡ record m { done_list = ds })
unfolding store_session_as_done
store_session_as_done-rest m s h =
    trim_done-rest m (m.done_list ++ (record s { state = done } ∷ [])) h
