-- ===== src/SessionManager/Removing.antt =====
-- What removing a session does.
use Prim.Native.String.{String}
use text.Mathlib.Text.{◌==◌ as str_eq}
use auction_manager.Prelude.{
  ℕ, ◌≡◌, refl, sym, ap, ◌∙◌, subst, false, List, Option, none, some, [], ◌∷◌, if◌then◌else◌, arith,
  Result, ok, err, length,
}
use auction_manager.Prelude.Dict.{lookup, string_key}
use auction_manager.Slots.{slot}
use auction_manager.Slots.Laws.{length-set}
use auction_manager.EventScheduler.{EventList, del_events, del_session_events}
use auction_manager.SessionManager.{
  Error, Manager, Session, no_such_session, find_session, get_anslp_session, delete_events,
  delete_found, delete_session_id,
}
use auction_manager.SessionManager.Laws.{
  IsWellFormed, held_at, find_session-held_at, get_anslp_session-held_at,
}
use auction_manager.SessionManager.Removed.{
  without, removed, delete_session-removed, removed-IsWellFormed, found_after, anslp_after,
}

abbrev pub lookup_without : String → Result Error (Option Session) → Result Error (Option Session)
lookup_without id (ok found) = ok (without id found)
lookup_without id (err e) = err e

-- What removing a session by its id comes to, by what the id leads to.
abbrev pub IsRemoved :
    Manager
    → Option EventList
    → String
    → Result Error (Option Session)
    → Result Error (Manager × Option EventList)
    → Type 0
IsRemoved m q id (err e) r = ⊥
IsRemoved m q id (ok none) r = r ≡ err no_such_session
IsRemoved m q id (ok (some s)) r =
    (m' : Manager) × (r ≡ ok (m', q))
    × IsWellFormed m'
    × (length m'.db ≡ length m.db)
    × ((other : String)
        → find_session m' other ≡ (if str_eq id other then ok none else find_session m other))
    × ((anslp_id : String)
        → get_anslp_session m' anslp_id ≡ lookup_without id (get_anslp_session m anslp_id))

-- No event is one of a session, so none is deleted.
del_events_keeps : (q : EventList) → del_events (λ ev. (0, ev)) q ≡ q
unfolding del_events
del_events_keeps [] = refl
del_events_keeps ((t, ev) ∷ q) = ap (λ (r : EventList). (t, ev) ∷ r) (del_events_keeps q)

delete_events_keeps : (uid : ℕ) (q : Option EventList) → delete_events uid q ≡ q
unfolding del_session_events
delete_events_keeps uid none = refl
delete_events_keeps uid (some q) = ap {B = Option EventList} some (del_events_keeps q)

delete_session_id-found :
    (m : Manager) (q : Option EventList) (id : String) (found : Option Session)
    → str_eq id "" ≡ false
    → find_session m id ≡ ok found
    → delete_session_id m q id ≡ delete_found m q found
unfolding delete_session_id
delete_session_id-found m q id found full h = rw (delete_session_id, full) (rw h refl)

removed-IsRemoved :
    (m : Manager) (q : Option EventList) (id : String) (s : Session) (ds : List Session) (uid : ℕ)
    → IsWellFormed m
    → slot m.db uid ≡ some s
    → s.session_id ≡ id
    → ((other : String)
        → find_session (removed m s ds) other
          ≡ (if str_eq id other then ok none else find_session m other))
      × ((anslp_id : String)
          → get_anslp_session (removed m s ds) anslp_id
            ≡ lookup_without id (get_anslp_session m anslp_id))
removed-IsRemoved m q id s ds uid w there name =
    let w' = removed-IsWellFormed m s ds uid w there in
    (
      λ other. ground (
        arith,
        find_session-held_at (removed m s ds) other w',
        find_session-held_at m other w,
        found_after m s ds uid w there other,
        name,
      ),
      λ anslp_id.
          let r = lookup anslp_id m.anslp_index in
          get_anslp_session-held_at (removed m s ds) anslp_id w'
          ∙ ap ok (anslp_after m s ds uid w there r)
          ∙ ap (λ (i : String). ok (without i (held_at m r))) name
          ∙ sym (ap (lookup_without id) (get_anslp_session-held_at m anslp_id w)),
    )

-- On a well-formed store, removing a session by an id that is not empty fails with the error for a
-- missing session when there is none of that id. Otherwise it leaves a well-formed store with as
-- many slots, in which the id leads nowhere and all others where they led; an id of the signalling
-- protocol leads where it led, or nowhere if it led to the removed session. The queue keeps all its
-- events, also those of the session. No lookup reads past the end of the vector.
pub delete_session_id-IsRemoved :
    (m : Manager) (q : Option EventList) (id : String)
    → IsWellFormed m
    → str_eq id "" ≡ false
    → IsRemoved m q id (find_session m id) (delete_session_id m q id)
unfolding delete_found
delete_session_id-IsRemoved m q id w full =
    subst (λ (x : Result Error (Option Session)). IsRemoved m q id x (delete_session_id m q id))
      (sym (find_session-held_at m id w)) (go (lookup id m.session_index) refl)
  where
    go :
        (r : Option ℕ)
        → lookup id m.session_index ≡ r
        → IsRemoved m q id (ok (held_at m (lookup id m.session_index))) (delete_session_id m q id)
    go none e =
        let found = find_session-held_at m id w ∙ ap (λ (r : Option ℕ). ok (held_at m r)) e in
        rw e (delete_session_id-found m q id none full found)
    go (some uid) e =
        let (s, there, name) = w.backed id uid e in
        let (ds, gone) = delete_session-removed m s w.issued.unique in
        let held : held_at m (lookup id m.session_index) ≡ some s = ap (held_at m) e ∙ there in
        let found = find_session-held_at m id w ∙ ap ok held in
        let (ids, anslp) = removed-IsRemoved m q id s ds uid w there name in
        subst (λ (x : Option Session). IsRemoved m q id (ok x) (delete_session_id m q id))
          (sym held)
          (
            removed m s ds,
            delete_session_id-found m q id (some s) full found
                ∙ ap (λ (x : Manager). ok (x, delete_events s.uid q)) gone
                ∙ ap (λ (x : Option EventList). ok (removed m s ds, x))
                    (delete_events_keeps s.uid q),
            removed-IsWellFormed m s ds uid w there,
            length-set m.db s.uid none,
            ids,
            anslp,
          )
