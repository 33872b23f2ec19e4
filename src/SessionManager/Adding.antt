-- ===== src/SessionManager/Adding.antt =====
-- What adding a session does.
use Prim.Native.String.{String}
use text.Mathlib.Text.{◌==◌ as str_eq}
use text.Mathlib.TextEquality.{eq_iff}
use auction_manager.Prelude.{
  ℕ, suc, ◌+◌, ◌<◌, ◌≡◌, refl, sym, ap, ◌∙◌, subst, [], ◌∷◌, Option, none, some, if◌then◌else◌,
  arith, Result, ok, err, length, length-append, Bool-cases, inl, inr,
}
use auction_manager.Prelude.Dict.{lookup, string_key, lookup-insert}
use auction_manager.Slots.Laws.{slot-place, slot-out, place-end, count-snoc}
use auction_manager.IdSource.{IdSource, new_id}
use auction_manager.IdSource.Issued.{HasIssued, HasIssued-next, new_id-HasIssued}
use auction_manager.SessionManager.{
  Error, Manager, Session, valid, already_installed, find_session, get_anslp_session, install,
  add_session, add_unless,
}
use auction_manager.SessionManager.Laws.{
  IsWellFormed, held_at, find_session-held_at, get_anslp_session-held_at,
}

-- The session as it is stored.
abbrev new_session : Manager → Session → Session
new_session m s = record s { uid = length m.db; state = valid }

abbrev pub added : Manager → Session → Manager
added m s = install m s (length m.db) (record m.id_source { num = length m.db })

held_at-none :
    (m : Manager) (w : IsWellFormed m) (id : String)
    → held_at m (lookup id m.session_index) ≡ none
    → lookup id m.session_index ≡ none
held_at-none m w id h = go (lookup id m.session_index) refl
  where
    go : (r : Option ℕ) → lookup id m.session_index ≡ r → lookup id m.session_index ≡ none
    go none e = e
    go (some uid) e = let (s, at, name) = w.backed id uid e in ground (arith, h, e, at)

length-added : (m : Manager) (s : Session) → length (added m s).db ≡ length m.db + 1
length-added m s =
    rw (place-end (new_session m s) m.db) (length-append m.db (some (new_session m s) ∷ []))

pub added-IsWellFormed :
    (m : Manager) (s : Session)
    → IsWellFormed m
    → length m.db < 65536
    → held_at m (lookup s.session_id m.session_index) ≡ none
    → IsWellFormed (added m s)
added-IsWellFormed m s w small fresh =
    let s' = new_session m s in
    let k = length m.db in
    let unnamed = held_at-none m w s.session_id fresh in
    record {
      issued =
          subst (λ (i : ℕ). HasIssued i (record m.id_source { num = k })) (sym (length-added m s))
            (HasIssued-next k m.id_source small w.issued);
      counted = rw (place-end s' m.db) (rw w.counted (sym (count-snoc m.db s')));
      indexed = λ uid t h. ground (
        arith,
        slot-place k uid s' m.db,
        lookup-insert s.session_id t.session_id k m.session_index,
        w.indexed uid t,
        unnamed,
        h,
        eq_iff s.session_id t.session_id,
      );
      backed = λ id uid h.
          let found = lookup-insert s.session_id id k m.session_index in
          elim (Bool-cases (str_eq s.session_id id)) [
            | inl t ↦ (
              s',
              ground (arith, slot-place k uid s' m.db, found, h, t),
              ground (arith, t, eq_iff s.session_id id),
            )
            | inr f ↦
                let old : lookup id m.session_index ≡ some uid = ground (arith, found, h, f) in
                let (o, at, name) = w.backed id uid old in
                (o, ground (arith, slot-place k uid s' m.db, slot-out m.db k, at), name)
          ];
      reached = λ id uid h. omega (arith, w.reached id uid h, length-added m s);
    }

found_after :
    (m : Manager) (s : Session) (w : IsWellFormed m) (id : String)
    → held_at (added m s) (lookup id (added m s).session_index) ≡ (
        if str_eq s.session_id id
        then some (new_session m s)
        else held_at m (lookup id m.session_index))
found_after m s w id = go (lookup id m.session_index) refl
  where
    k : ℕ
    k = length m.db

    go :
        (r : Option ℕ)
        → lookup id m.session_index ≡ r
        → held_at (added m s) (lookup id (added m s).session_index) ≡ (
            if str_eq s.session_id id
            then some (new_session m s)
            else held_at m (lookup id m.session_index))
    go none e = ground (
      arith,
      lookup-insert s.session_id id k m.session_index,
      slot-place k k (new_session m s) m.db,
      e,
    )
    go (some uid) e =
        let (o, at, name) = w.backed id uid e in
        ground (
          arith,
          lookup-insert s.session_id id k m.session_index,
          slot-place k k (new_session m s) m.db,
          slot-place k uid (new_session m s) m.db,
          slot-out m.db k,
          at,
          e,
        )

anslp_after :
    (m : Manager) (s : Session) (r : Option ℕ)
    → ((uid : ℕ) → r ≡ some uid → uid < length m.db)
    → held_at (added m s) r ≡ held_at m r
anslp_after m s none small = refl
anslp_after m s (some uid) small =
    ground (arith, slot-place (length m.db) uid (new_session m s) m.db, small uid refl)

add_unless-fresh :
    (f : ℕ) (m : Manager) (s : Session) (uid : ℕ) (ids : IdSource)
    → new_id f m.id_source ≡ some (uid, ids)
    → add_unless f m s none ≡ ok (install m s uid ids)
unfolding add_unless
add_unless-fresh f m s uid ids e = rw (add_unless, e) refl

add_session-found :
    (f : ℕ) (m : Manager) (s : Session) (found : Option Session)
    → find_session m s.session_id ≡ ok found
    → add_session f m s ≡ add_unless f m s found
unfolding add_session
add_session-found f m s found h = rw (add_session, h) refl

-- What adding a session comes to, by what its id leads to.
abbrev pub IsAdded :
    Manager → Session → Result Error (Option Session) → Result Error Manager → Type 0
IsAdded m s (err e) r = ⊥
IsAdded m s (ok (some t)) r = r ≡ err already_installed
IsAdded m s (ok none) r =
    (m' : Manager) × (r ≡ ok m')
    × IsWellFormed m'
    × (length m'.db ≡ length m.db + 1)
    × ((id : String)
        → find_session m' id ≡ (
            if str_eq s.session_id id
            then ok (some (record s { uid = length m.db; state = valid }))
            else find_session m id))
    × ((anslp_id : String) → get_anslp_session m' anslp_id ≡ get_anslp_session m anslp_id)

-- On a well-formed store with fewer than 65536 slots, adding a session with any fuel but none fails
-- with the error for an id in use when its id is taken. Otherwise it leaves a well-formed store
-- with one slot more, in which the session is found by its id, valid and with the next uid; all
-- other ids, and all ids of the signalling protocol, lead where they led. No lookup of an id reads
-- past the end of the vector.
pub add_session-IsAdded :
    (f : ℕ) (m : Manager) (s : Session)
    → IsWellFormed m
    → length m.db < 65536
    → IsAdded m s (find_session m s.session_id) (add_session (suc f) m s)
unfolding add_unless
add_session-IsAdded f m s w small =
    subst (λ (x : Result Error (Option Session)). IsAdded m s x (add_session (suc f) m s))
      (sym (find_session-held_at m s.session_id w))
      (go (held_at m (lookup s.session_id m.session_index)) refl)
  where
    go :
        (r : Option Session)
        → held_at m (lookup s.session_id m.session_index) ≡ r
        → IsAdded m s (ok r) (add_session (suc f) m s)
    go (some t) e =
        add_session-found (suc f) m s (some t) (find_session-held_at m s.session_id w ∙ ap ok e)
    go none e =
        let w' = added-IsWellFormed m s w small e in
        (
          added m s,
          add_session-found (suc f) m s none (find_session-held_at m s.session_id w ∙ ap ok e)
              ∙ add_unless-fresh (suc f) m s (length m.db)
                  (record m.id_source { num = length m.db })
                  (new_id-HasIssued f (length m.db) m.id_source small w.issued),
          w',
          length-added m s,
          λ id. ground (
            arith,
            find_session-held_at (added m s) id w',
            find_session-held_at m id w,
            found_after m s w id,
          ),
          λ id.
              get_anslp_session-held_at (added m s) id w'
              ∙ ap ok (anslp_after m s (lookup id m.anslp_index) (λ uid h. w.reached id uid h))
              ∙ sym (get_anslp_session-held_at m id w),
        )
