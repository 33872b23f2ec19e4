-- ===== src/SessionManager/Removed.antt =====
-- The store of sessions without one of them.
use Prim.Native.String.{String}
use text.Mathlib.Text.{◌==◌ as str_eq}
use text.Mathlib.TextEquality.{eq_iff}
use auction_manager.Prelude.{
  ℕ, ◌-◌, ◌≡◌, refl, sym, subst, true, List, Option, none, some, if◌then◌else◌, arith, set,
}
use auction_manager.Prelude.Dict.{lookup, erase, string_key, lookup-erase}
use auction_manager.Slots.{slot}
use auction_manager.Slots.Laws.{slot-clear, length-set, count-clear}
use auction_manager.IdSource.Issued.{HasIssued}
use auction_manager.SessionManager.{Manager, Session, delete_session}
use auction_manager.SessionManager.Laws.{IsWellFormed, held_at, store_session_as_done-rest}

-- The store without the session `s`, and with `ds` as the done sessions.
abbrev pub removed : Manager → Session → List Session → Manager
removed m s ds = record m {
  sessions = m.sessions - 1;
  db = set m.db s.uid none;
  session_index = erase s.session_id m.session_index;
  done_list = ds;
}

pub delete_session-removed :
    (m : Manager) (s : Session)
    → m.id_source.unique ≡ true
    → (ds : List Session) × (delete_session m s ≡ removed m s ds)
unfolding delete_session
delete_session-removed m s h =
    let (ds, e) = store_session_as_done-rest m s h in (ds, rw (delete_session, e) refl)

pub removed-IsWellFormed :
    (m : Manager) (s : Session) (ds : List Session) (uid : ℕ)
    → IsWellFormed m
    → slot m.db uid ≡ some s
    → IsWellFormed (removed m s ds)
removed-IsWellFormed m s ds uid w there =
    let at_uid : s.uid ≡ uid = (w.indexed uid s there).0 in
    let len = length-set m.db s.uid none in
    record {
      issued = subst (λ (i : ℕ). HasIssued i m.id_source) (sym len) w.issued;
      counted = omega (
        arith,
        w.counted,
        count-clear m.db s.uid s (subst (λ (i : ℕ). slot m.db i ≡ some s) (sym at_uid) there),
      );
      indexed = λ u t h. ground (
        arith,
        slot-clear m.db s.uid u,
        lookup-erase s.session_id t.session_id m.session_index,
        w.indexed u t,
        w.indexed uid s,
        there,
        h,
        eq_iff s.session_id t.session_id,
      );
      backed = λ id u h.
          let rest = lookup-erase s.session_id id m.session_index in
          let before : lookup id m.session_index ≡ some u = ground (arith, rest, h) in
          let (o, at, name) = w.backed id u before in
          (
            o,
            ground (
              arith,
              rest,
              h,
              slot-clear m.db s.uid u,
              at,
              at_uid,
              there,
              name,
              eq_iff s.session_id id,
            ),
            name,
          );
      reached = λ id u h. omega (arith, w.reached id u h, len);
    }

pub found_after :
    (m : Manager) (s : Session) (ds : List Session) (uid : ℕ) (w : IsWellFormed m)
    → slot m.db uid ≡ some s
    → (id : String)
    → held_at (removed m s ds) (lookup id (removed m s ds).session_index)
      ≡ (if str_eq s.session_id id then none else held_at m (lookup id m.session_index))
found_after m s ds uid w there id = go (lookup id m.session_index) refl
  where
    go :
        (r : Option ℕ)
        → lookup id m.session_index ≡ r
        → held_at (removed m s ds) (lookup id (removed m s ds).session_index)
          ≡ (if str_eq s.session_id id then none else held_at m (lookup id m.session_index))
    go none e = ground (arith, lookup-erase s.session_id id m.session_index, e)
    go (some u) e =
        let (o, at, name) = w.backed id u e in
        ground (
          arith,
          lookup-erase s.session_id id m.session_index,
          slot-clear m.db s.uid u,
          w.indexed uid s there,
          at,
          e,
          name,
          there,
          eq_iff s.session_id id,
        )

-- What a lookup gives, without the session of an id.
abbrev pub without : String → Option Session → Option Session
without id none = none
without id (some t) = if str_eq id t.session_id then none else some t

pub anslp_after :
    (m : Manager) (s : Session) (ds : List Session) (uid : ℕ) (w : IsWellFormed m)
    → slot m.db uid ≡ some s
    → (r : Option ℕ) → held_at (removed m s ds) r ≡ without s.session_id (held_at m r)
anslp_after m s ds uid w there none = refl
anslp_after m s ds uid w there (some u) = go (slot m.db u) refl
  where
    go :
        (r : Option Session)
        → slot m.db u ≡ r
        → slot (set m.db s.uid none) u ≡ without s.session_id (slot m.db u)
    go none e = ground (arith, slot-clear m.db s.uid u, e)
    go (some t) e = ground (
      arith,
      slot-clear m.db s.uid u,
      e,
      w.indexed u t e,
      w.indexed uid s there,
      there,
      eq_iff s.session_id t.session_id,
    )
