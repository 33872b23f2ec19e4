-- ===== src/AuctionManager/Schedule.antt =====
-- What is put into the queue: the events of a time index name its auctions, each at its time.
use mathlib.Core.List.Perm
use mathlib.Core.List.{Perm, perm_middle, perm_append_comm, append_assoc}
use auction_manager.Prelude.{
  ℕ, ◌≡◌, refl, sym, ap, subst, Bool, List, [], ◌∷◌, ◌++◌, map, ltb, ◌==◌, if◌then◌else◌, arith,
  Bool-cases, inl, inr, ==_iff,
}
use auction_manager.Prelude.Int.{pos, ◌+ℤ◌, ◌-ℤ◌, int_laws, eq_of_parts}
use auction_manager.Timeval.{Timeval}
use auction_manager.Event.{Event, EventType, auctions, event_in}
use auction_manager.EventScheduler.{EventList, before, insert, add_event}
use auction_manager.EventScheduler.Removal.{auction_uids}
use auction_manager.AuctionManager.{TimeIndex, push_back, schedule}

-- A time index as a list of times and uids.
abbrev pub flat : TimeIndex → List (ℕ × ℕ)
flat [] = []
flat ((t, uids) ∷ index) = map (λ (u : ℕ). (t, u)) uids ++ flat index

module _ {A : Type 0} where
  pub perm_append : (xs : List A) {ys zs : List A} → Perm ys zs → Perm (xs ++ ys) (xs ++ zs)
  perm_append xs p = Perm.append (Perm.refl xs) p

map-append : {A B : Type 0} (f : A → B) (xs ys : List A) → map f (xs ++ ys) ≡ map f xs ++ map f ys
map-append f [] ys = refl
map-append f (x ∷ xs) ys = ap (λ zs. f x ∷ zs) (map-append f xs ys)

pub flat-push_back :
    (t uid : ℕ) (index : TimeIndex) → Perm (flat (push_back t uid index)) ((t, uid) ∷ flat index)
unfolding push_back
flat-push_back t uid [] = Perm.refl ((t, uid) ∷ [])
flat-push_back t uid ((u, uids) ∷ index) = elim (Bool-cases (u == t)) [
  | inl same ↦
      let here : u ≡ t = ground (arith, same, ==_iff u t) in
      rw same (
        rw
          (
            map-append {B = ℕ × ℕ} (λ (v : ℕ). (u, v)) uids (uid ∷ []),
            append_assoc (map (λ (v : ℕ). (u, v)) uids) ((u, uid) ∷ []) (flat index),
          )
          (subst
            (λ (v : ℕ).
              Perm (map (λ (w : ℕ). (u, w)) uids ++ ((u, uid) ∷ flat index))
                ((v, uid) ∷ (map (λ (w : ℕ). (u, w)) uids ++ flat index)))
            here (perm_middle (map (λ (v : ℕ). (u, v)) uids) (flat index))))
  | inr other ↦ elim (Bool-cases (ltb t u)) [
    | inl less ↦ rw (other, less) (Perm.refl ((t, uid) ∷ flat ((u, uids) ∷ index)))
    | inr more ↦
        rw (other, more)
          (Perm.trans (perm_append (map (λ (v : ℕ). (u, v)) uids) (flat-push_back t uid index))
            (perm_middle (map (λ (v : ℕ). (u, v)) uids) (flat index)))
  ]
]

-- The auctions that an event names, with its time, when its type is one that is asked for.
abbrev pub entries : (EventType → Bool) → Event → List (Timeval × ℕ)
entries wanted ev =
    if wanted ev.type then map (λ (u : ℕ). (ev.when, u)) (auction_uids ev.payload) else []

-- The auctions that the queue's events of those types name, each with the time of its event.
abbrev pub named : (EventType → Bool) → EventList → List (Timeval × ℕ)
named wanted [] = []
named wanted ((t, ev) ∷ q) = entries wanted ev ++ named wanted q

-- A list goes before another one that is in front of a third.
perm_swap_front : {A : Type 0} (xs ys zs : List A) → Perm (xs ++ (ys ++ zs)) (ys ++ (xs ++ zs))
perm_swap_front {A} xs ys zs =
    subst (λ (l : List A). Perm l (ys ++ (xs ++ zs))) (append_assoc xs ys zs)
      (subst (λ (r : List A). Perm ((xs ++ ys) ++ zs) r) (append_assoc ys xs zs)
        (Perm.append (perm_append_comm xs ys) (Perm.refl zs)))

named-insert :
    (wanted : EventType → Bool) (t : Timeval) (ev : Event) (q : EventList)
    → Perm (named wanted (insert t ev q)) (entries wanted ev ++ named wanted q)
unfolding insert
named-insert wanted t ev [] = Perm.refl _
named-insert wanted t ev ((t', ev') ∷ q) = elim (Bool-cases (before t t')) [
  | inl first ↦ rw first (Perm.refl _)
  | inr later ↦ rw later (
      Perm.trans (perm_append (entries wanted ev') (named-insert wanted t ev q))
        (perm_swap_front (entries wanted ev') (entries wanted ev) (named wanted q)))
]

named-add_event :
    (wanted : EventType → Bool) (ev : Event) (q : EventList)
    → Perm (named wanted (add_event ev q)) (entries wanted ev ++ named wanted q)
unfolding add_event
named-add_event wanted ev q = named-insert wanted ev.when ev q

abbrev pub second : ℕ → ℕ → Timeval
second t usec = record { tv_sec = pos t; tv_usec = pos usec }

-- The time of a second of the clock, when the events are made `now_usec` past a full second.
abbrev pub at_second : ℕ → ℕ × ℕ → Timeval × ℕ
at_second now_usec (t, uid) = (second t now_usec, uid)

event_in-when :
    (now now_usec t : ℕ) (type : EventType) (uids : List ℕ)
    → event_in
        (record { tv_sec = pos now; tv_usec = pos now_usec })
        type
        (pos t -ℤ pos now)
        (pos 0)
        0
        (auctions uids)
      ≡ record {
        type = type;
        when = record { tv_sec = pos t; tv_usec = pos now_usec };
        interval = 0;
        payload = auctions uids;
      }
unfolding event_in
event_in-when now now_usec t type uids =
    let sec : pos now +ℤ (pos t -ℤ pos now) ≡ pos t = eq_of_parts _ _ (omega int_laws) in
    let usec : pos now_usec +ℤ pos 0 ≡ pos now_usec = eq_of_parts _ _ (omega int_laws) in
    rw (sec, usec) refl

map-at_second :
    (t now_usec : ℕ) (uids : List ℕ)
    → map (at_second now_usec) (map (λ (u : ℕ). (t, u)) uids)
      ≡ map (λ (u : ℕ). (second t now_usec, u)) uids
map-at_second t now_usec [] = refl
map-at_second t now_usec (u ∷ uids) =
    ap (λ (xs : List (Timeval × ℕ)). (second t now_usec, u) ∷ xs) (map-at_second t now_usec uids)

abbrev event_at : EventType → ℕ → ℕ → List ℕ → Event
event_at type now_usec t uids = record {
  type = type;
  when = record { tv_sec = pos t; tv_usec = pos now_usec };
  interval = 0;
  payload = auctions uids;
}

-- What an index adds to the events of the types asked for.
abbrev pub added : (EventType → Bool) → EventType → ℕ → TimeIndex → List (Timeval × ℕ)
added wanted type now_usec index = if wanted type then map (at_second now_usec) (flat index) else []

added-step :
    (wanted : EventType → Bool) (type : EventType) (now_usec t : ℕ) (uids : List ℕ)
    (index : TimeIndex) (rest : List (Timeval × ℕ))
    → added wanted type now_usec ((t, uids) ∷ index) ++ rest
      ≡ entries wanted (event_at type now_usec t uids) ++ (added wanted type now_usec index ++ rest)
added-step wanted type now_usec t uids index rest = elim (Bool-cases (wanted type)) [
  | inl w ↦
      rw
        (
          w,
          map-append {B = Timeval × ℕ} (at_second now_usec) (map (λ (u : ℕ). (t, u)) uids)
              (flat index),
          map-at_second t now_usec uids,
        )
        (append_assoc _ (map (at_second now_usec) (flat index)) rest)
  | inr n ↦ rw n refl
]

-- Scheduling an index adds its entries to those of the events of that type, and changes those of
-- no other type.
pub named-schedule :
    (wanted : EventType → Bool) (type : EventType) (now now_usec : ℕ) (index : TimeIndex)
    (q : EventList)
    → Perm
        (named wanted (schedule type now now_usec index q))
        (added wanted type now_usec index ++ named wanted q)
unfolding schedule
named-schedule wanted type now now_usec [] q = elim (Bool-cases (wanted type)) [
  | inl w ↦ rw w (Perm.refl (named wanted q))
  | inr n ↦ rw n (Perm.refl (named wanted q))
]
named-schedule wanted type now now_usec ((t, uids) ∷ index) q =
    let ev = event_at type now_usec t uids in
    let later = named wanted (schedule type now now_usec index (add_event ev q)) in
    let moved : Perm later (added wanted type now_usec ((t, uids) ∷ index) ++ named wanted q) =
      subst (λ (r : List (Timeval × ℕ)). Perm later r)
        (sym (added-step wanted type now_usec t uids index (named wanted q)))
        (Perm.trans (named-schedule wanted type now now_usec index (add_event ev q)) (
          Perm.trans (perm_append (added wanted type now_usec index) (named-add_event wanted ev q))
            (perm_swap_front (added wanted type now_usec index) (entries wanted ev)
              (named wanted q)))) in
    rw (event_in-when now now_usec t type uids) moved
