-- ===== src/AuctionManager/Referring.antt =====
-- What adding the references of a session does: `getIds` and `incrementReferences` of
-- foundation/src/AuctionManager.cpp.
use Prim.Native.String.{String}
use text.Mathlib.Text.{◌==◌ as str_eq}
use text.Mathlib.TextEquality.{eq_iff}
use auction_manager.Prelude.{
  ℕ, zero, suc, ◌≡◌, refl, true, List, [], ◌∷◌, some, arith, ◌==◌, ==_iff, ◌||◌, if◌then◌else◌, inl,
  inr, ◌∙◌, sym, ap, subst, Bool-cases, Option-cases, get_elem?,
}
use auction_manager.Prelude.Dict.{lookup, insert, nat_key, lookup-insert, option_map}
use auction_manager.Auction.{Auction, has_session, increment_session_references}
use auction_manager.Event.{contains}
use auction_manager.ObjectManager.{Object, get_object, get_named}
use auction_manager.AuctionManager.{
  AuctionManager, insert_uid, get_ids, change_auction, increment_references,
}

-- Every auction of the list is held, with its details.
abbrev pub IsHeld : List ℕ → AuctionManager → Type 0
IsHeld uids m =
    (uid : ℕ)
    → contains uid uids ≡ true
    → ((o : Object) × (get_object m.registry uid ≡ some o))
      × ((a : Auction) × (lookup uid m.details ≡ some a))

abbrev referred : String → ℕ → Auction → AuctionManager → AuctionManager
referred id uid a m = record m {
  details = insert uid (increment_session_references id a) m.details;
}

increment_references-held :
    (u : ℕ) (uids : List ℕ) (id : String) (o : Object) (a : Auction) (m : AuctionManager)
    → get_object m.registry u ≡ some o
    → lookup u m.details ≡ some a
    → increment_references (u ∷ uids) id m ≡ increment_references uids id (referred id u a m)
unfolding increment_references change_auction
increment_references-held u uids id o a m held there = ground (arith, held, there)

has_session-increment :
    (id j : String) (a : Auction)
    → has_session j (increment_session_references id a).sessions
      ≡ (str_eq id j || has_session j a.sessions)
unfolding has_session increment_session_references
has_session-increment id j a = elim (Bool-cases (str_eq id j)) [
  | inr n ↦ ground (arith, n)
  | inl y ↦
      let same : has_session id a.sessions ≡ has_session j a.sessions =
        ap (λ i. has_session i a.sessions) ((eq_iff id j).0 y) in
      ground (arith, y, same)
]

-- The auctions of the list have the reference of the session, and none has lost one.
pub record IsReferring (id : String) (uids : List ℕ) (m m' : AuctionManager) : Type 0 where
  pub inside :
      (uid : ℕ)
      → contains uid uids ≡ true
      → (a : Auction) × (lookup uid m'.details ≡ some a) × (has_session id a.sessions ≡ true)
  pub keeps :
      (uid : ℕ) (a : Auction)
      → lookup uid m.details ≡ some a
      → (a' : Auction) × (lookup uid m'.details ≡ some a')
        × ((j : String) → has_session j a.sessions ≡ true → has_session j a'.sessions ≡ true)

IsReferring-cons :
    (u : ℕ) (uids : List ℕ) (id : String) (a : Auction) (m m' : AuctionManager)
    → lookup u m.details ≡ some a
    → IsReferring id uids (referred id u a m) m'
    → IsReferring id (u ∷ uids) m m'
unfolding contains
IsReferring-cons u uids id a m m' there r =
    let at = λ (uid : ℕ). lookup-insert u uid (increment_session_references id a) m.details in
    record {
      inside = λ uid within. elim (Bool-cases (u == uid)) [
        | inr n ↦ r.inside uid (ground (arith, n, within))
        | inl y ↦
            let (b, after, more) =
              r.keeps uid (increment_session_references id a) (ground (arith, y, at uid)) in
            (b, after, more id (ground (arith, has_session-increment id id a, eq_iff id id)))
      ];
      keeps = λ uid b old. elim (Bool-cases (u == uid)) [
        | inr n ↦ r.keeps uid b (ground (arith, n, at uid, old))
        | inl y ↦
            let same : b ≡ a =
              ground
                (arith, old, subst (λ i. lookup i m.details ≡ some a) ((==_iff u uid).0 y) there) in
            let (c, after, more) =
              r.keeps uid (increment_session_references id a) (ground (arith, y, at uid)) in
            (
              c,
              after,
              λ j has. more j (
                  ground (
                    arith,
                    has_session-increment id j a,
                    subst (λ (x : Auction). has_session j x.sessions ≡ true) same has,
                  )),
            )
      ];
    }

IsHeld-referred :
    (u : ℕ) (uids : List ℕ) (id : String) (a : Auction) (m : AuctionManager)
    → IsHeld (u ∷ uids) m
    → IsHeld uids (referred id u a m)
unfolding contains
IsHeld-referred u uids id a m held uid within =
    let (there', (b, old)) = held uid (ground (arith, within)) in
    let at = lookup-insert u uid (increment_session_references id a) m.details in
    (
      there',
      elim (Bool-cases (u == uid)) [
        | inl y ↦ (increment_session_references id a, ground (arith, y, at))
        | inr n ↦ (b, ground (arith, n, old, at))
      ],
    )

-- Of auctions that are held, each gets the reference.
pub increment_references-IsReferring :
    (uids : List ℕ) (id : String) (m : AuctionManager)
    → IsHeld uids m
    → (m' : AuctionManager) × (increment_references uids id m ≡ some m') × IsReferring id uids m m'
unfolding increment_references contains
increment_references-IsReferring [] id m held = (
  m,
  refl,
  record {
    inside = λ uid within. ground (arith, within);
    keeps = λ uid a old. (a, old, λ j has. has);
  },
)
increment_references-IsReferring (u ∷ uids) id m held =
    let ((o, there), (a, at)) = held u (ground (arith, ==_iff u u)) in
    let (m', e, r) =
      increment_references-IsReferring uids id (referred id u a m)
        (IsHeld-referred u uids id a m held) in
    (
      m',
      increment_references-held u uids id o a m there at ∙ e,
      IsReferring-cons u uids id a m m' at r,
    )

contains-insert_uid :
    (j u : ℕ) (uids : List ℕ) → contains j (insert_uid u uids) ≡ ((u == j) || contains j uids)
unfolding contains insert_uid
contains-insert_uid j u [] = ground arith
contains-insert_uid j u (x ∷ uids) =
    ground (arith, contains-insert_uid j u uids, ==_iff x u, ==_iff u j, ==_iff x j)

-- An auction of the list that is in the registry is in the set, and so is what was there before.
contains-get_ids :
    (m : AuctionManager) (given : List Auction) (uids : List ℕ) (uid : ℕ)
    → contains uid uids ≡ true
    → contains uid (get_ids m given uids) ≡ true
unfolding get_ids
contains-get_ids m [] uids uid h = h
contains-get_ids m (a ∷ rest) uids uid h =
    elim (Option-cases (get_named m.registry a.set_name a.name)) [
      | inl gone ↦ ground (arith, gone, contains-get_ids m rest uids uid h)
      | inr (o, there) ↦
          let within : contains uid (insert_uid o.uid uids) ≡ true =
            ground (arith, contains-insert_uid uid o.uid uids, h) in
          ground (arith, there, contains-get_ids m rest (insert_uid o.uid uids) uid within)
    ]

pub get_ids-registered :
    (m : AuctionManager) (given : List Auction) (uids : List ℕ) (k : ℕ) (a : Auction) (o : Object)
    → get_elem? given k ≡ some a
    → get_named m.registry a.set_name a.name ≡ some o
    → contains o.uid (get_ids m given uids) ≡ true
unfolding get_ids
get_ids-registered m [] uids k a o at there = ground (arith, at)
get_ids-registered m (x ∷ rest) uids zero a o at there =
    let same : x ≡ a = ground (arith, at) in
    let there' : get_named m.registry x.set_name x.name ≡ some o =
      subst (λ (y : Auction). get_named m.registry y.set_name y.name ≡ some o) (sym same) there in
    let within : contains o.uid (insert_uid o.uid uids) ≡ true =
      ground (arith, contains-insert_uid o.uid o.uid uids, ==_iff o.uid o.uid) in
    ground (arith, there', contains-get_ids m rest (insert_uid o.uid uids) o.uid within)
get_ids-registered m (x ∷ rest) uids (suc k) a o at there =
    elim (Option-cases (get_named m.registry x.set_name x.name)) [
      | inl gone ↦ ground (arith, gone, get_ids-registered m rest uids k a o at there)
      | inr (p, held) ↦
          ground (arith, held, get_ids-registered m rest (insert_uid p.uid uids) k a o at there)
    ]

-- What is found by its name is held under its uid, with its details.
abbrev pub HasDetails : AuctionManager → Type 0
HasDetails m =
    (s n : String) (o : Object)
    → get_named m.registry s n ≡ some o
    → ((p : Object) × (get_object m.registry o.uid ≡ some p))
      × ((a : Auction) × (lookup o.uid m.details ≡ some a))

IsHeld-insert_uid :
    (m : AuctionManager) (uids : List ℕ) (uid : ℕ)
    → ((p : Object) × (get_object m.registry uid ≡ some p))
      × ((a : Auction) × (lookup uid m.details ≡ some a))
    → IsHeld uids m
    → IsHeld (insert_uid uid uids) m
IsHeld-insert_uid m uids uid here held j within = elim (Bool-cases (uid == j)) [
  | inl y ↦
      subst
        (λ i.
          ((p : Object) × (get_object m.registry i ≡ some p))
          × ((a : Auction) × (lookup i m.details ≡ some a)))
        ((==_iff uid j).0 y) here
  | inr n ↦ held j (ground (arith, n, within, contains-insert_uid j uid uids))
]

pub get_ids-IsHeld :
    (m : AuctionManager) (given : List Auction) (uids : List ℕ)
    → HasDetails m
    → IsHeld uids m
    → IsHeld (get_ids m given uids) m
unfolding get_ids
get_ids-IsHeld m [] uids d held = held
get_ids-IsHeld m (a ∷ rest) uids d held =
    elim (Option-cases (get_named m.registry a.set_name a.name)) [
      | inl gone ↦
          subst (λ us. IsHeld us m) (ground (arith, gone)) (get_ids-IsHeld m rest uids d held)
      | inr (o, there) ↦
          subst (λ us. IsHeld us m) (ground (arith, there))
            (get_ids-IsHeld m rest (insert_uid o.uid uids) d
              (IsHeld-insert_uid m uids o.uid (d a.set_name a.name o there) held))
    ]

increment_session_references_idem :
    (id : String) (a : Auction)
    → increment_session_references id (increment_session_references id a)
      ≡ increment_session_references id a
unfolding increment_session_references has_session
increment_session_references_idem id a = ground (arith, eq_iff id id)

-- What each auction is afterwards.
pub lookup-increment_references :
    (uids : List ℕ) (id : String) (m m' : AuctionManager) (uid : ℕ)
    → IsHeld uids m
    → increment_references uids id m ≡ some m'
    → (m'.registry ≡ m.registry)
      × (lookup uid m'.details ≡ (
          if contains uid uids
          then option_map (increment_session_references id) (lookup uid m.details)
          else lookup uid m.details))
unfolding increment_references contains
lookup-increment_references [] id m m' uid held e = ground (arith, e)
lookup-increment_references (u ∷ uids) id m m' uid held e =
    let ((o, there), (a, at)) = held u (ground (arith, ==_iff u u)) in
    let (kept, after) =
      lookup-increment_references uids id (referred id u a m) m' uid
        (IsHeld-referred u uids id a m held)
        (sym (increment_references-held u uids id o a m there at) ∙ e) in
    let found = lookup-insert u uid (increment_session_references id a) m.details in
    (
      kept,
      elim (Bool-cases (u == uid)) [
        | inr n ↦ ground (arith, n, after, found)
        | inl y ↦
            let at' : lookup uid m.details ≡ some a =
              subst (λ i. lookup i m.details ≡ some a) ((==_iff u uid).0 y) at in
            ground (arith, y, after, found, at', increment_session_references_idem id a)
      ],
    )
