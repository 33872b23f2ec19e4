-- ===== src/Agent/References.antt =====
-- The references of the agent's sessions to auctions: what `handleRemoveResourceRequestInterval` of
-- user_agent/src/Agent.cpp does with them, over the manager of auctions.
use Prim.Native.String.{String}
use text.Mathlib.Text.{◌==◌ as str_eq}
use text.Mathlib.TextEquality.{eq_iff}
use auction_manager.Prelude.{
  ℕ, ◌≡◌, ◌⊎◌, ◌&&◌, refl, Bool, true, false, List, [], ◌∷◌, none, some, arith, ◌==◌, ==_iff,
  if◌then◌else◌, is_empty, ◌∙◌, subst, inl, inr, Bool-cases, Option-cases,
}
use auction_manager.Prelude.Dict.{lookup, insert, nat_key, lookup-insert}
use auction_manager.Auction.{
  Auction, has_session, drop_session, increment_session_references, decrement_session_references,
}
use auction_manager.Event.{contains}
use auction_manager.ObjectManager.{get_object}
use auction_manager.AuctionManager.Referring.{
  IsHeld, increment_references-IsReferring, lookup-increment_references,
}
use auction_manager.AuctionManager.{
  AuctionManager, change_auction, is_known, increment_references, decrement_references,
}

-- Whether the manager has the auction and no session refers to it.
abbrev pub is_unreferenced : AuctionManager → ℕ → Bool
is_unreferenced m uid = elim (get_object m.registry uid) [
  | none ↦ false
  | some o ↦ elim (lookup uid m.details) [ none ↦ false | some a ↦ is_empty a.sessions ]
]

-- The loop over the auctions of the session.
unfoldable pub unreferenced : AuctionManager → List ℕ → List ℕ
unreferenced m [] = []
unreferenced m (uid ∷ uids) =
    if is_unreferenced m uid then uid ∷ unreferenced m uids else unreferenced m uids

contains-unreferenced :
    (m : AuctionManager) (uids : List ℕ) (uid : ℕ)
    → contains uid (unreferenced m uids) ≡ (contains uid uids && is_unreferenced m uid)
unfolding contains unreferenced
contains-unreferenced m [] uid = refl
contains-unreferenced m (u ∷ uids) uid =
    ground (arith, contains-unreferenced m uids uid, ==_iff u uid)

-- No uid is twice in the list.
abbrev pub IsUidSet : List ℕ → Type 0
IsUidSet [] = Unit
IsUidSet (u ∷ uids) = (contains u uids ≡ false) × IsUidSet uids

-- One auction has lost the reference of the session.
abbrev without : String → Auction → Auction
without id a = record a { sessions = drop_session id a.sessions }

abbrev changed : String → ℕ → Auction → AuctionManager → AuctionManager
changed id uid a m = record m { details = insert uid (without id a) m.details }

-- What a step does, if it has a meaning.
decrement_references-cons :
    (u : ℕ) (uids : List ℕ) (id : String) (m m' : AuctionManager)
    → decrement_references (u ∷ uids) id m ≡ some m'
    → ((is_known m u ≡ false) × (decrement_references uids id m ≡ some m'))
      ⊎ ((a : Auction) × (is_known m u ≡ true)
          × (lookup u m.details ≡ some a)
          × (has_session id a.sessions ≡ true)
          × (decrement_references uids id (changed id u a m) ≡ some m'))
unfolding decrement_references change_auction decrement_session_references
decrement_references-cons u uids id m m' e = elim (Bool-cases (is_known m u)) [
  | inr n ↦ inl (n, ground (arith, n, e))
  | inl y ↦ elim (Option-cases (lookup u m.details)) [
    | inl gone ↦ let bad : ⊥ = ground (arith, y, gone, e) in elim bad [ ]
    | inr (a, there) ↦ elim (Bool-cases (has_session id a.sessions)) [
      | inl has ↦ inr (a, y, there, has, ground (arith, y, there, has, e))
      | inr has_not ↦ let bad : ⊥ = ground (arith, y, there, has_not, e) in elim bad [ ]
    ]
  ]
]

-- The auctions of the list that are known have lost the reference of the session, which they had.
pub record IsReleased (id : String) (uids : List ℕ) (m m' : AuctionManager) : Type 0 where
  pub registry : m'.registry ≡ m.registry
  pub outside : (uid : ℕ) → contains uid uids ≡ false → lookup uid m'.details ≡ lookup uid m.details
  pub inside :
      (uid : ℕ)
      → contains uid uids ≡ true
      → is_known m uid ≡ true
      → (a : Auction) × (lookup uid m.details ≡ some a)
        × (has_session id a.sessions ≡ true)
        × (lookup uid m'.details ≡ some (without id a))

IsReleased-known :
    (id : String) (u : ℕ) (uids : List ℕ) (a : Auction) (m m' : AuctionManager)
    → contains u uids ≡ false
    → lookup u m.details ≡ some a
    → has_session id a.sessions ≡ true
    → IsReleased id uids (changed id u a m) m'
    → IsReleased id (u ∷ uids) m m'
unfolding contains
IsReleased-known id u uids a m m' new there has r = record {
  registry = r.registry;
  outside = λ uid out.
      ground
        (arith, out, ==_iff u uid, r.outside uid, lookup-insert u uid (without id a) m.details);
  inside = λ uid within known. elim (Bool-cases (u == uid)) [
    | inl y ↦
        let here : u ≡ uid = (==_iff u uid).0 y in
        subst
          (λ i.
            (b : Auction) × (lookup i m.details ≡ some b)
            × (has_session id b.sessions ≡ true)
            × (lookup i m'.details ≡ some (without id b)))
          here
          (
            a,
            there,
            has,
            ground (arith, r.outside u new, lookup-insert u u (without id a) m.details),
          )
    | inr n ↦
        let (b, at, has_b, after) = r.inside uid (ground (arith, n, within)) known in
        (b, ground (arith, n, at, lookup-insert u uid (without id a) m.details), has_b, after)
  ];
}

IsReleased-unknown :
    (id : String) (u : ℕ) (uids : List ℕ) (m m' : AuctionManager)
    → is_known m u ≡ false
    → IsReleased id uids m m'
    → IsReleased id (u ∷ uids) m m'
unfolding contains
IsReleased-unknown id u uids m m' unknown r = record {
  registry = r.registry;
  outside = λ uid out. r.outside uid (ground (arith, out));
  inside = λ uid within known. elim (Bool-cases (u == uid)) [
    | inl y ↦
        let here : u ≡ uid = (==_iff u uid).0 y in
        let bad : ⊥ = ground (arith, known, subst (λ i. is_known m i ≡ false) here unknown) in
        elim bad [ ]
    | inr n ↦ r.inside uid (ground (arith, n, within)) known
  ];
}

decrement_references-IsReleased :
    (uids : List ℕ) (id : String) (m m' : AuctionManager)
    → IsUidSet uids
    → decrement_references uids id m ≡ some m'
    → IsReleased id uids m m'
unfolding decrement_references contains
decrement_references-IsReleased [] id m m' set e =
    let same : m ≡ m' = ground (arith, e) in
    subst (IsReleased id [] m) same (record {
      registry = refl;
      outside = λ uid out. refl;
      inside = λ uid within known. ground (arith, within);
    })
decrement_references-IsReleased (u ∷ uids) id m m' (new, set) e =
    elim (decrement_references-cons u uids id m m' e) [
      | inl (unknown, e') ↦
          IsReleased-unknown id u uids m m' unknown
            (decrement_references-IsReleased uids id m m' set e')
      | inr (a, known, there, has, e') ↦
          IsReleased-known id u uids a m m' new there has
            (decrement_references-IsReleased uids id (changed id u a m) m' set e')
    ]

abbrev pub is_only : String → List String → Bool
is_only id [] = false
is_only id (s ∷ []) = str_eq s id
is_only id (s ∷ t ∷ rest) = false

-- Whether the manager has the auction and the session is the only one that refers to it.
abbrev pub is_sole : String → AuctionManager → ℕ → Bool
is_sole id m uid = elim (get_object m.registry uid) [
  | none ↦ false
  | some o ↦ elim (lookup uid m.details) [ none ↦ false | some a ↦ is_only id a.sessions ]
]

drop_session-is_only :
    (id : String) (sessions : List String)
    → has_session id sessions ≡ true
    → is_empty (drop_session id sessions) ≡ is_only id sessions
unfolding has_session drop_session
drop_session-is_only id [] has = ground (arith, has)
drop_session-is_only id (s ∷ []) has = ground (arith, has)
drop_session-is_only id (s ∷ t ∷ rest) has = ground (arith, has)

is_unreferenced-is_sole :
    (id : String) (uids : List ℕ) (uid : ℕ) (m m' : AuctionManager)
    → contains uid uids ≡ true
    → IsReleased id uids m m'
    → is_unreferenced m' uid ≡ is_sole id m uid
is_unreferenced-is_sole id uids uid m m' within r =
    elim (Option-cases (get_object m.registry uid)) [
      | inl gone ↦ ground (arith, gone, r.registry)
      | inr (o, there) ↦
          let (a, at, has, after) = r.inside uid within (ground (arith, there)) in
          ground (arith, there, r.registry, at, after, drop_session-is_only id a.sessions has)
    ]

-- When the session's references are taken from the auctions of the session, those that are left
-- without a reference are the ones that the manager has and to which that session alone referred.
pub contains-unreferenced_after :
    (uids : List ℕ) (id : String) (uid : ℕ) (m m' : AuctionManager)
    → IsUidSet uids
    → decrement_references uids id m ≡ some m'
    → contains uid (unreferenced m' uids) ≡ (contains uid uids && is_sole id m uid)
contains-unreferenced_after uids id uid m m' set e =
    let r = decrement_references-IsReleased uids id m m' set e in
    elim (Bool-cases (contains uid uids)) [
      | inl y ↦ ground (
        arith,
        y,
        contains-unreferenced m' uids uid,
        is_unreferenced-is_sole id uids uid m m' y r,
      )
      | inr n ↦ ground (arith, n, contains-unreferenced m' uids uid)
    ]

-- Every auction of the list that is known has a reference of the session.
abbrev pub IsReferred : String → List ℕ → AuctionManager → Type 0
IsReferred id uids m =
    (uid : ℕ)
    → contains uid uids ≡ true
    → is_known m uid ≡ true
    → (a : Auction) × (lookup uid m.details ≡ some a) × (has_session id a.sessions ≡ true)

decrement_references-known :
    (u : ℕ) (uids : List ℕ) (id : String) (a : Auction) (m : AuctionManager)
    → is_known m u ≡ true
    → lookup u m.details ≡ some a
    → has_session id a.sessions ≡ true
    → decrement_references (u ∷ uids) id m ≡ decrement_references uids id (changed id u a m)
unfolding decrement_references change_auction decrement_session_references
decrement_references-known u uids id a m known there has = ground (arith, known, there, has)

pub decrement_references-total :
    (uids : List ℕ) (id : String) (m : AuctionManager)
    → IsUidSet uids
    → IsReferred id uids m
    → (m' : AuctionManager) × (decrement_references uids id m ≡ some m')
unfolding decrement_references contains
decrement_references-total [] id m set referred = (m, refl)
decrement_references-total (u ∷ uids) id m (new, set) referred = elim (Bool-cases (is_known m u)) [
  | inr n ↦
      let (m', e) =
        decrement_references-total uids id m set
          (λ uid within known. referred uid (ground (arith, within)) known) in
      (m', ground (arith, n, e))
  | inl y ↦
      let (a, there, has) = referred u (ground (arith, ==_iff u u)) y in
      let (m', e) = decrement_references-total uids id (changed id u a m) set (λ uid within known.
        let (b, at, has_b) = referred uid (ground (arith, within)) known in
        (
          b,
          ground
              (arith, at, within, new, ==_iff u uid, lookup-insert u uid (without id a) m.details),
          has_b,
        )) in
      (m', decrement_references-known u uids id a m y there has ∙ e)
]

-- An auction that did not refer to the session is as before once a reference came and went.
without-increment :
    (id : String) (a : Auction)
    → has_session id a.sessions ≡ false
    → without id (increment_session_references id a) ≡ a
unfolding increment_session_references drop_session
without-increment id a h = ground (arith, h, eq_iff id id)

has_session-increment_self :
    (id : String) (a : Auction) → has_session id (increment_session_references id a).sessions ≡ true
unfolding increment_session_references has_session
has_session-increment_self id a = ground (arith, eq_iff id id)

-- Where the auctions of the list are held with their details, and none of them refers to the session:
-- the references can be added and taken away again, and then the manager's registry and the details
-- of every auction are as before.
pub decrement_references-increment_references :
    (uids : List ℕ) (id : String) (m : AuctionManager)
    → IsUidSet uids
    → IsHeld uids m
    → ((uid : ℕ) (a : Auction)
        → contains uid uids ≡ true
        → lookup uid m.details ≡ some a
        → has_session id a.sessions ≡ false)
    → (m₁ m₂ : AuctionManager) × (increment_references uids id m ≡ some m₁)
      × (decrement_references uids id m₁ ≡ some m₂)
      × (m₂.registry ≡ m.registry)
      × ((uid : ℕ) → lookup uid m₂.details ≡ lookup uid m.details)
decrement_references-increment_references uids id m set held news =
    let (m₁, e₁, r₁) = increment_references-IsReferring uids id m held in
    let at = λ (uid : ℕ). lookup-increment_references uids id m m₁ uid held e₁ in
    let (m₂, e₂) =
      decrement_references-total uids id m₁ set
        (λ uid within known. let (a, there, has) = r₁.inside uid within in (a, there, has)) in
    let r₂ = decrement_references-IsReleased uids id m₁ m₂ set e₂ in
    (
      m₁,
      m₂,
      e₁,
      e₂,
      r₂.registry ∙ (at 0).0,
      λ uid. elim (Bool-cases (contains uid uids)) [
        | inr n ↦ ground (arith, n, r₂.outside uid n, (at uid).1)
        | inl y ↦
            let ((o, there), (a, old)) = held uid y in
            let known : is_known m₁ uid ≡ true = ground (arith, there, (at uid).0) in
            let (b, mid, has, after) = r₂.inside uid y known in
            ground
              (arith, y, old, mid, after, (at uid).1, without-increment id a (news uid a y old))
      ],
    )
