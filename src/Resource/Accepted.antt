-- ===== src/Resource/Accepted.antt =====
-- When a list of auctions may be added to the resources, and what adding the first one changes.
use Prim.Native.String.{String}
use text.Mathlib.Text.{◌==◌ as str_eq}
use text.Mathlib.TextEquality.{eq_iff}
use auction_manager.Prelude.{
  ◌≡◌, ◌↔◌, inl, inr, refl, subst, Bool, true, List, [], ◌∷◌, Option, none, some, ◌&&◌,
  if◌then◌else◌, arith, All, Bool-cases,
}
use auction_manager.Prelude.Dict.{Dict, lookup, insert, string_key, lookup-insert}
use auction_manager.Auction.{Auction}
use auction_manager.Resource.{Auctions, Resources, index_of, get_resource, put_resource}
use auction_manager.Resource.Intervals.{IsInterval, Disjoint, AllHeld}

-- Whether the auctions are for one resource.
abbrev pub shares : Auction → Auction → Bool
shares a b = str_eq a.set_parent b.set_parent && str_eq a.name_parent b.name_parent

-- The auction's resource is there, and its interval meets none there.
abbrev pub FitsIn : Auction → Option Auctions → Type 0
FitsIn a none = ⊥
FitsIn a (some auctions) = AllHeld (Disjoint a) auctions

abbrev pub Fits : Resources → Auction → Type 0
Fits r a = FitsIn a (get_resource r a.set_parent a.name_parent)

-- Each auction fits, and those for one resource meet no other in the list.
abbrev pub IsAccepted : Resources → List Auction → Type 0
IsAccepted r [] = Unit {0}
IsAccepted r (a ∷ rest) =
    Fits r a × All (λ (b : Auction). shares a b ≡ true → Disjoint b a) rest × IsAccepted r rest

pub AllHeld-insert :
    (P : Auction → Type 0) (k : String) (a : Auction) (m : Auctions)
    → lookup k m ≡ none
    → AllHeld P (insert k a m) ↔ (P a × AllHeld P m)
unfolding lookup insert
AllHeld-insert P k a [] h = (λ p. (p.0, tt), λ p. (p.0, tt))
AllHeld-insert P k a ((j, b) ∷ m) h = elim (Bool-cases (str_eq j k)) [
  | inl t ↦ let bad : ⊥ = ground (arith, h, t) in elim bad [ ]
  | inr f ↦
      let (to, from) = AllHeld-insert P k a m (ground (arith, h, f)) in
      elim (Bool-cases (string_key.lt k j)) [
        | inl l ↦ rw (f, l) (λ p. p, λ p. p)
        | inr g ↦ rw (f, g) (λ p. ((to p.1).0, (p.0, (to p.1).1)), λ p. (p.1.0, from (p.0, p.1.1)))
      ]
]

pub get_resource-put :
    (r : Resources) (s n s' n' : String) (auctions auctions' : Auctions)
    → get_resource r s n ≡ some auctions
    → get_resource (put_resource r s n auctions') s' n'
      ≡ (if str_eq s s' && str_eq n n' then some auctions' else get_resource r s' n')
unfolding get_resource put_resource
get_resource-put r s n s' n' auctions auctions' h = go (lookup s r) refl
  where
    go :
        (found : Option (Dict String Auctions))
        → lookup s r ≡ found
        → get_resource (put_resource r s n auctions') s' n'
          ≡ (if str_eq s s' && str_eq n n' then some auctions' else get_resource r s' n')
    go none e = ground (arith, h, e)
    go (some names) e = ground (
      arith,
      h,
      e,
      lookup-insert s s' (insert n auctions' names) r,
      lookup-insert n n' auctions' names,
      eq_iff s s',
    )

Fits-put :
    (r : Resources) (a b : Auction) (auctions : Auctions)
    → get_resource r a.set_parent a.name_parent ≡ some auctions
    → lookup (index_of a) auctions ≡ none
    → let r' = put_resource r a.set_parent a.name_parent (insert (index_of a) a auctions) in
      Fits r' b ↔ ((shares a b ≡ true → Disjoint b a) × Fits r b)
Fits-put r a b auctions found fresh =
    let r' = put_resource r a.set_parent a.name_parent (insert (index_of a) a auctions) in
    let now =
      get_resource-put r a.set_parent a.name_parent b.set_parent b.name_parent auctions
        (insert (index_of a) a auctions) found in
    elim (Bool-cases (shares a b)) [
      | inl t ↦
          let same : get_resource r b.set_parent b.name_parent ≡ some auctions = ground (
            arith,
            found,
            t,
            eq_iff a.set_parent b.set_parent,
            eq_iff a.name_parent b.name_parent,
          ) in
          let (to, from) = AllHeld-insert (Disjoint b) (index_of a) a auctions fresh in
          rw (now, t, same) (λ p. (λ q. (to p).0, (to p).1), λ p. from (p.0 refl, p.1))
      | inr f ↦ rw (now, f) (λ p. (λ q. ground arith, p), λ p. p.1)
    ]

-- With the first auction in its resource, the others are accepted just if they were and do not
-- meet it.
pub IsAccepted-put :
    (r : Resources) (a : Auction) (rest : List Auction) (auctions : Auctions)
    → get_resource r a.set_parent a.name_parent ≡ some auctions
    → lookup (index_of a) auctions ≡ none
    → let r' = put_resource r a.set_parent a.name_parent (insert (index_of a) a auctions) in
      IsAccepted r' rest
      ↔ (All (λ (b : Auction). shares a b ≡ true → Disjoint b a) rest × IsAccepted r rest)
IsAccepted-put r a [] auctions found fresh = (λ p. (tt, tt), λ p. tt)
IsAccepted-put r a (b ∷ rest) auctions found fresh =
    let (to, from) = Fits-put r a b auctions found fresh in
    let (to', from') = IsAccepted-put r a rest auctions found fresh in
    (
      λ p. (((to p.0).0, (to' p.2).0), ((to p.0).1, p.1, (to' p.2).1)),
      λ p. (from (p.0.0, p.1.0), p.1.1, from' (p.0.1, p.1.2)),
    )

-- The auctions of every resource do not end before they start.
abbrev pub HoldIntervals : Resources → Type 0
HoldIntervals r =
    (s n : String) (auctions : Auctions)
    → get_resource r s n ≡ some auctions
    → AllHeld IsInterval auctions

pub HoldIntervals-put :
    (r : Resources) (a : Auction) (auctions : Auctions)
    → IsInterval a
    → HoldIntervals r
    → get_resource r a.set_parent a.name_parent ≡ some auctions
    → lookup (index_of a) auctions ≡ none
    → HoldIntervals (put_resource r a.set_parent a.name_parent (insert (index_of a) a auctions))
HoldIntervals-put r a auctions ia hold found fresh s n held e =
    let now =
      get_resource-put r a.set_parent a.name_parent s n auctions (insert (index_of a) a auctions)
        found in
    elim (Bool-cases (str_eq a.set_parent s && str_eq a.name_parent n)) [
      | inl t ↦
          let new : insert (index_of a) a auctions ≡ held = ground (arith, now, e, t) in
          subst (λ (x : Auctions). AllHeld IsInterval x) new
            ((AllHeld-insert IsInterval (index_of a) a auctions fresh).1
              (ia, hold a.set_parent a.name_parent auctions found))
      | inr f ↦ hold s n held (ground (arith, now, e, f))
    ]
