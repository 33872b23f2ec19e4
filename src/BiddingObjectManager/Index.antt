-- ===== src/BiddingObjectManager/Index.antt =====
-- The bids of an auction: what adding a bid and deleting it again leaves.
use Prim.Native.String.{String}
use text.Mathlib.Text.{◌==◌ as str_eq}
use text.Mathlib.TextEquality.{eq_iff}
use auction_manager.Prelude.{
  ℕ, ◌≡◌, refl, sym, ap, ◌∙◌, false, List, [], ◌∷◌, ◌++◌, Option, none, some, ==_iff, if◌then◌else◌,
  arith, is_empty, Bool-cases, inl, inr,
}
use auction_manager.Prelude.Dict.{
  Dict, lookup, insert, erase, string_key, lookup-insert, lookup-erase, lookup-insert_self,
}
use auction_manager.Event.{erase_first, contains}
use auction_manager.ObjectManager.Index.{same}
use auction_manager.BiddingObjectManager.{
  BidIndex, auctions_of, get_bidding_objects, index_bid, unindex_bid,
}

erase_first-snoc :
    (uid : ℕ) (uids : List ℕ)
    → contains uid uids ≡ false
    → erase_first uid (uids ++ (uid ∷ [])) ≡ uids
unfolding erase_first contains
erase_first-snoc uid [] h = ground (arith, ==_iff uid uid)
erase_first-snoc uid (x ∷ uids) h = ground (arith, h, erase_first-snoc uid uids)

list_of : Option (List ℕ) → List ℕ
list_of none = []
list_of (some uids) = uids

get-auctions_of :
    (index : BidIndex) (s n : String)
    → get_bidding_objects index s n ≡ list_of (lookup n (auctions_of index s))
unfolding get_bidding_objects lookup list_of
get-auctions_of index s n = ground arith

get-insert :
    (s s' n' : String) (names : Dict String (List ℕ)) (index : BidIndex)
    → get_bidding_objects (insert s names index) s' n'
      ≡ (if str_eq s s' then list_of (lookup n' names) else get_bidding_objects index s' n')
unfolding get_bidding_objects list_of
get-insert s s' n' names index = elim (Bool-cases (str_eq s s')) [
  | inl t ↦ rw (get_bidding_objects, lookup-insert s s' names index, t) refl
  | inr f ↦ rw (get_bidding_objects, lookup-insert s s' names index, f) refl
]

list_of-insert :
    (n n' : String) (uids : List ℕ) (names : Dict String (List ℕ))
    → list_of (lookup n' (insert n uids names))
      ≡ (if str_eq n n' then uids else list_of (lookup n' names))
unfolding list_of
list_of-insert n n' uids names = elim (Bool-cases (str_eq n n')) [
  | inl t ↦ rw (lookup-insert n n' uids names, t) refl
  | inr f ↦ rw (lookup-insert n n' uids names, f) refl
]

-- Writing a list into a set's map, and the map back.
get-written :
    (s n s' n' : String) (uids : List ℕ) (names : Dict String (List ℕ)) (index : BidIndex)
    → ((n' : String) → list_of (lookup n' names) ≡ get_bidding_objects index s n')
    → get_bidding_objects (insert s (insert n uids names) index) s' n'
      ≡ (if same s n s' n' then uids else get_bidding_objects index s' n')
get-written s n s' n' uids names index h = elim (Bool-cases (str_eq s s')) [
  | inr f ↦ get-insert s s' n' (insert n uids names) index ∙ rw f refl
  | inl t ↦
      let e : s ≡ s' = ground (arith, eq_iff s s', t) in
      get-insert s s' n' (insert n uids names) index
      ∙ rw t (
          list_of-insert n n' uids names
          ∙ ap (λ (l : List ℕ). if str_eq n n' then uids else l)
              (h n' ∙ ap (λ (x : String). get_bidding_objects index x n') e))
]

pub get-index_bid :
    (s n s' n' : String) (uid : ℕ) (index : BidIndex)
    → get_bidding_objects (index_bid s n uid index) s' n' ≡ (
        if same s n s' n'
        then get_bidding_objects index s n ++ (uid ∷ [])
        else get_bidding_objects index s' n')
unfolding index_bid
get-index_bid s n s' n' uid index =
    get-written s n s' n' (get_bidding_objects index s n ++ (uid ∷ [])) (auctions_of index s) index
      (λ x. sym (get-auctions_of index s x))

get-erase :
    (s s' n' : String) (index : BidIndex)
    → get_bidding_objects (erase s index) s' n'
      ≡ (if str_eq s s' then [] else get_bidding_objects index s' n')
unfolding get_bidding_objects
get-erase s s' n' index = elim (Bool-cases (str_eq s s')) [
  | inl t ↦ rw (get_bidding_objects, lookup-erase s s' index, t) refl
  | inr f ↦ rw (get_bidding_objects, lookup-erase s s' index, f) refl
]

-- What is left of a set's map, and of the whole one.
abbrev names_left : String → List ℕ → Dict String (List ℕ) → Dict String (List ℕ)
names_left n left names = if is_empty left then erase n names else insert n left names

abbrev index_left : String → Dict String (List ℕ) → BidIndex → BidIndex
index_left s names index = if is_empty names then erase s index else insert s names index

list_of-names_left :
    (n n' : String) (left : List ℕ) (names : Dict String (List ℕ))
    → list_of (lookup n' (names_left n left names))
      ≡ (if str_eq n n' then left else list_of (lookup n' names))
unfolding list_of
list_of-names_left n n' [] names = elim (Bool-cases (str_eq n n')) [
  | inl t ↦ rw (lookup-erase n n' names, t) refl
  | inr f ↦ rw (lookup-erase n n' names, f) refl
]
list_of-names_left n n' (x ∷ left) names = list_of-insert n n' (x ∷ left) names

get-index_left :
    (s s' n' : String) (names : Dict String (List ℕ)) (index : BidIndex)
    → get_bidding_objects (index_left s names index) s' n'
      ≡ (if str_eq s s' then list_of (lookup n' names) else get_bidding_objects index s' n')
unfolding list_of lookup
get-index_left s s' n' [] index = get-erase s s' n' index
get-index_left s s' n' (e ∷ names) index = get-insert s s' n' (e ∷ names) index

pub unindex_bid-some :
    (s n : String) (uid : ℕ) (index : BidIndex) (names : Dict String (List ℕ)) (uids : List ℕ)
    → lookup s index ≡ some names
    → lookup n names ≡ some uids
    → unindex_bid s n uid index
      ≡ some (index_left s (names_left n (erase_first uid uids) names) index)
unfolding unindex_bid
unindex_bid-some s n uid index names uids there held = rw (unindex_bid, there, held) refl

-- A bid that was put into the index, and was not in the list of its auction, is taken out again and
-- leaves the bids of each auction.
pub unindex_bid-index_bid :
    (s n : String) (uid : ℕ) (index : BidIndex)
    → contains uid (get_bidding_objects index s n) ≡ false
    → (index' : BidIndex) × (unindex_bid s n uid (index_bid s n uid index) ≡ some index')
      × ((s' n' : String) → get_bidding_objects index' s' n' ≡ get_bidding_objects index s' n')
unfolding index_bid
unindex_bid-index_bid s n uid index new =
    let uids = get_bidding_objects index s n in
    let names = insert n (uids ++ (uid ∷ [])) (auctions_of index s) in
    let left = names_left n uids names in
    (
      index_left s left (insert s names index),
      unindex_bid-some s n uid (insert s names index) names (uids ++ (uid ∷ []))
            (lookup-insert_self s names index)
            (lookup-insert_self n (uids ++ (uid ∷ [])) (auctions_of index s))
          ∙ ap (λ (l : List ℕ). some (index_left s (names_left n l names) (insert s names index)))
              (erase_first-snoc uid uids new),
      λ s' n'. restored s' n',
    )
  where
    uids : List ℕ
    uids = get_bidding_objects index s n

    names : Dict String (List ℕ)
    names = insert n (uids ++ (uid ∷ [])) (auctions_of index s)

    -- the set's own map
    own :
        (n' : String)
        → list_of (lookup n' (names_left n uids names)) ≡ get_bidding_objects index s n'
    own n' = elim (Bool-cases (str_eq n n')) [
      | inl t ↦
          let e : n ≡ n' = ground (arith, eq_iff n n', t) in
          list_of-names_left n n' uids names ∙ rw t (ap (get_bidding_objects index s) e)
      | inr f ↦
          list_of-names_left n n' uids names
          ∙ rw f (
              list_of-insert n n' (uids ++ (uid ∷ [])) (auctions_of index s)
              ∙ rw f (sym (get-auctions_of index s n')))
    ]

    restored :
        (s' n' : String)
        → get_bidding_objects (index_left s (names_left n uids names) (insert s names index)) s' n'
          ≡ get_bidding_objects index s' n'
    restored s' n' = elim (Bool-cases (str_eq s s')) [
      | inl t ↦
          let e : s ≡ s' = ground (arith, eq_iff s s', t) in
          get-index_left s s' n' (names_left n uids names) (insert s names index)
          ∙ rw t (own n' ∙ ap (λ (x : String). get_bidding_objects index x n') e)
      | inr f ↦
          get-index_left s s' n' (names_left n uids names) (insert s names index)
          ∙ rw f (get-insert s s' n' names index ∙ rw f refl)
    ]
