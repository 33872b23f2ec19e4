-- ===== src/Resource/Leftover.antt =====
-- What stays in a resource when an exception leaves the check.
use Prim.Native.String.{String}
use auction_manager.Prelude.{
  ◌≡◌, refl, sym, ap, ◌∙◌, Bool, true, List, [], ◌∷◌, none, some, arith, Result, err,
}
use auction_manager.Prelude.Dict.{lookup, insert, string_key, lookup-insert_self}
use auction_manager.Auction.{Auction}
use auction_manager.Resource.{
  Error, Auctions, Resources, index_of, verify_auction, add_auction, get_resource, put_resource,
  insert_verified, verify_auctions, already_inserted,
}
use auction_manager.Resource.Accepted.{shares, get_resource-put}

insert_verified-present :
    (a : Auction) (rest : List Auction) (auctions : Auctions) (r : Resources)
    → get_resource r a.set_parent a.name_parent ≡ some auctions
    → lookup (index_of a) auctions ≡ none
    → verify_auction a auctions ≡ true
    → insert_verified (a ∷ rest) r
      ≡ insert_verified rest
          (put_resource r a.set_parent a.name_parent (insert (index_of a) a auctions))
unfolding insert_verified add_auction
insert_verified-present a rest auctions r found fresh v =
    rw (insert_verified, found, v, add_auction, fresh) refl

insert_verified-taken :
    (a b : Auction) (rest : List Auction) (auctions : Auctions) (r : Resources)
    → get_resource r a.set_parent a.name_parent ≡ some auctions
    → lookup (index_of a) auctions ≡ some b
    → verify_auction a auctions ≡ true
    → insert_verified (a ∷ rest) r ≡ (err already_inserted, r)
unfolding insert_verified add_auction
insert_verified-taken a b rest auctions r found taken v =
    rw (insert_verified, found, v, add_auction, taken) refl

verify_auctions-thrown :
    (auctions : List Auction) (r r' : Resources)
    → insert_verified auctions r ≡ (err already_inserted, r')
    → verify_auctions auctions r ≡ (err already_inserted, r')
unfolding verify_auctions
verify_auctions-thrown auctions r r' e =
    rw (verify_auctions, e)
      (ap (λ (x : Result Error Bool × Resources). (err already_inserted, x.1)) e)

-- Two auctions with one index that are for one resource and may both be added to it, the second
-- beside the first, make the check throw, and the first one stays in the resource: the loop that
-- takes the auctions out again is not reached.
pub verify_auctions_leaves_first :
    (a b : Auction) (auctions : Auctions) (r : Resources)
    → get_resource r a.set_parent a.name_parent ≡ some auctions
    → lookup (index_of a) auctions ≡ none
    → shares a b ≡ true
    → index_of a ≡ index_of b
    → verify_auction a auctions ≡ true
    → verify_auction b (insert (index_of a) a auctions) ≡ true
    → verify_auctions (a ∷ b ∷ []) r ≡ (
      err already_inserted,
      put_resource r a.set_parent a.name_parent (insert (index_of a) a auctions),
    )
verify_auctions_leaves_first a b auctions r found fresh one same va vb =
    let auctions' = insert (index_of a) a auctions in
    let r' = put_resource r a.set_parent a.name_parent auctions' in
    let now : get_resource r' b.set_parent b.name_parent ≡ some auctions' = ground (
      arith,
      one,
      get_resource-put r a.set_parent a.name_parent b.set_parent b.name_parent auctions auctions'
          found,
    ) in
    let there : lookup (index_of b) auctions' ≡ some a =
      ap (λ (k : String). lookup k auctions') (sym same)
      ∙ lookup-insert_self (index_of a) a auctions in
    verify_auctions-thrown (a ∷ b ∷ []) r r' (
      insert_verified-present a (b ∷ []) auctions r found fresh va
      ∙ insert_verified-taken b a [] auctions' r' now there vb)
