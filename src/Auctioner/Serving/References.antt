-- ===== src/Auctioner/Serving/References.antt =====
-- The references of the auctioner's sessions to auctions.
use Prim.Native.String.{String}
use auction_manager.Prelude.{
  ℕ, ◌≡◌, refl, true, false, List, [], some, arith, Result, ok, err, is_empty, get_elem?, subst,
  sym,
}
use auction_manager.Prelude.Dict.{lookup, nat_key}
use auction_manager.Auction.{Auction, has_session}
use auction_manager.Event.{contains}
use auction_manager.ObjectManager.{Object, get_named}
use auction_manager.AuctionManager.{AuctionManager, get_ids}
use auction_manager.AuctionManager.Referring.{
  HasDetails, IsReferring, increment_references-IsReferring, get_ids-IsHeld, get_ids-registered,
}
use auction_manager.AumProcessor.{Request, get_applicable_auctions}
use auction_manager.SessionManager.{add_session}
use auction_manager.SessionManager as Sessions
use auction_manager.Auctioner.Serving.{
  Server, new_session, with_session, store_session, handle_single_create_session,
}

-- Every auction of the list that the manager has under its name refers to the session, and no
-- reference of another session is lost.
pub record IsServed (id : String) (given : List Auction) (m m' : AuctionManager) : Type 0 where
  pub refers :
      (k : ℕ) (a : Auction) (o : Object)
      → get_elem? given k ≡ some a
      → get_named m.registry a.set_name a.name ≡ some o
      → (b : Auction) × (lookup o.uid m'.details ≡ some b) × (has_session id b.sessions ≡ true)
  pub keeps :
      (uid : ℕ) (a : Auction)
      → lookup uid m.details ≡ some a
      → (b : Auction) × (lookup uid m'.details ≡ some b)
        × ((j : String) → has_session j a.sessions ≡ true → has_session j b.sessions ≡ true)

IsReferring→IsServed :
    (id : String) (given : List Auction) (m m' : AuctionManager)
    → IsReferring id (get_ids m given []) m m'
    → IsServed id given m m'
IsReferring→IsServed id given m m' r = record {
  refers = λ k a o at there. r.inside o.uid (get_ids-registered m given [] k a o at there);
  keeps = r.keeps;
}

module _ {Message : Type 0} where
  with_session-manager :
      (s : Server Message) (m : AuctionManager) (r : Result Sessions.Error Sessions.Manager)
      → (with_session s m r).auction_manager ≡ m
  unfolding with_session
  with_session-manager s m (err e) = refl
  with_session-manager s m (ok sessions) = refl

  -- Where what the registry has is held with its details, the message has all that is asked of a
  -- session, and there are auctions for its requests: each of these auctions that is registered gets
  -- a reference of the session, whether the session can be stored or not, and none loses one.
  pub handle_single_create_session-IsServed :
      (fuel : ℕ) (id : String) (requests : List Request) (s : Server Message)
      → HasDetails s.auction_manager
      → is_empty (get_applicable_auctions requests s.processes) ≡ false
      → (s' : Server Message) × (handle_single_create_session fuel id true requests s ≡ some s')
        × IsServed id
            (get_applicable_auctions requests s.processes)
            s.auction_manager
            s'.auction_manager
  unfolding handle_single_create_session store_session contains
  handle_single_create_session-IsServed fuel id requests s d some_there =
      let given = get_applicable_auctions requests s.processes in
      let (m, e, r) =
        increment_references-IsReferring (get_ids s.auction_manager given []) id s.auction_manager
          (get_ids-IsHeld s.auction_manager given [] d (λ uid within. ground (arith, within))) in
      let stored = add_session fuel s.sessions (new_session id) in
      (
        with_session s m stored,
        rw (handle_single_create_session, some_there, e, store_session) refl,
        subst (λ m'. IsServed id given s.auction_manager m') (sym (with_session-manager s m stored))
            (IsReferring→IsServed id given s.auction_manager m r),
      )
