-- ===== src/AuctionManager/Removal.antt =====
-- What deleting an auction by its names leaves of the registry and of the queue.
use Prim.Native.String.{String}
use auction_manager.Prelude.{ℕ, suc, ◌≡◌, ◌≢◌, refl, Option, none, some, if◌then◌else◌, arith}
use auction_manager.EventScheduler.{EventList, del_auction_events}
use auction_manager.EventScheduler.Removal.{
  auction_uids, auction_count, bidding_count, NamesOnce, del_auction_events_counts,
}
use auction_manager.ObjectManager.{Object, get_named}
use auction_manager.ObjectManager.Index.{same}
use auction_manager.ObjectManager.Laws.{IsWellFormed}
use auction_manager.ObjectManager.Removing.{delete_object-named}
use auction_manager.AuctionManager.{AuctionManager, delete_auction, delete_auction_named}

-- Every auction but the one of the uid is named as often as before, which is named no more, and so
-- is every bidding object.
abbrev pub Forgets : ℕ → EventList → EventList → Type 0
Forgets uid q q' =
    (auction_count uid q' ≡ 0)
    × ((v : ℕ) → v ≢ uid → auction_count v q' ≡ auction_count v q)
    × ((w : ℕ) → bidding_count w q' ≡ bidding_count w q)

-- What the deletion comes to, `r` being what the registry holds under the names.
abbrev pub IsDeleted :
    String
    → String
    → Option Object
    → AuctionManager × EventList
    → AuctionManager × EventList
    → Type 0
IsDeleted s n none before after = after ≡ before
IsDeleted s n (some o) (manager, q) (manager', q') =
    IsWellFormed manager'.registry
    × ((s' n' : String)
        → get_named manager'.registry s' n'
          ≡ (if same s n s' n' then none else get_named manager.registry s' n'))
    × Forgets o.uid q q'

-- Nothing to be done where there is nothing of the names.
abbrev pub NamedOnce : Option Object → EventList → Type 0
NamedOnce none q = Unit {0}
NamedOnce (some o) q = NamesOnce auction_uids o.uid q

other : (uid : ℕ) → (v : ℕ) × (v ≢ uid)
other uid = (suc uid, λ e. omega (arith, e))

del_auction_events-Forgets :
    (uid : ℕ) (q : EventList)
    → NamesOnce auction_uids uid q
    → Forgets uid q (del_auction_events uid q)
del_auction_events-Forgets uid q once =
    let (u, ne) = other uid in
    (
      (del_auction_events_counts uid u 0 q ne once).0,
      λ v h. (del_auction_events_counts uid v 0 q h once).1,
      λ w. (del_auction_events_counts uid u w q ne once).2,
    )

-- Deleting an auction by its names on a well-formed registry changes nothing when it holds none.
-- Otherwise, if no event names the auction twice, it leaves a well-formed registry in which just
-- these names are gone, and a queue no event of which names the auction, while every other auction
-- and every bidding object is named as often as before.
pub delete_auction_named-IsDeleted :
    (s n : String) (manager : AuctionManager) (q : EventList)
    → IsWellFormed manager.registry
    → NamedOnce (get_named manager.registry s n) q
    → IsDeleted s n
        (get_named manager.registry s n)
        (manager, q)
        (delete_auction_named (manager, q) s n)
unfolding delete_auction_named delete_auction
delete_auction_named-IsDeleted s n manager q w once = go (get_named manager.registry s n) refl once
  where
    go :
        (r : Option Object)
        → get_named manager.registry s n ≡ r
        → NamedOnce r q
        → IsDeleted s n r (manager, q) (delete_auction_named (manager, q) s n)
    go none e once = rw (delete_auction_named, e) refl
    go (some a) e once =
        let (w', len, names) = delete_object-named manager.registry a s n w e in
        rw (delete_auction_named, e) (w', names, del_auction_events-Forgets a.uid q once)
