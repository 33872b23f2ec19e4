-- ===== src/AgentProcessor.antt =====
-- The processes that bid for a user: user_agent/src/AgentProcessor.cpp. A process is kept under an
-- id and holds the auctions in which it bids. Loading a module is an argument, and its procedure is
-- what it gives, from the request's fields, the auctions and the interval; the modules are ones with
-- a procedure. Pointers that are given are not NULL.
pub mod Reissue
mod Tests
use Prim.Native.String.{String, ◌++◌ as ◌<>◌}
use text.Mathlib.Text.{◌==◌ as str_eq}
use auction_manager.Prelude.{
  ℕ, Bool, true, false, List, [], ◌∷◌, ◌++◌, Option, none, some, ◌&&◌, if◌then◌else◌, Result, ok,
  err, ◌>>=◌, is_empty,
}
use auction_manager.Prelude.Dict.{Dict, lookup, insert, erase, nat_key}
use auction_manager.IdSource.{IdSource, new_id_source, new_id, free_id}
use auction_manager.Auction.{Auction}
use auction_manager.BiddingObject.{BiddingObject, Fields}

pub data Error : Type 0 where
  module_error no_free_id request_not_found auction_is_inserted other_module procedure_error : Error

abbrev pub UserProcedure : Type 0
UserProcedure = Fields → List Auction → ℕ → ℕ → Result Error (List BiddingObject)

pub record RequestProcess : Type 0 where
  pub session : String
  pub module_name : String
  pub start : ℕ
  pub stop : ℕ
  pub parameters : Fields
  pub procedure : UserProcedure
  pub auctions : List Auction

pub record AgentProcessor : Type 0 where
  pub requests : Dict ℕ RequestProcess
  pub id_source : IdSource

-- The ids are not unique: those that are freed are used again.
abbrev pub new_processor : AgentProcessor
new_processor = record { requests = []; id_source = new_id_source false }

abbrev pub user_module : Auction → String
user_module a = a.module_name <> "user"

-- With the index of the request. `fuel` is for the search of an id.
unfoldable pub add_request :
    ℕ
    → (String → Result Error UserProcedure)
    → String
    → Fields
    → Auction
    → ℕ
    → ℕ
    → AgentProcessor
    → Result Error (ℕ × AgentProcessor)
add_request fuel load session parameters a start stop p = elim (load (user_module a)) [
  | err e ↦ err e
  | ok run ↦ elim (new_id fuel p.id_source) [
    | none ↦ err no_free_id
    | some (index, ids) ↦
        let r : RequestProcess = record {
          session = session;
          module_name = user_module a;
          start = start;
          stop = stop;
          parameters = parameters;
          procedure = run;
          auctions = a ∷ [];
        } in
        ok (index, record { requests = insert index r p.requests; id_source = ids })
  ]
]

-- A request that is not there is left alone.
unfoldable pub del_request : ℕ → AgentProcessor → AgentProcessor
del_request index p = elim (lookup index p.requests) [
  | none ↦ p
  | some r ↦ record { requests = erase index p.requests; id_source = free_id index p.id_source }
]

-- The bids that the event for them is to carry.
unfoldable pub execute_request : ℕ → AgentProcessor → Result Error (List BiddingObject)
execute_request index p = elim (lookup index p.requests) [
  | none ↦ err request_not_found
  | some r ↦ r.procedure r.parameters r.auctions r.start r.stop
]

abbrev pub same_auction : Auction → Auction → Bool
same_auction a b = str_eq a.set_name b.set_name && str_eq a.name b.name

unfoldable pub has_auction : Auction → List Auction → Bool
has_auction a [] = false
has_auction a (b ∷ bs) = if same_auction b a then true else has_auction a bs

unfoldable pub add_auction_request : ℕ → Auction → AgentProcessor → Result Error AgentProcessor
add_auction_request index a p = elim (lookup index p.requests) [
  | none ↦ err request_not_found
  | some r ↦
      if has_auction a r.auctions
      then err auction_is_inserted
      else if str_eq r.module_name (user_module a)
      then ok (record p {
        requests = insert index (record r { auctions = r.auctions ++ (a ∷ []) }) p.requests;
      })
      else err other_module
]

-- An error leaves the loop, with the auctions added before.
unfoldable pub add_auctions_request :
    ℕ → List Auction → AgentProcessor → Option Error × AgentProcessor
add_auctions_request index [] p = (none, p)
add_auctions_request index (a ∷ rest) p = elim (add_auction_request index a p) [
  | err e ↦ (some e, p)
  | ok p' ↦ add_auctions_request index rest p'
]

-- The first auction with the set and the name is erased, if there is one.
unfoldable pub drop_auction : Auction → List Auction → List Auction
drop_auction a [] = []
drop_auction a (b ∷ bs) = if same_auction b a then bs else b ∷ drop_auction a bs

unfoldable pub del_auction_request : ℕ → Auction → AgentProcessor → Result Error AgentProcessor
del_auction_request index a p = elim (lookup index p.requests) [
  | none ↦ err request_not_found
  | some r ↦ ok (record p {
    requests = insert index (record r { auctions = drop_auction a r.auctions }) p.requests;
  })
]

unfoldable pub drop_auctions : List Auction → List Auction → List Auction
drop_auctions [] auctions = auctions
drop_auctions (a ∷ rest) auctions = drop_auctions rest (drop_auction a auctions)

-- The first loop of `delAuctions`, over the requests.
unfoldable pub drop_from_all : List Auction → Dict ℕ RequestProcess → Dict ℕ RequestProcess
drop_from_all targets [] = []
drop_from_all targets ((index, r) ∷ rest) =
    (index, record r { auctions = drop_auctions targets r.auctions }) ∷ drop_from_all targets rest

-- The second one: the requests that have no auction are deleted.
unfoldable pub sweep : Dict ℕ RequestProcess → IdSource → Dict ℕ RequestProcess × IdSource
sweep [] ids = ([], ids)
sweep ((index, r) ∷ rest) ids =
    if is_empty r.auctions
    then sweep rest (free_id index ids)
    else (let (swept, ids') = sweep rest ids in ((index, r) ∷ swept, ids'))

unfoldable pub delete_auctions : List Auction → AgentProcessor → AgentProcessor
delete_auctions targets p =
    let (requests, ids) = sweep (drop_from_all targets p.requests) p.id_source in
    record { requests = requests; id_source = ids }

unfoldable pub session_of : ℕ → AgentProcessor → Result Error String
session_of index p = elim (lookup index p.requests) [
  | none ↦ err request_not_found
  | some r ↦ ok r.session
]
