-- ===== src/AgentProcessor/Tests.antt =====
-- Tests and instances for the agent's processes.
use Prim.Native.String.{String}
use auction_manager.Prelude.{◌≡◌, refl, false, List, [], ◌∷◌, none, some, ok, err}
use auction_manager.Prelude.Dict.{lookup, insert, nat_key}
use auction_manager.IdSource.{free_id}
use auction_manager.Auction.{Auction}
use auction_manager.AgentProcessor.{
  UserProcedure, RequestProcess, AgentProcessor, new_processor, user_module, session_of,
  delete_auctions, drop_from_all, drop_auctions, drop_auction, sweep, add_auctions_request,
  add_auction_request, has_auction, auction_is_inserted, del_auction_request, execute_request,
  request_not_found,
}
use auction_manager.AgentProcessor.Reissue.{
  add, remove, Setting, run_calls, add_request_replaces_running,
}

abbrev auction : String → Auction
auction n = record {
  set_name = "s";
  name = n;
  set_parent = "r";
  name_parent = "link";
  start = 10;
  stop = 20;
  interval = none;
  module_name = "bas";
  sessions = [];
}

abbrev no_bids : UserProcedure
no_bids fields auctions start stop = ok []

abbrev setting : Setting
setting = record {
  load = λ m. ok no_bids;
  parameters = [];
  auction = auction "a";
  start = 10;
  stop = 20;
}

add_request_replaces_running_example :
    (p p' : AgentProcessor) × (run_calls setting
        (add "1" ∷ add "2" ∷ add "3" ∷ remove 0 ∷ [])
        new_processor
      ≡ ok (0 ∷ 1 ∷ 2 ∷ [], p))
    × (session_of 2 p ≡ ok "3")
    × (run_calls setting (add "4" ∷ add "5" ∷ []) p ≡ ok (0 ∷ 2 ∷ [], p'))
    × (session_of 2 p' ≡ ok "5")
add_request_replaces_running_example =
    add_request_replaces_running setting no_bids "1" "2" "3" "4" "5" refl

abbrev request : List Auction → RequestProcess
request auctions = record {
  session = "1";
  module_name = user_module (auction "a");
  start = 10;
  stop = 20;
  parameters = [];
  procedure = no_bids;
  auctions = auctions;
}

abbrev two : AgentProcessor
two = record {
  requests = (0, request (auction "a" ∷ auction "b" ∷ [])) ∷ (1, request (auction "a" ∷ [])) ∷ [];
  id_source = record { num = 1; unique = false; free_ids = []; id_reserved = [] };
}

-- The request that has no auction left is gone, and its id is free.
delete_auctions_test : delete_auctions (auction "a" ∷ []) two ≡ record {
  requests = (0, request (auction "b" ∷ [])) ∷ [];
  id_source = record { num = 0; unique = false; free_ids = 1 ∷ []; id_reserved = [] };
}
unfolding delete_auctions drop_from_all drop_auctions drop_auction sweep free_id
delete_auctions_test = refl

-- The second one is inserted already; the first one stays inserted.
add_auctions_test : add_auctions_request 1 (auction "b" ∷ auction "a" ∷ []) two ≡ (
  some auction_is_inserted,
  record two {
    requests =
        (0, request (auction "a" ∷ auction "b" ∷ []))
        ∷ (1, request (auction "a" ∷ auction "b" ∷ []))
        ∷ [];
  },
)
unfolding add_auctions_request add_auction_request has_auction lookup insert
add_auctions_test = refl

missing_test : execute_request 7 two ≡ err request_not_found
unfolding execute_request lookup
missing_test = refl

drops_test :
    del_auction_request 1 (auction "a") two
    ≡ ok (record two {
      requests = (0, request (auction "a" ∷ auction "b" ∷ [])) ∷ (1, request []) ∷ [];
    })
unfolding del_auction_request drop_auction lookup insert
drops_test = refl
