-- ===== src/BasUser/Tests.antt =====
-- Tests and instances for the bids of a user.
use Prim.Native.String.{String}
use text.Mathlib.Text.{◌==◌ as str_eq}
use auction_manager.Prelude.{
  ℕ, ◌/◌, ◌≡◌, refl, List, [], ◌∷◌, Option, none, some, Result, ok, err, ltb, ◌<◌, if◌then◌else◌,
}
use auction_manager.Auction.{Auction}
use auction_manager.BiddingObject.{Fields, field_val, get_element_val}
use auction_manager.BasUser.{
  Run, required_field_missing, find_field, is_field_included, is_given, check, get_amount,
  create_bid, create_bids, execute_user,
}

-- Whole numbers of a few digits.
abbrev parse : String → Option ℕ
parse s =
    if str_eq s "10"
    then some 10
    else (if str_eq s "4" then some 4 else (if str_eq s "3" then some 3 else none))

abbrev write : ℕ → String
write n = if ltb n 3 then "2" else (if ltb n 5 then "5" else "many")

abbrev run : Run ℕ
run = record {
  amounts = record {
    parse_double = parse;
    parse_float = parse;
    write = write;
    write_time = write;
    lt = ltb;
    per = λ x n. x / n;
  };
  defs =
      record { name = "quantity"; eno = 0; ftype = 1 }
      ∷ record { name = "budget"; eno = 0; ftype = 2 }
      ∷ record { name = "valuation"; eno = 0; ftype = 3 }
      ∷ record { name = "id"; eno = 0; ftype = 4 }
      ∷ record { name = "unitprice"; eno = 0; ftype = 5 }
      ∷ [];
  codes = record {
    quantity = 1;
    total_budget = 2;
    max_unit_valuation = 3;
    id_record = 4;
    unit_value = 5;
    start_seconds = 6;
    end_seconds = 7;
  };
  domain = "1";
  random_name = λ k. "bid";
  start = 0;
  stop = 1;
}

abbrev params : Fields
params = ("quantity", "3") ∷ ("budget", "4") ∷ ("valuation", "10") ∷ []

abbrev auction : String → Auction
auction n = record {
  set_name = "s";
  name = n;
  set_parent = "r";
  name_parent = "link";
  start = 10;
  stop = 20;
  interval = none;
  module_name = "bas";
  sessions = [];
}

-- Each of two auctions gets half of the budget, and as much of it for each unit: three units of it
-- may cost more than the budget.
shares_test :
    execute_user run params (auction "a" ∷ auction "b" ∷ [])
    ≡ ok (create_bid run 0 (auction "a") 3 2 5 ∷ create_bid run 1 (auction "b") 3 2 5 ∷ [])
unfolding execute_user check is_given is_field_included find_field get_amount field_val create_bids
shares_test = refl

price_test :
    get_element_val (create_bid run 0 (auction "a") 3 2 5).elements "Unique" "unitprice" ≡ some "2"
unfolding create_bid find_field get_element_val field_val auction_manager.Prelude.Dict.lookup
price_test = refl

missing_test :
    execute_user run (("quantity", "3") ∷ ("budget", "4") ∷ []) (auction "a" ∷ [])
    ≡ err required_field_missing
unfolding execute_user check is_given is_field_included find_field
missing_test = refl
