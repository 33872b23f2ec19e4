-- ===== src/Bas/Tests.antt =====
-- Tests and instances for the basic auction procedure.
use Prim.Native.String.{String}
use text.Mathlib.TextEquality.{eq_iff}
use mathlib.Core.List.{reverse}
use auction_manager.Prelude.{ℕ, ◌≡◌, refl, arith, List, [], ◌∷◌, Option, none, some, ok, err, map}
use auction_manager.Prelude.Dict.{Dict, lookup, insert, string_key, nat_key}
use auction_manager.Bas.{
  Numbers, Bid, Entry, Market, insert_entry, order_elements, order_bids, clear_entry, clear_entries,
  clear, no_bids, get_double_field, read_last, get_resource_availability, get_reserve_price,
  datetime_not_defined_error, get_time,
}
use auction_manager.Bas.Ordering.{Sorts, entries_of, order_bids-Sorts}
use auction_manager.Bas.Outcome.{IsShare, IsPriced, clear-IsShare, clear-IsPriced}
use auction_manager.Bas.Allocation.{Run, Allocation, create_allocation, allocate}
use auction_manager.Bas.Allocation.Laws.{HaveAllocations, allocate-distinct}
use auction_manager.Bas.Execute.{
  requested_of_elements, calculate_requested_quantities, get_bid_price, separate_bids, execute,
}

-- Half a unit is the smallest.
abbrev numerals : Dict String ℕ
numerals =
    ("0", 0) ∷ ("1", 2) ∷ ("2", 4) ∷ ("3", 6) ∷ ("4", 8) ∷ ("5", 10) ∷ ("9", 18) ∷ ("0.5", 1) ∷ []

abbrev written : Dict ℕ String
written = map (λ p. (p.1, p.0)) numerals

abbrev or_else : Option String → String
or_else none = "?"
or_else (some s) = s

abbrev numbers : Numbers
numbers = record {
  unit = 2;
  parse = λ s. lookup s numerals;
  print = λ k. or_else (lookup k written);
  write = λ k. or_else (lookup k written);
}

abbrev run : Run
run = record {
  numbers = numbers;
  names = record {
    quantity = "quantity";
    unit_value = "unitprice";
    id_record = "recordid";
    start_seconds = "start";
    end_seconds = "stop";
  };
  random_name = λ k. "r";
  aset = "a";
  aname = "1";
  start = 0;
  stop = 2;
}

abbrev bid : String → String → String → Bid
bid name price quantity = record {
  set = "s";
  name = name;
  session = "x";
  elements = ("e", ("unitprice", price) ∷ ("quantity", quantity) ∷ []) ∷ [];
}

abbrev entry : String → ℕ → ℕ → Entry
entry name price quantity = record {
  price = price;
  quantity = quantity;
  bid_set = "s";
  bid_name = name;
  element_name = "e";
  session_id = "x";
}

abbrev bids : List Bid
bids = bid "b" "3" "2" ∷ bid "c" "0.5" "1" ∷ bid "d" "5" "2" ∷ []

abbrev ordered : List Entry
ordered = entry "c" 1 2 ∷ entry "b" 6 4 ∷ entry "d" 10 4 ∷ []

-- With a capacity of 3, `d` gets all, `b` gets what is left, and `c` nothing.
clear_test :
    clear 6 2 ordered
    ≡ ok (
      entry "d" 10 4 ∷ entry "b" 6 2 ∷ entry "c" 1 0 ∷ [],
      record { qty_available = 0; sell_price = 6 },
    )
unfolding clear clear_entries clear_entry
clear_test = refl

clear_empty_test : clear 6 2 [] ≡ err no_bids
unfolding clear clear_entries
clear_empty_test = refl

read_last_test :
    get_resource_availability numbers (("bandwidth", "1") ∷ ("bandwidth", "5") ∷ []) ≡ ok 10
unfolding get_resource_availability read_last lookup
read_last_test = refl

get_time_test :
    get_time (λ s. lookup s numerals) (("start", "0") ∷ []) "start" ≡ err datetime_not_defined_error
unfolding get_time read_last lookup
get_time_test = refl

execute_test :
    execute run (("bandwidth", "3") ∷ ("reserveprice", "1") ∷ []) bids
    ≡ ok (
      create_allocation run 1 (entry "b" 6 2) 6
          ∷ create_allocation run 2 (entry "c" 1 0) 6
          ∷ create_allocation run 0 (entry "d" 10 4) 6
          ∷ [],
      record {
        demand = 5;
        demand_low = 1;
        demand_high = 4;
        qty_sell = 6;
        reserve_price = 2;
        sell_price = 6;
      },
    )
unfolding execute calculate_requested_quantities requested_of_elements get_double_field lookup
    insert get_resource_availability get_reserve_price read_last separate_bids get_bid_price
    order_bids order_elements insert_entry clear clear_entries clear_entry allocate
execute_test = refl

order_bids-Sorts_example : Sorts (entries_of numbers bids) [] (order_bids numbers bids [])
order_bids-Sorts_example = order_bids-Sorts numbers bids

clear-IsShare_example :
    (es' : List Entry) × (m : Market) × (clear 6 2 ordered ≡ ok (es', m))
    × IsShare 6 2 (reverse ordered) es' m
clear-IsShare_example = clear-IsShare 6 2 ordered refl

clear-IsPriced_example :
    (es' : List Entry) × (m : Market) × (clear 6 2 ordered ≡ ok (es', m))
    × IsPriced 2 (reverse ordered) es' m
clear-IsPriced_example = clear-IsPriced 6 2 ordered refl (ground arith)

-- "s" and "xy" read the same as "sx" and "y".
abbrev joined : Entry
joined = record (entry "y" 6 2) { bid_set = "sx" }

allocate-distinct_example :
    (d : Dict String Allocation) × (allocate run 6 0 ordered [] ≡ ok d)
    × HaveAllocations run 6 0 ordered d
allocate-distinct_example = allocate-distinct run 6 ordered (
  (ground (arith, eq_iff "a1sc" "a1sb"), (ground (arith, eq_iff "a1sc" "a1sd"), tt)),
  ((ground (arith, eq_iff "a1sb" "a1sd"), tt), (tt, tt)),
)
