-- ===== src/Resource/Tests.antt =====
-- Tests and instances for resources and their check.
use Prim.Native.String.{String}
use text.Mathlib.Text.{◌==◌ as str_eq}
use auction_manager.Prelude.{
  ◌≡◌, refl, true, false, none, [], ◌∷◌, arith, ok, err, ◌↔◌, subst, ◌&&◌, Bool-cases, inl, inr,
}
use auction_manager.Prelude.Dict.{lookup, insert, erase, string_key}
use auction_manager.Auction.{Auction}
use auction_manager.Resource.{
  Auctions, Resources, clashes, verify_auction, add_auction, delete_auction, get_resource,
  put_resource, insert_verified, delete_inserted, verify_auctions, already_inserted,
}
use auction_manager.Resource.Intervals.{AllHeld, IsInterval, Disjoint, verify_auction-Disjoint}
use auction_manager.Resource.Accepted.{IsAccepted, HoldIntervals}
use auction_manager.Resource.Verified.{Answers, verify_auctions-Answers}
use auction_manager.Resource.Leftover.{verify_auctions_leaves_first}

abbrev auction : String → String → String → Auction
auction s n resource = record {
  set_name = s;
  name = n;
  set_parent = "r";
  name_parent = resource;
  start = 10;
  stop = 20;
  interval = none;
  module_name = "bas";
  sessions = [];
}

abbrev first : Auction
first = auction "s" "1" "link"

abbrev later : Auction
later = record (auction "s" "2" "link") { start = 21; stop = 30 }

-- It has the index of `first`.
abbrev again : Auction
again = record later { name = "1" }

abbrev resources : Resources
resources = ("r", ("link", []) ∷ ("other", ("t.1", auction "t" "1" "other") ∷ []) ∷ []) ∷ []

verify_auctions_test : verify_auctions (first ∷ later ∷ []) resources ≡ (ok true, resources)
unfolding verify_auctions insert_verified delete_inserted get_resource put_resource verify_auction
    clashes add_auction delete_auction lookup insert erase
verify_auctions_test = refl

verify_auctions_clash_test :
    verify_auctions (first ∷ auction "s" "3" "other" ∷ []) resources ≡ (ok false, resources)
unfolding verify_auctions insert_verified delete_inserted get_resource put_resource verify_auction
    clashes add_auction delete_auction lookup insert erase
verify_auctions_clash_test = refl

verify_auction-Disjoint_example :
    (verify_auction later (("s.1", first) ∷ []) ≡ true)
    ↔ AllHeld (Disjoint later) (("s.1", first) ∷ [])
verify_auction-Disjoint_example =
    verify_auction-Disjoint later (("s.1", first) ∷ []) (omega arith) (omega arith, tt)

link_HoldIntervals : HoldIntervals (("r", ("link", []) ∷ []) ∷ [])
unfolding get_resource lookup
link_HoldIntervals s n auctions e = elim (Bool-cases (str_eq "r" s && str_eq "link" n)) [
  | inl t ↦
      let empty : [] ≡ auctions = ground (arith, e, t) in
      subst (λ (x : Auctions). AllHeld IsInterval x) empty tt
  | inr f ↦ let bad : ⊥ = ground (arith, e, f) in elim bad [ ]
]

verify_auctions-Answers_example :
    Answers
      (verify_auctions (first ∷ later ∷ []) (("r", ("link", []) ∷ []) ∷ [])).0
      (IsAccepted (("r", ("link", []) ∷ []) ∷ []) (first ∷ later ∷ []))
verify_auctions-Answers_example =
    verify_auctions-Answers (first ∷ later ∷ []) (("r", ("link", []) ∷ []) ∷ [])
      (omega arith, (omega arith, tt)) link_HoldIntervals

verify_auctions_leaves_first_example :
    verify_auctions (first ∷ again ∷ []) resources
    ≡ (err already_inserted, put_resource resources "r" "link" (insert "s.1" first []))
unfolding get_resource lookup insert verify_auction clashes
verify_auctions_leaves_first_example =
    verify_auctions_leaves_first first again [] resources refl refl refl refl refl refl
