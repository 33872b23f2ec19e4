-- ===== src/ParserFcts/Ranges.antt =====
-- What the bounds of a number do.
use Prim.Native.String.{String}
use text.Mathlib.Text.{◌==◌ as str_eq}
use auction_manager.Prelude.{◌≡◌, Bool, true, false, ◌||◌, not, if◌then◌else◌, ok, err, arith}
use auction_manager.ParserFcts.{not_a_number, parse_number}

-- Where the order is transitive and the bounds are in order, they refuse nothing: a text that is not
-- empty and is read to its end gives its value, inside the bounds or outside.
pub parse_number-unbounded :
    {A : Type 0} (convert : String → A × Bool) (lt : A → A → Bool) (min max : A) (s : String)
    → ((x y z : A) → lt x y ≡ true → lt y z ≡ true → lt x z ≡ true)
    → lt max min ≡ false
    → parse_number convert lt min max s
      ≡ (if str_eq s "" || not (convert s).1 then err not_a_number else ok (convert s).0)
unfolding parse_number
parse_number-unbounded convert lt min max s trans ordered =
    let n = (convert s).0 in ground (arith, ordered, trans max n min)
