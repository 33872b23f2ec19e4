-- ===== src/IdSource/Tests.antt =====
-- Tests and instances for the id source.
use auction_manager.Prelude.{◌≡◌, refl, true, false, List, [], ◌∷◌, some, arith}
use auction_manager.IdSource.{
  IdSource, new_id_source, skip_reserved, is_reserved, new_id, Call, take, release, run_calls,
}
use auction_manager.IdSource.Sequence.{run_calls-upto, upto}

abbrev shared : IdSource
shared = record (new_id_source false) { id_reserved = 0 ∷ 1 ∷ 65535 ∷ [] }

-- The first number that is not reserved is 2.
first_shared_id : new_id 4 shared ≡ some (2, record shared { num = 2 })
unfolding new_id skip_reserved is_reserved
first_shared_id = refl

abbrev history : List Call
history = take ∷ take ∷ release 0 ∷ take ∷ []

run_calls-upto_example :
    (s : IdSource) × (run_calls 1 history (new_id_source true) ≡ some (upto 0 3, s))
run_calls-upto_example = run_calls-upto 0 history (omega arith)
