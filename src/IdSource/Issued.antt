-- ===== src/IdSource/Issued.antt =====
-- A source that gives out the numbers of the slots of a vector, one after another.
use auction_manager.Prelude.{ℕ, suc, ◌+◌, ◌%◌, ◌<◌, ◌≡◌, refl, true, [], some, arith}
use auction_manager.IdSource.{IdSource, new_id, free_id, skip_reserved, is_reserved, inc16}

-- The source of ids is a unique one that has given out an id for each slot of the vector.
pub record HasIssued (n : ℕ) (ids : IdSource) : Type 0 where
  pub unique : ids.unique ≡ true
  pub none_free : ids.free_ids ≡ []
  pub none_reserved : ids.id_reserved ≡ []
  pub num : ids.num ≡ (n + 65535) % 65536

pub new_id-HasIssued :
    (f n : ℕ) (ids : IdSource)
    → n < 65536
    → HasIssued n ids
    → new_id (suc f) ids ≡ some (n, record ids { num = n })
unfolding new_id skip_reserved is_reserved
new_id-HasIssued f n ids small h =
    let e : inc16 ids.num ≡ n = omega (arith, h.num) in rw (h.none_free, h.none_reserved, e) refl

pub HasIssued-next :
    (n : ℕ) (ids : IdSource)
    → n < 65536
    → HasIssued n ids
    → HasIssued (n + 1) (record ids { num = n })
HasIssued-next n ids small h = record {
  unique = h.unique;
  none_free = h.none_free;
  none_reserved = h.none_reserved;
  num = omega arith;
}

pub free_id-unique : (uid : ℕ) (ids : IdSource) → ids.unique ≡ true → free_id uid ids ≡ ids
unfolding free_id
free_id-unique uid ids h = rw h refl
