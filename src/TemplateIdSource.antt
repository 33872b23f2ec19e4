-- ===== src/TemplateIdSource.antt =====
-- The pool of template ids: foundation/src/TemplateIdSource.cpp. Ids up to 255 are never issued
-- first, and the pool throws when 0xFFFF is passed. `unique` is 0 in the only constructor.
pub mod Supply
mod Tests
use auction_manager.Prelude.{
  ℕ, zero, suc, ◌+◌, ◌%◌, List, [], ◌∷◌, ◌++◌, ◌==◌, if◌then◌else◌, Result, ok, err,
}
use auction_manager.IdSource.{dec16, inc16, is_reserved}

pub data Error : Type 0 where
  maximum_reached out_of_fuel : Error

pub record TemplateIdSource : Type 0 where
  pub num : ℕ
  pub free_ids : List ℕ
  pub id_reserved : List ℕ

abbrev pub new_template_source : TemplateIdSource
new_template_source = record { num = 255; free_ids = []; id_reserved = [] }

-- The loop `while (true)`, at the number that was just incremented.
unfoldable pub next_free : ℕ → List ℕ → ℕ → Result Error ℕ
next_free zero reserved n = err out_of_fuel
next_free (suc fuel) reserved n =
    let rest = next_free fuel reserved (inc16 n) in
    if is_reserved reserved n then (if n == 65535 then err maximum_reached else rest) else ok n

-- What the loop leaves in `num`: a throw leaves the number where it stopped.
unfoldable pub settle : TemplateIdSource → Result Error ℕ → Result Error ℕ × TemplateIdSource
settle s (ok n) = (ok n, record s { num = n })
settle s (err maximum_reached) = (err maximum_reached, record s { num = 65535 })
settle s (err out_of_fuel) = (err out_of_fuel, s)

-- The result, and the source after the call.
unfoldable pub new_id : ℕ → TemplateIdSource → Result Error ℕ × TemplateIdSource
unfolding settle
new_id fuel s = elim s.free_ids [
  | [] ↦
      if s.num == 65535
      then (err maximum_reached, s)
      else settle s (next_free fuel s.id_reserved (inc16 s.num))
  | id ∷ rest ↦ (ok id, record s { free_ids = rest })
]

unfoldable pub free_id : ℕ → TemplateIdSource → TemplateIdSource
free_id id s = record s { free_ids = s.free_ids ++ (id ∷ []); num = dec16 s.num }
