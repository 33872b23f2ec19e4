-- ===== src/TemplateIdSource/Tests.antt =====
-- Tests and instances for the template ids.
use auction_manager.Prelude.{◌≡◌, refl, [], ◌∷◌, ok, err}
use auction_manager.IdSource.{is_reserved}
use auction_manager.TemplateIdSource.{
  TemplateIdSource, new_template_source, maximum_reached, next_free, new_id, free_id,
}

abbrev partly_reserved : TemplateIdSource
partly_reserved = record new_template_source { id_reserved = 257 ∷ 256 ∷ [] }

-- The first id is 256, and 258 where 256 and 257 are reserved; the pool ends at 0xFFFF.
first_ids :
    ((new_id 65536 new_template_source).0 ≡ ok 256)
    × ((new_id 65536 partly_reserved).0 ≡ ok 258)
    × ((new_id 65536 (record new_template_source { num = 65535 })).0 ≡ err maximum_reached)
unfolding new_id next_free is_reserved
first_ids = (refl, refl, refl)

-- A released id is the next one.
freed_first : (new_id 1 (free_id 300 partly_reserved)).0 ≡ ok 300
unfolding new_id free_id
freed_first = refl
