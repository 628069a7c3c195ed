-- ===== src/Insert/Tests.antt =====
-- The theorems at two inserts in their slots.
use ren_general.Base.{put, ℕ, ◌≡◌, ◌≢◌, refl, true, false, none, some}
use ren_general.Insert.{
  Store, empty, new_insert, destroy_insert, new_slot, insert, link, get_base, is_valid,
  get_attachment,
}
use ren_general.Insert.Attached.{
  Reaches, starts, creates_insert, creates_slot, inserts, destroy_insert_lem,
}

-- The inserts 1 and 2 stand for 10 and 20 and are in the slots 5 and 6.
abbrev in_use : Store
in_use = record {
  base = put (put empty.base 1 10) 2 20;
  active = put (put (put (put empty.active 1 none) 2 none) 1 (some 5)) 2 (some 6);
  attachment = put (put empty.attachment 5 10) 6 20;
  filled = put (put (put (put empty.filled 5 false) 6 false) 5 true) 6 true;
}

abbrev constructed : Store
constructed = record {
  base = put (put empty.base 1 10) 2 20;
  active = put (put empty.active 1 none) 2 none;
  attachment = empty.attachment;
  filled = put (put empty.filled 5 false) 6 false;
}

abbrev half : Store
half = record {
  base = constructed.base;
  active = put constructed.active 1 (some 5);
  attachment = put constructed.attachment 5 10;
  filled = put constructed.filled 5 true;
}

constructed-Reaches : Reaches constructed
unfolding new_insert new_slot
constructed-Reaches =
    creates_slot _ 6 refl
      (creates_slot _ 5 refl (creates_insert _ 2 20 refl (creates_insert empty 1 10 refl starts)))

in_use-Reaches : Reaches in_use
unfolding insert link get_base
in_use-Reaches =
    inserts half in_use 6 2 refl refl (inserts constructed half 5 1 refl refl constructed-Reaches)

destroy_insert_lem_example :
    (is_valid (destroy_insert in_use 1) 5 ≡ false)
    × ((j u : ℕ)
        → 1 ≢ j
        → in_use.active j ≡ some u
        → (is_valid (destroy_insert in_use 1) u ≡ true)
          × (get_attachment (destroy_insert in_use 1) u ≡ in_use.base j))
destroy_insert_lem_example = destroy_insert_lem in_use 1 5 in_use-Reaches refl
