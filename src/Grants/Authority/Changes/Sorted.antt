-- ===== src/Grants/Authority/Changes/Sorted.antt =====
-- The sorted ids of grants/authority.py are the ids.
use threshold_node.Grants.Authority.Changes.{insert_id, sorted_ids}
use threshold_node.Base.{
  if◌then◌else◌, text_in, String, ◌≡◌, refl, true, List, [], ◌∷◌, arith, ◌==◌,
}

text_in-insert_id :
    (j k : String) (ids : List String)
    → text_in j (insert_id k ids) ≡ (if j == k then true else text_in j ids)
unfolding insert_id
text_in-insert_id j k [] = refl
text_in-insert_id j k (i ∷ rest) = ground (arith, text_in-insert_id j k rest)

pub text_in-sorted_ids :
    (j : String) (ids : List String) → text_in j (sorted_ids ids) ≡ text_in j ids
unfolding sorted_ids
text_in-sorted_ids j [] = refl
text_in-sorted_ids j (k ∷ rest) =
    ground (arith, text_in-insert_id j k (sorted_ids rest), text_in-sorted_ids j rest)
