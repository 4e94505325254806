-- ===== src/Ownership/Reading.antt =====
-- What the mask of GetIndexRangeMaskFromOwnership, src/mesh/forest/block_ownership.cpp, reads of the
-- sender's flags.
use parthenon.Base.{if◌then◌else◌, ◌≡◌, refl, ◌∙◌}
use parthenon.Ownership.Mask.{
  Offset, low, mid, high, opposite, eqb, TopologicalElement, topological_offset_i,
  topological_offset_j, topological_offset_k, BlockOwnership, update, each, copied,
  element_ownership, copy_x1, copy_x2, copy_x3, get_index_range_mask,
}

-- Where the flag of an index is read, before the element is considered: the side that faces the inside of
-- the sending block counts as the inside.
unfoldable pub inner : Offset → Offset → Offset
inner mid i = i
inner ox i = if eqb i (opposite ox) then mid else i

-- The flags that three nested loops assign.
pub each-update :
    (v s : BlockOwnership) (i j k : Offset)
    → each (λ i'. each (λ j'. each (λ k'. update i' j' k' (v i' j' k')))) s i j k ≡ v i j k
each-update v s low low low = refl
each-update v s low low _ = refl
each-update v s low mid low = refl
each-update v s low mid _ = refl
each-update v s low high low = refl
each-update v s low high _ = refl
each-update v s mid low low = refl
each-update v s mid low _ = refl
each-update v s mid mid low = refl
each-update v s mid mid _ = refl
each-update v s mid high low = refl
each-update v s mid high _ = refl
each-update v s high low low = refl
each-update v s high low _ = refl
each-update v s high mid low = refl
each-update v s high mid _ = refl
each-update v s high high low = refl
each-update v s high high _ = refl

element_ownership-at :
    (el : TopologicalElement) (sender : BlockOwnership) (i j k : Offset)
    → element_ownership el sender i j k
      ≡ sender
          (copied (topological_offset_i el) i)
          (copied (topological_offset_j el) j)
          (copied (topological_offset_k el) k)
unfolding element_ownership
element_ownership-at el s i j k =
    each-update
      (λ i' j' k'.
        s (copied (topological_offset_i el) i') (copied (topological_offset_j el) j')
          (copied (topological_offset_k el) k'))
      s i j k

copy_x1-at :
    (ox : Offset) (a : BlockOwnership) (i j k : Offset) → copy_x1 ox a i j k ≡ a (inner ox i) j k
unfolding copy_x1 inner
copy_x1-at mid a i j k = refl
copy_x1-at low a low low low = refl
copy_x1-at low a low low _ = refl
copy_x1-at low a low mid low = refl
copy_x1-at low a low mid _ = refl
copy_x1-at low a low high low = refl
copy_x1-at low a low high _ = refl
copy_x1-at low a mid low low = refl
copy_x1-at low a mid low _ = refl
copy_x1-at low a mid mid low = refl
copy_x1-at low a mid mid _ = refl
copy_x1-at low a mid high low = refl
copy_x1-at low a mid high _ = refl
copy_x1-at low a high low low = refl
copy_x1-at low a high low _ = refl
copy_x1-at low a high mid low = refl
copy_x1-at low a high mid _ = refl
copy_x1-at low a high high low = refl
copy_x1-at low a high high _ = refl
copy_x1-at high a low low low = refl
copy_x1-at high a low low _ = refl
copy_x1-at high a low mid low = refl
copy_x1-at high a low mid _ = refl
copy_x1-at high a low high low = refl
copy_x1-at high a low high _ = refl
copy_x1-at high a mid low low = refl
copy_x1-at high a mid low _ = refl
copy_x1-at high a mid mid low = refl
copy_x1-at high a mid mid _ = refl
copy_x1-at high a mid high low = refl
copy_x1-at high a mid high _ = refl
copy_x1-at high a high low low = refl
copy_x1-at high a high low _ = refl
copy_x1-at high a high mid low = refl
copy_x1-at high a high mid _ = refl
copy_x1-at high a high high low = refl
copy_x1-at high a high high _ = refl

copy_x2-at :
    (ox : Offset) (a : BlockOwnership) (i j k : Offset) → copy_x2 ox a i j k ≡ a i (inner ox j) k
unfolding copy_x2 inner
copy_x2-at mid a i j k = refl
copy_x2-at low a low low low = refl
copy_x2-at low a low low _ = refl
copy_x2-at low a low mid low = refl
copy_x2-at low a low mid _ = refl
copy_x2-at low a low high low = refl
copy_x2-at low a low high _ = refl
copy_x2-at low a mid low low = refl
copy_x2-at low a mid low _ = refl
copy_x2-at low a mid mid low = refl
copy_x2-at low a mid mid _ = refl
copy_x2-at low a mid high low = refl
copy_x2-at low a mid high _ = refl
copy_x2-at low a high low low = refl
copy_x2-at low a high low _ = refl
copy_x2-at low a high mid low = refl
copy_x2-at low a high mid _ = refl
copy_x2-at low a high high low = refl
copy_x2-at low a high high _ = refl
copy_x2-at high a low low low = refl
copy_x2-at high a low low _ = refl
copy_x2-at high a low mid low = refl
copy_x2-at high a low mid _ = refl
copy_x2-at high a low high low = refl
copy_x2-at high a low high _ = refl
copy_x2-at high a mid low low = refl
copy_x2-at high a mid low _ = refl
copy_x2-at high a mid mid low = refl
copy_x2-at high a mid mid _ = refl
copy_x2-at high a mid high low = refl
copy_x2-at high a mid high _ = refl
copy_x2-at high a high low low = refl
copy_x2-at high a high low _ = refl
copy_x2-at high a high mid low = refl
copy_x2-at high a high mid _ = refl
copy_x2-at high a high high low = refl
copy_x2-at high a high high _ = refl

copy_x3-at :
    (ox : Offset) (a : BlockOwnership) (i j k : Offset) → copy_x3 ox a i j k ≡ a i j (inner ox k)
unfolding copy_x3 inner
copy_x3-at mid a i j k = refl
copy_x3-at low a low low low = refl
copy_x3-at low a low low _ = refl
copy_x3-at low a low mid low = refl
copy_x3-at low a low mid _ = refl
copy_x3-at low a low high low = refl
copy_x3-at low a low high _ = refl
copy_x3-at low a mid low low = refl
copy_x3-at low a mid low _ = refl
copy_x3-at low a mid mid low = refl
copy_x3-at low a mid mid _ = refl
copy_x3-at low a mid high low = refl
copy_x3-at low a mid high _ = refl
copy_x3-at low a high low low = refl
copy_x3-at low a high low _ = refl
copy_x3-at low a high mid low = refl
copy_x3-at low a high mid _ = refl
copy_x3-at low a high high low = refl
copy_x3-at low a high high _ = refl
copy_x3-at high a low low low = refl
copy_x3-at high a low low _ = refl
copy_x3-at high a low mid low = refl
copy_x3-at high a low mid _ = refl
copy_x3-at high a low high low = refl
copy_x3-at high a low high _ = refl
copy_x3-at high a mid low low = refl
copy_x3-at high a mid low _ = refl
copy_x3-at high a mid mid low = refl
copy_x3-at high a mid mid _ = refl
copy_x3-at high a mid high low = refl
copy_x3-at high a mid high _ = refl
copy_x3-at high a high low low = refl
copy_x3-at high a high low _ = refl
copy_x3-at high a high mid low = refl
copy_x3-at high a high mid _ = refl
copy_x3-at high a high high low = refl
copy_x3-at high a high high _ = refl

-- Every flag of the mask is one flag of the sender, at an index that is found direction by
-- direction: 0 where the element does not lie on the faces of that direction or where the index is
-- the inward side of the buffer, and the index itself otherwise.
pub get_index_range_mask-at :
    (el : TopologicalElement) (sender : BlockOwnership) (ox1 ox2 ox3 i j k : Offset)
    → get_index_range_mask el sender ox1 ox2 ox3 i j k
      ≡ sender
          (copied (topological_offset_i el) (inner ox1 i))
          (copied (topological_offset_j el) (inner ox2 j))
          (copied (topological_offset_k el) (inner ox3 k))
unfolding get_index_range_mask
get_index_range_mask-at el s ox1 ox2 ox3 i j k =
    copy_x3-at ox3 (copy_x2 ox2 (copy_x1 ox1 (element_ownership el s))) i j k
    ∙ copy_x2-at ox2 (copy_x1 ox1 (element_ownership el s)) i j (inner ox3 k)
    ∙ copy_x1-at ox1 (element_ownership el s) i (inner ox2 j) (inner ox3 k)
    ∙ element_ownership-at el s (inner ox1 i) (inner ox2 j) (inner ox3 k)
