-- ===== src/Ownership/Mask.antt =====
-- GetIndexRangeMaskFromOwnership of src/mesh/forest/block_ownership.cpp, with TopologicalElement and its
-- offsets of src/basic_types.hpp. The 27 flags of block_ownership_t are a function of the three offsets.
use parthenon.Base.{◌&&◌, if◌then◌else◌, Bool, true, false}

-- The values -1, 0 and 1.
pub data Offset : Type 0 where
  low mid high : Offset

abbrev pub opposite : Offset → Offset
opposite low = high
opposite mid = mid
opposite high = low

abbrev pub eqb : Offset → Offset → Bool
eqb low low = true
eqb mid mid = true
eqb high high = true
eqb _ _ = false

pub data TopologicalElement : Type 0 where
  cc f1 f2 f3 e1 e2 e3 nn : TopologicalElement

unfoldable pub topological_offset_i : TopologicalElement → Bool
topological_offset_i f1 = true
topological_offset_i e2 = true
topological_offset_i e3 = true
topological_offset_i nn = true
topological_offset_i el = false

unfoldable pub topological_offset_j : TopologicalElement → Bool
topological_offset_j f2 = true
topological_offset_j e3 = true
topological_offset_j e1 = true
topological_offset_j nn = true
topological_offset_j el = false

unfoldable pub topological_offset_k : TopologicalElement → Bool
topological_offset_k f3 = true
topological_offset_k e2 = true
topological_offset_k e1 = true
topological_offset_k nn = true
topological_offset_k el = false

abbrev pub BlockOwnership : Type 0
BlockOwnership = Offset → Offset → Offset → Bool

-- The assignment to one of the flags.
abbrev pub update : Offset → Offset → Offset → Bool → BlockOwnership → BlockOwnership
update i j k v a i' j' k' = if eqb i i' && eqb j j' && eqb k k' then v else a i' j' k'

-- A loop over -1, 0 and 1.
abbrev pub each : (Offset → BlockOwnership → BlockOwnership) → BlockOwnership → BlockOwnership
each f a = f high (f mid (f low a))

-- The block index whose flag is copied to an element index.
abbrev pub copied : Bool → Offset → Offset
copied offset i = if offset then i else mid

-- From the ownership of the block to that of the element.
unfoldable pub element_ownership : TopologicalElement → BlockOwnership → BlockOwnership
element_ownership el sender =
    each
      (λ i. each (λ j. each (λ k. update i j k (
        sender (copied (topological_offset_i el) i) (copied (topological_offset_j el) j)
          (copied (topological_offset_k el) k)))))
      sender

unfoldable pub copy_x1 : Offset → BlockOwnership → BlockOwnership
copy_x1 mid a = a
copy_x1 ox a = each (λ j. each (λ k a'. update (opposite ox) j k (a' mid j k) a')) a

unfoldable pub copy_x2 : Offset → BlockOwnership → BlockOwnership
copy_x2 mid a = a
copy_x2 ox a = each (λ i. each (λ k a'. update i (opposite ox) k (a' i mid k) a')) a

unfoldable pub copy_x3 : Offset → BlockOwnership → BlockOwnership
copy_x3 mid a = a
copy_x3 ox a = each (λ i. each (λ j a'. update i j (opposite ox) (a' i j mid) a')) a

unfoldable pub get_index_range_mask :
    TopologicalElement → BlockOwnership → Offset → Offset → Offset → BlockOwnership
get_index_range_mask el sender ox1 ox2 ox3 =
    copy_x3 ox3 (copy_x2 ox2 (copy_x1 ox1 (element_ownership el sender)))
