-- ===== src/Tests/ListTheorems.antt =====
-- The theorems of list objects at concrete inputs.
use python_lite.Base.{List, ==_iff, ◌↔◌, ◌==◌, Bool, ℕ, ◌≡◌, refl, [], ◌∷◌, arith, true, none, some}
use python_lite.Base.Int.{ℤ, pos, negsuc, ◌+ℤ◌}
use python_lite.Types.Slots.{copy, move, write}
use python_lite.Types.ListObject.{
  ListObject, list_append, list_extend, list_pop, list_getitem, list_setitem, list_delitem,
  list_insert, list_copy, index_chk, overlapped, overran,
}
use python_lite.Types.ListObject.Represents.{
  Represents, list_append-Represents, list_extend-Represents,
}
use python_lite.Types.ListObject.Removal.{
  list_pop-Represents, list_getitem-Represents, list_setitem-Represents, Deletes,
  list_delitem-Deletes,
}
use python_lite.Types.ListObject.Flaws.{list_append-list_copy, list_insert_overruns}
use python_lite.Types.ListObject.Search.{
  list_index, list_remove, IsIndex, IsRemoved, list_index-IsIndex, list_remove-IsRemoved,
}
use python_lite.Types.ListObject.Equality.{list_eq, list_eq_iff}

-- Two items and room for one more; and two items that fill the array.
abbrev roomy : ListObject ℕ
roomy = record { ob_size = 2; ob_maxsize = 3; ob_val = some 5 ∷ some 7 ∷ none ∷ [] }

abbrev full : ListObject ℕ
full = record { ob_size = 2; ob_maxsize = 2; ob_val = some 8 ∷ some 9 ∷ [] }

roomy-Represents : Represents roomy (5 ∷ 7 ∷ [])
roomy-Represents = (none ∷ [], record { slots = refl; size = refl; capacity = refl })

full-Represents : Represents full (8 ∷ 9 ∷ [])
full-Represents = ([], record { slots = refl; size = refl; capacity = refl })

list_append-Represents_example :
    (r : ListObject ℕ × ℕ) × (list_append full 4 ≡ some r)
    × Represents (r.0) (8 ∷ 9 ∷ 4 ∷ [])
    × (r.1 ≡ 2)
list_append-Represents_example = list_append-Represents full (8 ∷ 9 ∷ []) 4 full-Represents

list_extend-Represents_example :
    (r : ListObject ℕ) × (list_extend roomy full ≡ some r) × Represents r (5 ∷ 7 ∷ 8 ∷ 9 ∷ [])
list_extend-Represents_example =
    list_extend-Represents roomy full (5 ∷ 7 ∷ []) (8 ∷ 9 ∷ []) roomy-Represents full-Represents

list_pop-Represents_example :
    (r : ListObject ℕ) × (list_pop roomy ≡ (r, some 7)) × Represents r (5 ∷ [])
list_pop-Represents_example = list_pop-Represents roomy (5 ∷ []) 7 roomy-Represents

list_getitem-Represents_example : list_getitem roomy (negsuc 1) ≡ some 5
list_getitem-Represents_example =
    list_getitem-Represents roomy [] (7 ∷ []) 5 (negsuc 1) roomy-Represents refl

list_setitem-Represents_example :
    (r : ListObject ℕ) × (list_setitem roomy (pos 1) 6 ≡ some (r, true)) × Represents r (5 ∷ 6 ∷ [])
list_setitem-Represents_example =
    list_setitem-Represents roomy (5 ∷ []) [] 7 6 (pos 1) roomy-Represents (refl, omega arith)

list_delitem-Deletes_example : Deletes roomy [] (7 ∷ []) (list_delitem roomy (negsuc 1))
list_delitem-Deletes_example =
    list_delitem-Deletes roomy [] (7 ∷ []) 5 (negsuc 1) roomy-Represents refl

-- The first of three items: two are copied, one slot down.
three_overlap :
    list_delitem {V = ℕ}
      (record { ob_size = 3; ob_maxsize = 3; ob_val = some 5 ∷ some 7 ∷ some 9 ∷ [] })
      (pos 0)
    ≡ overlapped
unfolding list_delitem index_chk copy move write ◌+ℤ◌
three_overlap = refl

list_append-list_copy_example : list_append (list_copy roomy) 4 ≡ none
list_append-list_copy_example =
    list_append-list_copy roomy (5 ∷ 7 ∷ []) 4 roomy-Represents (omega arith)

list_insert_overruns_example : list_insert full (pos 0) 4 ≡ overran
list_insert_overruns_example =
    list_insert_overruns full (8 ∷ 9 ∷ []) 4 (pos 0) 0 full-Represents (omega arith)
      (refl, omega arith)

list_index-IsIndex_example :
    (i : ℤ) × (list_index ◌==◌ roomy 7 ≡ some i) × IsIndex ◌==◌ 7 (5 ∷ 7 ∷ []) i
list_index-IsIndex_example = list_index-IsIndex ◌==◌ roomy (5 ∷ 7 ∷ []) 7 roomy-Represents

list_remove-IsRemoved_example : IsRemoved ◌==◌ 5 (5 ∷ 7 ∷ []) roomy (list_remove ◌==◌ roomy 5)
list_remove-IsRemoved_example = list_remove-IsRemoved ◌==◌ roomy (5 ∷ 7 ∷ []) 5 roomy-Represents

abbrev roomy_items : List ℕ
roomy_items = 5 ∷ 7 ∷ []

abbrev full_items : List ℕ
full_items = 8 ∷ 9 ∷ []

list_eq_iff_example :
    (b : Bool) × (list_eq ◌==◌ roomy full ≡ some b) × ((b ≡ true) ↔ (roomy_items ≡ full_items))
list_eq_iff_example =
    list_eq_iff ◌==◌ ==_iff roomy full roomy_items full_items roomy-Represents full-Represents
