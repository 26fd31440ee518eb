-- ===== src/Tests/Naming.antt =====
-- The names of the columns of a small source.
use dbextractors.Base.{◌≡◌, refl, false, none, some, List, [], ◌∷◌, Text, text_Eq, codes}
use dbextractors.Naming.Unicode.{ascii}
use dbextractors.Naming.Mapping.{
  normalise, create_column_mapping, mage_clean_name, strip_right, strip_left, collapse,
  spaces_to_underscore,
}
use dbextractors.Naming.Mapping.Shape.{IsNormal, normalise-IsNormal}
use dbextractors.Naming.Reserved.{is_reserved, reserved_codes, clean_column_name}
use dbextractors.Naming.Columns.{
  named, column_name_collision, add, add_sources, add_generated, hash_names, target_column_names,
  reconcile_with_existing,
}
use dbextractors.Naming.Columns.Answer.{Answers, generated, target_column_names-Answers}
use dbextractors.Naming.Columns.Reconcile.{Reconciled, reconcile_with_existing_lem}

abbrev order_no : Text
order_no = codes "  Order  No. "

abbrev metadata : List Text
metadata = codes "_timestamp" ∷ codes "_deleted_in_source" ∷ []

normalise_test : normalise ascii order_no ≡ codes "order_no"
unfolding normalise strip_right strip_left collapse spaces_to_underscore
normalise_test = refl

mage_clean_name_test : mage_clean_name ascii false (codes "2nd $Name") ≡ codes "letter_2nd_name"
unfolding mage_clean_name
mage_clean_name_test = refl

clean_column_name_test : clean_column_name ascii false (codes "user") ≡ codes "_user"
unfolding clean_column_name is_reserved reserved_codes mage_clean_name
clean_column_name_test = refl

names_test :
    target_column_names ascii
      (codes "Id" ∷ codes "User" ∷ order_no ∷ [])
      (some (codes "row_hash"))
      metadata
    ≡ named (codes "id" ∷ codes "_user" ∷ codes "order_no" ∷ codes "row_hash" ∷ metadata)
unfolding target_column_names add_sources create_column_mapping add clean_column_name is_reserved
    reserved_codes mage_clean_name strip_right strip_left collapse spaces_to_underscore hash_names
    add_generated
names_test = refl

collision_test :
    target_column_names ascii (codes "Order No" ∷ order_no ∷ []) none metadata
    ≡ column_name_collision (codes "Order No") order_no (codes "order_no")
unfolding target_column_names add_sources create_column_mapping add clean_column_name is_reserved
    reserved_codes mage_clean_name strip_right strip_left collapse spaces_to_underscore
collision_test = refl

normalise-IsNormal_example : IsNormal ascii (normalise ascii order_no)
normalise-IsNormal_example = normalise-IsNormal ascii order_no

target_column_names-Answers_example :
    Answers ascii
      (codes "Order No" ∷ order_no ∷ [])
      (generated ascii (some (codes "row_hash")) metadata)
      (target_column_names ascii
        (codes "Order No" ∷ order_no ∷ [])
        (some (codes "row_hash"))
        metadata)
target_column_names-Answers_example =
    target_column_names-Answers ascii (codes "Order No" ∷ order_no ∷ []) (some (codes "row_hash"))
      metadata

abbrev desired : List Text
desired = codes "id" ∷ codes "name" ∷ codes "note" ∷ []

abbrev existing : List Text
existing = codes "name" ∷ codes "old" ∷ codes "id" ∷ []

reconcile_test :
    reconcile_with_existing desired existing ≡ codes "name" ∷ codes "id" ∷ codes "note" ∷ []
unfolding reconcile_with_existing
reconcile_test = refl

reconcile_with_existing_lem_example :
    Reconciled desired existing (reconcile_with_existing desired existing)
    × (reconcile_with_existing desired (reconcile_with_existing desired existing)
        ≡ reconcile_with_existing desired existing)
reconcile_with_existing_lem_example = reconcile_with_existing_lem desired existing
