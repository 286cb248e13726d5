-- ===== src/Editor/Table.antt =====
-- Association lists under insertion and removal.
use sovereign_ai.Prelude.{◌≡◌, ◌≢◌, ◌∙◌, refl, List, [], ◌∷◌, none, some, arith, if◌then◌else◌}
use sovereign_ai.Text.{Bytes, bytes_eq}
use sovereign_ai.Text.Equality.{bytes_eq_iff, bytes_eq_refl, bytes_eq-false}
use sovereign_ai.Editor.{lookup_path, insert, remove}

module _ {V : Type 0} (j k : Bytes) where
  pub lookup-remove :
      (table : List (Bytes × V))
      → lookup_path j (remove k table) ≡ (if bytes_eq k j then none else lookup_path j table)
  unfolding lookup_path remove
  lookup-remove [] = ground arith
  lookup-remove ((l, v) ∷ rest) =
      let a = bytes_eq_iff k l in
      let b = bytes_eq_iff j l in let c = bytes_eq_iff k j in ground (arith, lookup-remove rest)

  pub lookup-insert :
      (v : V) (table : List (Bytes × V))
      → lookup_path j (insert k v table) ≡ (if bytes_eq k j then some v else lookup_path j table)
  unfolding lookup_path insert
  lookup-insert v table =
      let b = bytes_eq_iff j k in let c = bytes_eq_iff k j in ground (arith, lookup-remove table)

module _ {V : Type 0} (k : Bytes) where
  pub lookup-insert_self :
      (v : V) (table : List (Bytes × V)) → lookup_path k (insert k v table) ≡ some v
  lookup-insert_self v table = lookup-insert k k v table ∙ rw (bytes_eq_refl k) refl

  pub lookup-remove_self : (table : List (Bytes × V)) → lookup_path k (remove k table) ≡ none
  lookup-remove_self table = lookup-remove k k table ∙ rw (bytes_eq_refl k) refl

module _ {V : Type 0} (j k : Bytes) (differ : k ≢ j) where
  pub lookup-insert_ne :
      (v : V) (table : List (Bytes × V)) → lookup_path j (insert k v table) ≡ lookup_path j table
  lookup-insert_ne v table = lookup-insert j k v table ∙ rw (bytes_eq-false k j differ) refl

  pub lookup-remove_ne :
      (table : List (Bytes × V)) → lookup_path j (remove k table) ≡ lookup_path j table
  lookup-remove_ne table = lookup-remove j k table ∙ rw (bytes_eq-false k j differ) refl
