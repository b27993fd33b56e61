-- ===== src/Runtime/Convert/Tombstone.antt =====
-- Every tombstone of SQL is a fully deleted row to Go, whoever wrote its metadata.
use postgres_controller_back.Base.{
  ◌≡◌, refl, Bool, true, false, Option, none, some, List, [], arith, ap, ◌∙◌,
}
use postgres_controller_back.Base.Int.{ℤ}
use postgres_controller_back.Base.Text.{Text, codes}
use postgres_controller_back.Json.{
  Json, null, bool, num, str, arr, obj, field, find_member, json_eq_iff, empty_array,
}
use postgres_controller_back.Model.{Resource}
use postgres_controller_back.Runtime.Convert.{
  decode_metadata, decode_map, decode_list, decode_int, decode_items, decode_owners, or_null, bind,
  any_finalizer, has_finalizers, is_fully_deleted,
}
use postgres_controller_back.Writer.Proc.{is_tombstone, no_finalizers}

no_finalizers-decode :
    (o : Option Json) → no_finalizers o ≡ true → decode_list (or_null o) ≡ some []
unfolding no_finalizers decode_list
no_finalizers-decode none h = refl
no_finalizers-decode (some f) h =
    ap decode_list ((json_eq_iff f empty_array).0 h) ∙ unfold decode_list decode_items in refl

module _ (owners_ok : Json → Bool) where
  -- Whatever the other members are, no finalizer is decoded.
  none_decoded :
      (l a : Option (List (Text × Text))) (o : Option Json) (f : Option (List Text)) (g : Option ℤ)
      → f ≡ some []
      → any_finalizer owners_ok (
          bind l λ l. bind a λ a. bind o λ o. bind f λ f. bind g λ g. some (record {
            labels = l;
            annotations = a;
            owner_references = o;
            finalizers = f;
            generation = g;
          }))
        ≡ false
  none_decoded none a o f g e = refl
  none_decoded (some l) none o f g e = refl
  none_decoded (some l) (some a) none f g e = refl
  none_decoded (some l) (some a) (some o) f none e = rw e
  none_decoded (some l) (some a) (some o) f (some g) e = rw e

  no_finalizers-has_finalizers :
      (j : Json)
      → no_finalizers (field (codes "finalizers") j) ≡ true
      → any_finalizer owners_ok (decode_metadata owners_ok j) ≡ false
  unfolding decode_metadata field
  no_finalizers-has_finalizers null h = refl
  no_finalizers-has_finalizers (bool b) h = refl
  no_finalizers-has_finalizers (num t) h = refl
  no_finalizers-has_finalizers (str t) h = refl
  no_finalizers-has_finalizers (arr xs) h = refl
  no_finalizers-has_finalizers (obj ms) h =
      none_decoded (decode_map (or_null (find_member (codes "labels") ms)))
        (decode_map (or_null (find_member (codes "annotations") ms)))
        (decode_owners owners_ok (or_null (find_member (codes "ownerReferences") ms)))
        (decode_list (or_null (find_member (codes "finalizers") ms)))
        (decode_int (or_null (find_member (codes "generation") ms)))
        (no_finalizers-decode (find_member (codes "finalizers") ms) h)

  pub is_tombstone-is_fully_deleted :
      (r : Resource) → is_tombstone r ≡ true → is_fully_deleted owners_ok r ≡ true
  unfolding is_tombstone is_fully_deleted has_finalizers
  is_tombstone-is_fully_deleted r h = ground (arith, no_finalizers-has_finalizers r.metadata)
