-- ===== src/Runtime/Convert/Stored.antt =====
-- Metadata that `extractMetadata` wrote: it is read back, and the tombstone tests of Go and SQL agree
-- on it.
use postgres_controller_back.Base.{
  ℕ, ◌^◌, ◌<◌, ◌≡◌, refl, Bool, true, false, not, none, some, List, [], ◌∷◌, arith, ap, ◌∙◌,
}
use postgres_controller_back.Base.Int.{pos}
use postgres_controller_back.Base.Text.{Text, codes, text_eq}
use postgres_controller_back.Json.{
  Json, arr, Members, end, cons, str, find_member, field, json_eq_iff, empty_array,
}
use postgres_controller_back.Model.{Resource}
use postgres_controller_back.Writer.Proc.{is_tombstone, no_finalizers}
use postgres_controller_back.Runtime.Convert.{
  StoredMetadata, decode_list, decode_map, decode_int, decode_metadata, or_null, has_finalizers,
  is_fully_deleted, encode_items, map_member, finalizers_member, owners_member, metadata_members,
  extract_metadata,
}
use postgres_controller_back.Runtime.Convert.Lookups.{
  found_member, find-end, skip_map, skip_finalizers, skip_generation, skip_owners, hit_map,
  hit_finalizers, hit_generation, hit_owners,
}

-- Each member of the stored metadata, looked up past the others.
module _ (sm : StoredMetadata) where
  open sm use {labels, annotations, owner_references, finalizers, generation}

  labels_of :
      decode_map (or_null (find_member (codes "labels") (metadata_members sm))) ≡ some labels
  unfolding text_eq
  labels_of = hit_map (codes "labels") labels _ (
      skip_finalizers _ finalizers _ refl
      ∙ skip_generation _ generation _ refl
      ∙ skip_map _ (codes "annotations") annotations _ refl
      ∙ skip_owners _ owner_references _ refl
      ∙ find-end _)

  annotations_of :
      decode_map (or_null (find_member (codes "annotations") (metadata_members sm)))
      ≡ some annotations
  unfolding text_eq
  annotations_of =
      ap (λ o. decode_map (or_null o))
        (skip_map (codes "annotations") (codes "labels") labels _ refl
          ∙ skip_finalizers _ finalizers _ refl
          ∙ skip_generation _ generation _ refl)
      ∙ hit_map (codes "annotations") annotations _
          (skip_owners _ owner_references _ refl ∙ find-end _)

  finalizers_of :
      decode_list (or_null (find_member (codes "finalizers") (metadata_members sm)))
      ≡ some finalizers
  unfolding text_eq
  finalizers_of =
      ap (λ o. decode_list (or_null o))
        (skip_map (codes "finalizers") (codes "labels") labels _ refl)
      ∙ hit_finalizers finalizers _ (
          skip_generation _ generation _ refl
          ∙ skip_map _ (codes "annotations") annotations _ refl
          ∙ skip_owners _ owner_references _ refl
          ∙ find-end _)

  generation_of :
      (g : ℕ)
      → generation ≡ pos g
      → g < 2 ^ 63
      → decode_int (or_null (find_member (codes "generation") (metadata_members sm)))
        ≡ some generation
  unfolding text_eq
  generation_of g e h =
      ap (λ o. decode_int (or_null o))
        (skip_map (codes "generation") (codes "labels") labels _ refl
          ∙ skip_finalizers _ finalizers _ refl)
      ∙ rw e (
          hit_generation g
            (map_member (codes "annotations") annotations (owners_member owner_references end)) h
            (skip_map (codes "generation") (codes "annotations") annotations _ refl
              ∙ skip_owners _ owner_references _ refl
              ∙ find-end _))

  owners_of :
      or_null (find_member (codes "ownerReferences") (metadata_members sm)) ≡ owner_references
  unfolding text_eq
  owners_of =
      ap or_null (
        skip_map (codes "ownerReferences") (codes "labels") labels _ refl
        ∙ skip_finalizers _ finalizers _ refl
        ∙ skip_generation _ generation _ refl
        ∙ skip_map _ (codes "annotations") annotations _ refl)
      ∙ hit_owners owner_references

module _ (owners_ok : Json → Bool) (sm : StoredMetadata) (g : ℕ) where
  -- Metadata is read back as it was written, if its owner references decode and its generation is an
  -- int64 that is not negative.
  pub decode-extract :
      owners_ok sm.owner_references ≡ true
      → sm.generation ≡ pos g
      → g < 2 ^ 63
      → decode_metadata owners_ok (extract_metadata sm) ≡ some sm
  unfolding decode_metadata extract_metadata
  decode-extract o e h =
      rw
        (labels_of sm, annotations_of sm, owners_of sm, o, finalizers_of sm, generation_of sm g e h)

abbrev is_empty : List Text → Bool
is_empty [] = true
is_empty (f ∷ fs) = false

cons_ne_empty :
    (f : Text) (fs : List Text) → no_finalizers (some (arr (encode_items (f ∷ fs)))) ≡ false
unfolding no_finalizers encode_items
cons_ne_empty f fs = ground (arith, json_eq_iff (arr (cons (str f) (encode_items fs))) empty_array)

no_finalizers-member :
    (fs : List Text) (ms : Members)
    → find_member (codes "finalizers") ms ≡ none
    → no_finalizers (find_member (codes "finalizers") (finalizers_member fs ms)) ≡ is_empty fs
no_finalizers-member [] ms n = rw n (unfold no_finalizers in refl)
no_finalizers-member (f ∷ fs) ms n =
    rw (found_member (codes "finalizers") (arr (encode_items (f ∷ fs))) ms) (cons_ne_empty f fs)

no_finalizers-extract :
    (sm : StoredMetadata)
    → no_finalizers (field (codes "finalizers") (extract_metadata sm)) ≡ is_empty sm.finalizers
unfolding field extract_metadata text_eq
no_finalizers-extract sm =
    ap no_finalizers (skip_map (codes "finalizers") (codes "labels") sm.labels _ refl)
    ∙ no_finalizers-member sm.finalizers _ (
        skip_generation (codes "finalizers") sm.generation _ refl
        ∙ skip_map (codes "finalizers") (codes "annotations") sm.annotations _ refl
        ∙ skip_owners (codes "finalizers") sm.owner_references _ refl
        ∙ find-end (codes "finalizers"))

not_empty :
    (fs : List Text) → elim fs as (λ _. Bool) [ [] ↦ false | f ∷ r ↦ true ] ≡ not (is_empty fs)
not_empty [] = refl
not_empty (f ∷ fs) = refl

has_finalizers-extract :
    (owners_ok : Json → Bool) (r : Resource) (sm : StoredMetadata) (g : ℕ)
    → r.metadata ≡ extract_metadata sm
    → owners_ok sm.owner_references ≡ true
    → sm.generation ≡ pos g
    → g < 2 ^ 63
    → has_finalizers owners_ok r ≡ not (is_empty sm.finalizers)
unfolding has_finalizers
has_finalizers-extract owners_ok r sm g m o e h =
    rw (m, decode-extract owners_ok sm g o e h) (not_empty sm.finalizers)

-- The tombstone test of Go, by which Get answers not found, and the one of SQL, by which a create may
-- take the key and the compactor may delete the row, agree on every row whose metadata the client
-- wrote.
pub is_fully_deleted-is_tombstone :
    (owners_ok : Json → Bool) (r : Resource) (sm : StoredMetadata) (g : ℕ)
    → r.metadata ≡ extract_metadata sm
    → owners_ok sm.owner_references ≡ true
    → sm.generation ≡ pos g
    → g < 2 ^ 63
    → is_fully_deleted owners_ok r ≡ is_tombstone r
unfolding is_fully_deleted is_tombstone
is_fully_deleted-is_tombstone owners_ok r sm g m o e h = ground (
  arith,
  has_finalizers-extract owners_ok r sm g m o e h,
  no_finalizers-extract sm,
  ap (λ j. no_finalizers (field (codes "finalizers") j)) m,
)
