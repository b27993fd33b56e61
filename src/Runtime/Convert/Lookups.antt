-- ===== src/Runtime/Convert/Lookups.antt =====
-- Members of the stored metadata, written and read back one at a time.
use postgres_controller_back.Base.{
  ℕ, ◌^◌, ◌<◌, ◌≡◌, refl, false, none, some, List, [], ◌∷◌, arith, ap, sym, Bool-cases, inl, inr,
}
use postgres_controller_back.Base.Int.{ℤ, pos, int_eq, int_eq_iff}
use postgres_controller_back.Base.Text.{Text, codes, text_eq, text_eq_iff}
use postgres_controller_back.Json.{
  Json, null, bool, num, arr, obj, Members, end, str, member, find_member,
}
use postgres_controller_back.Strconv.{format_int}
use postgres_controller_back.Strconv.RoundTrip.{parse_int-format_int}
use postgres_controller_back.Runtime.Convert.{
  decode_items, decode_list, decode_members, decode_map, decode_int, or_null, encode_items,
  encode_members, map_member, finalizers_member, generation_member, owners_member,
}

pub decode-encode_items : (ts : List Text) → decode_items (encode_items ts) ≡ some ts
unfolding decode_items encode_items
decode-encode_items [] = refl
decode-encode_items (t ∷ ts) = rw (decode-encode_items ts)

pub decode-encode_members : (l : List (Text × Text)) → decode_members (encode_members l) ≡ some l
unfolding decode_members encode_members
decode-encode_members [] = refl
decode-encode_members ((k, v) ∷ l) = rw (decode-encode_members l)

pub found_member : (k : Text) (j : Json) (rest : Members) → find_member k (member k j rest) ≡ some j
unfolding find_member
found_member k j rest = rw ((text_eq_iff k k).1 refl)

pub find-end : (k : Text) → find_member k end ≡ none
unfolding find_member
find-end k = refl

module _ (k : Text) where
  pub skip_map :
      (key : Text) (l : List (Text × Text)) (ms : Members)
      → text_eq key k ≡ false
      → find_member k (map_member key l ms) ≡ find_member k ms
  unfolding find_member
  skip_map key [] ms b = refl
  skip_map key (p ∷ ps) ms b = rw b

  pub skip_finalizers :
      (fs : List Text) (ms : Members)
      → text_eq (codes "finalizers") k ≡ false
      → find_member k (finalizers_member fs ms) ≡ find_member k ms
  unfolding find_member
  skip_finalizers [] ms b = refl
  skip_finalizers (f ∷ fs) ms b = rw b

  pub skip_generation :
      (g : ℤ) (ms : Members)
      → text_eq (codes "generation") k ≡ false
      → find_member k (generation_member g ms) ≡ find_member k ms
  unfolding find_member
  skip_generation g ms b = ground arith

  pub skip_owners :
      (o : Json) (ms : Members)
      → text_eq (codes "ownerReferences") k ≡ false
      → find_member k (owners_member o ms) ≡ find_member k ms
  unfolding find_member
  skip_owners null ms b = refl
  skip_owners _ ms b = rw b

  pub hit_map :
      (l : List (Text × Text)) (ms : Members)
      → find_member k ms ≡ none
      → decode_map (or_null (find_member k (map_member k l ms))) ≡ some l
  unfolding decode_map
  hit_map [] ms n = rw n
  hit_map (p ∷ ps) ms n =
      rw (found_member k (obj (encode_members (p ∷ ps))) ms) (decode-encode_members (p ∷ ps))

pub hit_finalizers :
    (fs : List Text) (ms : Members)
    → find_member (codes "finalizers") ms ≡ none
    → decode_list (or_null (find_member (codes "finalizers") (finalizers_member fs ms))) ≡ some fs
unfolding decode_list
hit_finalizers [] ms n = rw n
hit_finalizers (f ∷ fs) ms n =
    rw (found_member (codes "finalizers") (arr (encode_items (f ∷ fs))) ms)
      (decode-encode_items (f ∷ fs))

pub hit_generation :
    (g : ℕ) (ms : Members)
    → g < 2 ^ 63
    → find_member (codes "generation") ms ≡ none
    → decode_int (or_null (find_member (codes "generation") (generation_member (pos g) ms)))
      ≡ some (pos g)
unfolding decode_int
hit_generation g ms h n = elim (Bool-cases (int_eq (pos g) (pos 0))) [
  | inl b ↦ rw (b, n) (ap some (sym ((int_eq_iff (pos g) (pos 0)).0 b)))
  | inr b ↦
      rw (
        b,
        found_member (codes "generation") (num (format_int (pos g))) ms,
        parse_int-format_int g h,
      )
]

pub hit_owners :
    (o : Json) → or_null (find_member (codes "ownerReferences") (owners_member o end)) ≡ o
hit_owners null = unfold find_member in refl
hit_owners (bool b) = rw (found_member (codes "ownerReferences") (bool b) end)
hit_owners (num t) = rw (found_member (codes "ownerReferences") (num t) end)
hit_owners (str t) = rw (found_member (codes "ownerReferences") (str t) end)
hit_owners (arr xs) = rw (found_member (codes "ownerReferences") (arr xs) end)
hit_owners (obj ms) = rw (found_member (codes "ownerReferences") (obj ms) end)
