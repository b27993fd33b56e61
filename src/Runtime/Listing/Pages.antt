-- ===== src/Runtime/Listing/Pages.antt =====
-- Pages that follow one another by their continue tokens make up the whole list.
use postgres_controller_back.Base.{
  ℕ, zero, suc, ◌+◌, ◌-◌, ◌^◌, ◌≡◌, ◌≢◌, ◌<◌, ◌≤◌, refl, Bool, true, false, ◌&&◌, Option, none,
  some, List, [], ◌∷◌, ◌++◌, length, take, drop, keep, ltb, ◌==◌, if◌then◌else◌, Outcome, ok, err,
  arith, ap, sym, ◌∙◌, Bool-cases, inl, inr,
}
use postgres_controller_back.Base.Int.{pos}
use postgres_controller_back.Base.Text.{Text, text_eq, text_eq_iff}
use postgres_controller_back.Base64
use postgres_controller_back.Base64.RoundTrip.{decode-encode}
use postgres_controller_back.Json.{Json}
use postgres_controller_back.Model.{Resource}
use postgres_controller_back.Table.{Table}
use postgres_controller_back.ResourceVersion.{to_text}
use postgres_controller_back.Reader.Rows.{order_by_stamp}
use postgres_controller_back.Reader.List.{list, filtered, is_listed, watermark}
use postgres_controller_back.Runtime.Gvk.{Gvk, gvk_to_string, item_gvk_from_list_gvk}
use postgres_controller_back.Runtime.FieldSelector.{Clause, SelectorError, all_hold}
use postgres_controller_back.Runtime.Objects.{Object}
use postgres_controller_back.Runtime.Listing.{
  ListError, bad_selector, Codec, ListOptions, ObjectList, list_clauses, next_offset,
  decode_continue, encode_continue, filter_of, build_list_filter, resource_to_object, take_items,
  matches, list_rows, client_list,
}
use postgres_controller_back.Base.Slices.{
  take-drop, drop-drop, take_all, take_full, take_short, length-drop, length-keep, keep_all,
}
use postgres_controller_back.Runtime.Listing.Outcomes.{
  follow_page, items_of, joined, joined_nil, with_first, with_first-joined, paged, items-paged,
  follow_last, follow_more,
}
use postgres_controller_back.Reader.Rows.{length-order}

encode-ne-nil : (s : Text) → s ≢ [] → Base64.encode s ≢ []
unfolding Base64.encode
encode-ne-nil [] n e = n refl
encode-ne-nil (a ∷ []) n e = cc
encode-ne-nil (a ∷ b ∷ []) n e = cc
encode-ne-nil (a ∷ b ∷ c ∷ s) n e = cc

module _ (codec : Codec) where
  encode_continue-ne-nil : (n : ℕ) → text_eq (encode_continue codec (pos n)) [] ≡ false
  unfolding encode_continue
  encode_continue-ne-nil n =
      elim (Bool-cases (text_eq (Base64.encode (codec.marshal (pos n))) [])) [
        | inl b ↦ absurd (
            encode-ne-nil (codec.marshal (pos n)) (codec.marshal-ne-nil n)
              ((text_eq_iff (Base64.encode (codec.marshal (pos n))) []).0 b))
        | inr b ↦ b
      ]

  -- A continue token carries its offset, which is in int64.
  pub decode_continue-encode_continue :
      (n : ℕ) → n < 2 ^ 63 → decode_continue codec (encode_continue codec (pos n)) ≡ some (pos n)
  unfolding decode_continue
  decode_continue-encode_continue n h = rw (encode_continue-ne-nil n) (
      unfold encode_continue in
      rw (decode-encode (codec.marshal (pos n)) (codec.marshal_bytes n))
        (codec.unmarshal-marshal n h))

next_offset_fits : (k l : ℕ) → k + l < 2 ^ 63 → next_offset (pos k) l ≡ pos (k + l)
unfolding next_offset
next_offset_fits k l h = ground arith

module _ (codec : Codec) (print : Json → Text) (owners_ok : Json → Bool)
    (inject : Json → Json → Option Json) (new_object : Gvk → Option Object) where
  module _ (g : Gvk) (xmin : ℕ) (t : Table) where
    abbrev pub list_of : ListOptions → Outcome ListError ObjectList
    list_of o = client_list codec print owners_ok inject new_object (some g) o xmin t

    -- A client that asks for page after page, for a number of pages at most.
    unfoldable pub gather : ℕ → ListOptions → Option (Outcome ListError (List Object))
    gather zero o = none
    gather (suc fuel) o = follow_page (list_of o) (λ c. gather fuel (record o { continue = c }))

    abbrev items : ListOptions → List Resource → Outcome ListError (List Object)
    items o rs = take_items codec print owners_ok inject new_object o.label_selector rs

    abbrev kept : List Clause → Table
    kept cs = order_by_stamp (
        keep (all_hold print cs)
          (keep (λ r. text_eq r.gvk (gvk_to_string (item_gvk_from_list_gvk g)) && is_listed r) t))

    abbrev page_at : ListOptions → ℕ → Text → ListOptions
    page_at o l token = record o { limit = pos (suc l); continue = token }

    abbrev version : Text
    version = to_text (record { object_version = pos 0; watermark = watermark xmin })

    abbrev token_after : ℕ → ℕ → List Resource → Text
    token_after k l rs =
        if length rs == suc l then encode_continue codec (next_offset (pos k) (suc l)) else []

    page_lem :
        (o : ListOptions) (l k : ℕ) (token : Text) (cs : List Clause)
        → list_clauses o ≡ ok cs
        → decode_continue codec token ≡ some (pos k)
        → list_of (page_at o l token)
          ≡ paged version
              (token_after k l (take (suc l) (drop k (kept cs))))
              (items o (take (suc l) (drop k (kept cs))))
    unfolding client_list build_list_filter filter_of list_rows list filtered
    page_lem o l k token cs c d =
        let p : ltb 0 (suc l) ≡ true = ground arith in
        rw (c, d) (rw p (unfold encode_continue in refl))

    items-append :
        (o : ListOptions) (rs qs : List Resource)
        → items o (rs ++ qs) ≡ joined (items o rs) (items o qs)
    unfolding take_items
    items-append o [] qs = sym (joined_nil (items o qs))
    items-append o (r ∷ rs) qs =
        let m = matches codec print owners_ok inject new_object o.label_selector in
        let x = resource_to_object codec print owners_ok inject new_object r in
        ap (with_first m x) (items-append o rs qs) ∙ with_first-joined m x (items o rs) (items o qs)

    gather_from :
        (o : ListOptions) (l : ℕ) (cs : List Clause)
        → list_clauses o ≡ ok cs
        → length (kept cs) < 2 ^ 63
        → (fuel k : ℕ) (token : Text) → decode_continue codec token ≡ some (pos k)
        → length (kept cs) - k < fuel
        → gather fuel (page_at o l token) ≡ some (items o (drop k (kept cs)))
    unfolding gather
    gather_from o l cs c small zero k token d h = absurd (omega arith)
    gather_from o l cs c small (suc fuel) k token d h =
        let rs : List Resource = drop k (kept cs) in
        let page : List Resource = take (suc l) rs in
        let rest : Text → Option (Outcome ListError (List Object)) =
          λ c. gather fuel (page_at o l c) in
        rw (page_lem o l k token cs c d) (elim (Bool-cases (length page == suc l)) [
          | inl b ↦
              let q : suc l ≤ length (kept cs) - k =
                omega (arith, take_full (suc l) rs (ground arith), length-drop k (kept cs)) in
              let n : next_offset (pos k) (suc l) ≡ pos (k + suc l) =
                next_offset_fits k (suc l) (omega arith) in
              rw (b, n)
                (follow_more version (encode_continue codec (pos (k + suc l))) (items o page)
                    (items o (drop (k + suc l) (kept cs))) rest
                    (encode_continue-ne-nil codec (k + suc l))
                    (gather_from o l cs c small fuel (k + suc l)
                      (encode_continue codec (pos (k + suc l)))
                      (decode_continue-encode_continue codec (k + suc l) (omega arith))
                      (omega arith))
                  ∙ ap some (
                      ap (λ qs. joined (items o page) (items o qs))
                        (sym (drop-drop k (suc l) (kept cs)))
                      ∙ sym (items-append o page (drop (suc l) rs))
                      ∙ ap (items o) (take-drop (suc l) rs)))
          | inr b ↦ rw b (
              follow_last version (items o page) rest
              ∙ ap (λ qs. some (items o qs)) (take_all (suc l) rs (take_short (suc l) rs b)))
        ])

    length-kept : (cs : List Clause) → length (kept cs) ≤ length t
    length-kept cs =
        let base = λ (r : Resource).
          text_eq r.gvk (gvk_to_string (item_gvk_from_list_gvk g)) && is_listed r in
        omega (
          arith,
          length-order (keep (all_hold print cs) (keep base t)),
          length-keep (all_hold print cs) (keep base t),
          length-keep base t,
        )

    whole_lem :
        (o : ListOptions) (cs : List Clause)
        → list_clauses o ≡ ok cs
        → items_of (list_of (record o { limit = pos 0; continue = [] })) ≡ items o (kept cs)
    unfolding client_list build_list_filter filter_of list_rows list filtered all_hold
    whole_lem o [] c =
        let base = λ (r : Resource).
          text_eq r.gvk (gvk_to_string (item_gvk_from_list_gvk g)) && is_listed r in
        rw c (
          items-paged version _ (items o (order_by_stamp (keep base t)))
          ∙ ap (λ rs. items o (order_by_stamp rs)) (sym (keep_all (keep base t))))
    whole_lem o (d ∷ cs) c = rw c (items-paged version _ (items o (kept (d ∷ cs))))

    refused :
        (o : ListOptions) {e : SelectorError}
        → list_clauses o ≡ err e
        → list_of o ≡ err (bad_selector e)
    unfolding client_list build_list_filter
    refused o c = rw c refl

    -- Page after page, a client gets what one list without a limit gives it, an error included: in at
    -- most one page more than the table has rows, while the table stands still and its rows can be
    -- counted in an int64.
    pub pages_complete :
        (o : ListOptions) (l fuel : ℕ)
        → length t < 2 ^ 63
        → length t < fuel
        → gather fuel (page_at o l [])
          ≡ some (items_of (list_of (record o { limit = pos 0; continue = [] })))
    pages_complete o l fuel small h = go (list_clauses o) refl
      where
        refused_all :
            (f : ℕ)
            → length t < f
            → (e : SelectorError) → list_clauses o ≡ err e
            → gather f (page_at o l [])
              ≡ some (items_of (list_of (record o { limit = pos 0; continue = [] })))
        refused_all zero h e c = absurd (omega arith)
        refused_all (suc f) h e c =
            unfold gather list_clauses in
            rw (refused (page_at o l []) c, refused (record o { limit = pos 0; continue = [] }) c)
              refl

        go :
            (x : Outcome SelectorError (List Clause))
            → list_clauses o ≡ x
            → gather fuel (page_at o l [])
              ≡ some (items_of (list_of (record o { limit = pos 0; continue = [] })))
        go (ok cs) c =
            gather_from o l cs c (omega (arith, length-kept cs)) fuel 0 []
              (unfold decode_continue text_eq in refl) (omega (arith, length-kept cs))
            ∙ ap some (sym (whole_lem o cs c))
        go (err e) c = refused_all fuel h e c
