-- ===== src/Runtime/Informers/Once.antt =====
-- Each informer runs once, and its watch goes on from its list.
use postgres_controller_back.Base.{
  ℕ, zero, suc, ◌+◌, ◌≡◌, ◌≤◌, refl, Bool, true, false, Option, none, some, List, [], ◌∷◌, ◌++◌,
  map, if◌then◌else◌, Outcome, ok, err, ◌>>=◌, arith, ap, ◌∙◌, subst, Bool-cases, inl, inr,
}
use postgres_controller_back.Base.Int.{ℤ, pos}
use postgres_controller_back.Base.Text.{Text, text_eq}
use postgres_controller_back.Json.{Json}
use postgres_controller_back.Table.{Table}
use postgres_controller_back.Strconv.{max_uint64}
use postgres_controller_back.ResourceVersion.{to_text, parse, zero_rv}
use postgres_controller_back.ResourceVersion.RoundTrip.{parse-to_text}
use postgres_controller_back.Reader.Shard.{ShardSpec}
use postgres_controller_back.Reader.List.{ListResult, list, informer_filter, watermark}
use postgres_controller_back.Runtime.Gvk.{Gvk, gvk_to_string, list_gvk}
use postgres_controller_back.Runtime.Objects.{Object}
use postgres_controller_back.Runtime.Listing.{
  take_items, not_in_scheme, ListError, Codec, ObjectList,
}
use postgres_controller_back.Runtime.Informers.{
  shard_of, gvk_eq, gvk_eq_iff, Informer, Cache, new_cache, find_informer, add_informer, or_add,
  get_or_create_informer, keys, start, Step, asked, opened, launched, Reach, stay, next,
  informer_watch, informer_items, informer_list,
}

-- How often a GVK is in a list.
unfoldable pub times : Gvk → List Gvk → ℕ
times g [] = 0
times g (x ∷ xs) = (if gvk_eq x g then 1 else 0) + times g xs

times-append : (g : Gvk) (xs ys : List Gvk) → times g (xs ++ ys) ≡ times g xs + times g ys
unfolding times
times-append g [] ys = omega arith
times-append g (x ∷ xs) ys = omega (arith, times-append g xs ys)

times-last :
    (g h : Gvk) (xs : List Gvk)
    → times g (xs ++ h ∷ []) ≡ times g xs + (if gvk_eq h g then 1 else 0)
unfolding times
times-last g h xs = times-append g xs (h ∷ []) ∙ omega arith

times-find :
    (g : Gvk) (is : List Informer) → find_informer g is ≡ none → times g (map (λ i. i.gvk) is) ≡ 0
unfolding times find_informer
times-find g [] h = refl
times-find g (i ∷ is) h = elim (Bool-cases (gvk_eq i.gvk g)) [
  | inl b ↦ absurd (found b)
  | inr b ↦ rw b (omega (arith, times-find g is (later b)))
]
  where
    found : gvk_eq i.gvk g ≡ true → ⊥
    found b = let e : some i ≡ none = rw b at h in cc

    later : gvk_eq i.gvk g ≡ false → find_informer g is ≡ none
    later b = rw b at h

keys-append :
    (is : List Informer) (i : Informer)
    → map (λ j. j.gvk) (is ++ i ∷ []) ≡ map (λ j. j.gvk) is ++ i.gvk ∷ []
keys-append [] i = refl
keys-append (j ∷ is) i = ap (λ gs. j.gvk ∷ gs) (keys-append is i)

-- No GVK has two informers, and each informer's `Run` was spawned once if the cache was started, and
-- not at all before.
pub record IsOnce (c : Cache) : Type 0 where
  pub single : (g : Gvk) → times g (keys c) ≤ 1
  pub spawned :
      (g : Gvk)
      → times g c.running + times g c.waiting ≡ (if c.started then times g (keys c) else 0)

new-IsOnce : (s : Option ShardSpec) (gs : List Gvk) → IsOnce (new_cache s gs)
unfolding new_cache times
new-IsOnce s gs = record { single = λ g. omega arith; spawned = λ g. refl }

times_free :
    (i : Informer) (c : Cache) (g : Gvk)
    → find_informer i.gvk c.informers ≡ none
    → gvk_eq i.gvk g ≡ true
    → times g (keys c) ≡ 0
times_free i c g f b =
    subst (λ x. times x (keys c) ≡ 0) ((gvk_eq_iff i.gvk g).0 b) (times-find i.gvk c.informers f)

times_more :
    (i : Informer) (c : Cache) (g : Gvk)
    → times g (map (λ j. j.gvk) (c.informers ++ i ∷ []))
      ≡ times g (keys c) + (if gvk_eq i.gvk g then 1 else 0)
times_more i c g = ap (times g) (keys-append c.informers i) ∙ times-last g i.gvk (keys c)

with_informer-IsOnce :
    (i : Informer) (c : Cache)
    → find_informer i.gvk c.informers ≡ none
    → IsOnce c
    → IsOnce (record c {
      informers = c.informers ++ i ∷ [];
      waiting = if c.started then c.waiting ++ i.gvk ∷ [] else c.waiting;
    })
with_informer-IsOnce i c f h = record {
  single = λ g. elim (Bool-cases (gvk_eq i.gvk g)) [
    | inl b ↦ ground (arith, times_more i c g, times_free i c g f b)
    | inr b ↦ ground (arith, times_more i c g, h.single g)
  ];
  spawned = λ g. elim (Bool-cases c.started) [
    | inl b ↦ ground (arith, times_more i c g, times-last g i.gvk c.waiting, h.spawned g)
    | inr b ↦ ground (arith, h.spawned g)
  ];
}

either-IsOnce :
    (b : Bool) (x y : Option Informer × Cache)
    → IsOnce x.1
    → IsOnce y.1
    → IsOnce (if b then x else y).1
either-IsOnce true x y h k = h
either-IsOnce false x y h k = k

add-IsOnce :
    (known : Gvk → Bool) (g : Gvk) (c : Cache)
    → find_informer g c.informers ≡ none
    → IsOnce c
    → IsOnce (add_informer known g c).1
unfolding add_informer
add-IsOnce known g c f h =
    let i : Informer = record { gvk = g; shard = shard_of g c } in
    either-IsOnce (known g) (some i, _) (none, c) (with_informer-IsOnce i c f h) h

start-IsOnce : (c : Cache) → c.started ≡ false → IsOnce c → IsOnce (start c)
unfolding start
start-IsOnce c n h = record {
  single = h.single;
  spawned = λ g. ground (arith, times-append g c.waiting (keys c), h.spawned g);
}

launch-IsOnce :
    (before after : List Gvk) (g : Gvk) (c : Cache)
    → c.waiting ≡ before ++ g ∷ after
    → IsOnce c
    → IsOnce (record c { waiting = before ++ after; running = c.running ++ g ∷ [] })
unfolding times
launch-IsOnce before after g c w h = record {
  single = h.single;
  spawned = λ x. ground (
    arith,
    times-last x g c.running,
    times-append x before after,
    times-append x before (g ∷ after),
    ap (times x) w,
    h.spawned x,
  );
}

Step-IsOnce : (known : Gvk → Bool) {c d : Cache} → Step known c d → IsOnce c → IsOnce d
unfolding get_or_create_informer
Step-IsOnce known (asked g c) h = go (find_informer g c.informers) refl
  where
    go : (o : Option Informer) → find_informer g c.informers ≡ o → IsOnce (or_add known g c o).1
    go none f = add-IsOnce known g c f h
    go (some i) f = h
Step-IsOnce known (opened c n) h = start-IsOnce c n h
Step-IsOnce known (launched before after g c w) h = launch-IsOnce before after g c w h

Reach-keeps : (known : Gvk → Bool) {c d : Cache} → Reach known c d → IsOnce c → IsOnce d
Reach-keeps known stay h = h
Reach-keeps known (next r s) h = Step-IsOnce known s (Reach-keeps known r h)

-- However requests for informers, the start of the cache and the scheduler interleave: no GVK has two
-- informers, and each informer's `Run` is spawned once in all, when the cache has been started, and not
-- before.
pub informers_run-IsOnce :
    (known : Gvk → Bool) (s : Option ShardSpec) (gs : List Gvk) {c : Cache}
    → Reach known (new_cache s gs) c
    → IsOnce c
informers_run-IsOnce known s gs r = Reach-keeps known r (new-IsOnce s gs)

watermark_fits : (xmin : ℕ) → xmin ≤ max_uint64 → watermark xmin ≤ max_uint64
unfolding watermark
watermark_fits zero h = omega arith
watermark_fits (suc x) h = omega arith

-- An empty version is the zero version to `Parse`, too.
parse_any : (v : Text) → (if text_eq v [] then ok zero_rv else parse v) ≡ parse v
unfolding text_eq parse
parse_any [] = refl
parse_any (c ∷ s) = refl

version_of :
    (v w : Text) (x : Outcome ListError (List Object)) {l : ObjectList}
    → (x >>= λ items. ok (record { items = items; resource_version = v; continue = w })) ≡ ok l
    → v ≡ l.resource_version
version_of v w (ok items) {l} h = ap shown_version h
  where
    shown_version : Outcome ListError ObjectList → Text
    shown_version (ok m) = m.resource_version
    shown_version (err e) = []
version_of v w (err e) h = absurd (cc)

module _ (hashtext : Text → ℤ) (codec : Codec) (print : Json → Text) (owners_ok : Json → Bool)
    (inject : Json → Json → Option Json) (new_object : Gvk → Option Object)
    (known : Gvk → Bool) where
  listed_version :
      (g : Gvk) (r : ListResult) {l : ObjectList}
      → informer_items hashtext codec print owners_ok inject new_object known g r ≡ ok l
      → to_text r.resource_version ≡ l.resource_version
  unfolding informer_items
  listed_version g r {l} h = elim (Bool-cases (known (list_gvk g))) [
    | inl b ↦
        version_of (to_text r.resource_version) []
          (take_items codec print owners_ok inject new_object none r.resources) (rw b at h)
    | inr b ↦ let e : err not_in_scheme ≡ ok l = rw b at h in absurd (cc)
  ]

  -- The watch of an informer, opened at the version that its list reports, starts at the list's
  -- watermark, with the GVK and the shard of the list, if the snapshot's xmin is a uint64.
  pub watch_starts_at_list :
      (i : Informer) (xmin : ℕ) (t : Table) {l : ObjectList}
      → xmin ≤ max_uint64
      → informer_list hashtext codec print owners_ok inject new_object known i xmin t ≡ ok l
      → informer_watch i l.resource_version
        ≡ ok (record { gvk = gvk_to_string i.gvk; shard = i.shard }, watermark xmin)
  unfolding informer_list informer_watch list
  watch_starts_at_list i xmin t {l} b h =
      let e : to_text (record { object_version = pos 0; watermark = watermark xmin })
          ≡ l.resource_version =
        listed_version i.gvk (list xmin (gvk_to_string i.gvk) (informer_filter hashtext i.shard) t)
          h in
      let p : parse l.resource_version
          ≡ ok (record { object_version = pos 0; watermark = watermark xmin }) =
        subst (λ v. parse v ≡ ok (record { object_version = pos 0; watermark = watermark xmin })) e
          (parse-to_text 0 (watermark xmin) (omega arith) (watermark_fits xmin b)) in
      rw (parse_any l.resource_version, p) refl
