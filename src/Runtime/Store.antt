-- ===== src/Runtime/Store.antt =====
-- The store of an informer, behind its laws, and what the Reflector does to it with a list and with the
-- events of a watch. client-go implements both; the laws are what it documents of a store.
use postgres_controller_back.Base.{
  ◌≡◌, refl, Bool, true, false, Option, none, some, List, [], ◌∷◌, ◌++◌, map, if◌then◌else◌, ap,
  ◌∙◌, subst, Bool-cases, inl, inr, arith, ℕ, is_some, not, ◌&&◌, ◌==◌,
}
use postgres_controller_back.Base.Text.{Text}
use postgres_controller_back.Json.{Json}
use postgres_controller_back.Model.{Key, Resource, key_eq, key_eq_iff}
use postgres_controller_back.Table.{find, IsKeyed}
use postgres_controller_back.Table.Keyed.{find-Absent}
use postgres_controller_back.ResourceVersion.{Rv, to_text}
use postgres_controller_back.Reader.Poll.{EventType, to_event, deletion_type}
use postgres_controller_back.Runtime.Convert.{has_finalizers, is_fully_deleted}
use postgres_controller_back.Runtime.Relay.{
  WatchEvent, added, modified, deleted, error, stopped, relay, watch_event, send_error, stamp_rv,
}

-- An object in the store is written as the resource that it was made of.
pub record Store : Type 1 where
  pub State : Type 0
  pub get : Key → State → Option Resource
  pub replace : List Resource → State
  pub update : Resource → State → State
  pub delete : Key → State → State
  pub get-replace : (k : Key) (rs : List Resource) → IsKeyed rs → get k (replace rs) ≡ find k rs
  pub get-update :
      (k : Key) (r : Resource) (s : State)
      → get k (update r s) ≡ (if key_eq r.key k then some r else get k s)
  pub get-delete :
      (k j : Key) (s : State) → get k (delete j s) ≡ (if key_eq j k then none else get k s)

-- What a client is shown of a row: nothing of a fully deleted one.
abbrev pub shown : (Json → Bool) → Option Resource → Option Resource
shown owners_ok none = none
shown owners_ok (some r) = if is_fully_deleted owners_ok r then none else some r

abbrev pub latest : (Json → Bool) → Option Resource → Option Resource → Option Resource
latest owners_ok none old = old
latest owners_ok (some r) old = shown owners_ok (some r)

module _ (store : Store) where
  open store use {State, get, replace, update, delete, get-replace, get-update, get-delete}

  -- One event of the watch; an error ends it.
  unfoldable pub take_event : WatchEvent → State → State
  take_event (added r v) s = update r s
  take_event (modified r v) s = update r s
  take_event (deleted r v) s = delete r.key s
  take_event (error e) s = s

  unfoldable pub follow : List WatchEvent → State → State
  unfolding take_event
  follow [] s = s
  follow (e ∷ es) s = follow es (take_event e s)

  module _ (owners_ok : Json → Bool) where
    -- What an event of the watcher does to the store once it was relayed.
    unfoldable pub absorb : Resource → State → State
    absorb r s = if is_fully_deleted owners_ok r then delete r.key s else update r s

    unfoldable pub absorb_all : List Resource → State → State
    absorb_all [] s = s
    absorb_all (r ∷ rs) s = absorb_all rs (absorb r s)

    pub absorb_all-append :
        (rs qs : List Resource) (s : State)
        → absorb_all (rs ++ qs) s ≡ absorb_all qs (absorb_all rs s)
    unfolding absorb_all
    absorb_all-append [] qs s = refl
    absorb_all-append (r ∷ rs) qs s = absorb_all-append rs qs (absorb r s)

    get-absorb :
        (k : Key) (r : Resource) (s : State)
        → get k (absorb r s) ≡ (
            if key_eq r.key k
            then (if is_fully_deleted owners_ok r then none else some r)
            else get k s)
    unfolding absorb
    get-absorb k r s = ground (arith, get-update k r s, get-delete k r.key s)

    module _ (convertible : Resource → Bool)
        (all_convertible : (r : Resource) → convertible r ≡ true) where
      -- An event of the watcher, relayed, puts a resource, or takes a fully deleted one away.
      take-watch_event :
          (r : Resource) (v : Text) (s : State)
          → take_event (watch_event owners_ok convertible (to_event r).type r v) s ≡ absorb r s
      unfolding take_event watch_event to_event absorb is_fully_deleted
      take-watch_event r v s = go r.deletion_timestamp refl (r.object_version == 1)
        where
          go :
              (o : Option ℕ)
              → r.deletion_timestamp ≡ o
              → (b : Bool)
              → take_event
                  (watch_event owners_ok convertible
                    (deletion_type o (if b then EventType.added else EventType.modified))
                    r
                    v)
                  s
                ≡ (if is_some o && not (has_finalizers owners_ok r)
                    then delete r.key s
                    else update r s)
          go none e true = refl
          go none e false = refl
          go (some d) e b = elim (Bool-cases (has_finalizers owners_ok r)) [
            | inl h ↦ rw h
            | inr h ↦ rw h
          ]

      pub follow-relay :
          (rv : Rv) (rs : List Resource) (s : State)
          → follow (relay owners_ok convertible rv (map to_event rs) stopped) s ≡ absorb_all rs s
      unfolding follow relay absorb_all send_error to_event
      follow-relay rv [] s = refl
      follow-relay rv (r ∷ rs) s =
          let v : Text = to_text (stamp_rv rv (to_event r)) in
          let rest : List WatchEvent =
            relay owners_ok convertible (stamp_rv rv (to_event r)) (map to_event rs) stopped in
          rw (all_convertible r) (
            ap (follow rest) (take-watch_event r v s)
            ∙ follow-relay (stamp_rv rv (to_event r)) rs (absorb r s))

    -- After rows of different keys, the store shows the row of a key, if there is one among them.
    pub get-absorb_all :
        (k : Key) (rs : List Resource) (s : State)
        → IsKeyed rs
        → get k (absorb_all rs s) ≡ latest owners_ok (find k rs) (get k s)
    unfolding absorb_all find
    get-absorb_all k [] s h = refl
    get-absorb_all k (r ∷ rs) s (a, h) = elim (Bool-cases (key_eq r.key k)) [
      | inl e ↦
          let gone : find k rs ≡ none =
            subst (λ j. find j rs ≡ none) ((key_eq_iff r.key k).0 e) (find-Absent r.key rs a) in
          rw e (get-absorb_all k rs (absorb r s) h ∙ rw gone (get-absorb k r s ∙ rw e))
      | inr e ↦ rw e (
          get-absorb_all k rs (absorb r s) h
          ∙ ap (latest owners_ok (find k rs)) (get-absorb k r s ∙ rw e))
    ]
