-- ===== src/Runtime/Listing/Outcomes.antt =====
-- Items and pages that may have failed, put together.
use postgres_controller_back.Base.{
  ◌≡◌, refl, Bool, false, Option, none, some, List, [], ◌∷◌, ◌++◌, if◌then◌else◌, Outcome, ok, err,
  ◌>>=◌, Bool-cases, inl, inr,
}
use postgres_controller_back.Base.Text.{Text, text_eq}
use postgres_controller_back.Runtime.Objects.{Object}
use postgres_controller_back.Runtime.Listing.{ListError, ObjectList}

-- What follows the pages gathers: nothing, without fuel.
abbrev pub after :
    List Object
    → Option (Outcome ListError (List Object))
    → Option (Outcome ListError (List Object))
after items none = none
after items (some (err e)) = some (err e)
after items (some (ok os)) = some (ok (items ++ os))

abbrev pub follow_page :
    Outcome ListError ObjectList
    → (Text → Option (Outcome ListError (List Object)))
    → Option (Outcome ListError (List Object))
follow_page (err e) rest = some (err e)
follow_page (ok l) rest =
    if text_eq l.continue [] then some (ok l.items) else after l.items (rest l.continue)

abbrev pub items_of : Outcome ListError ObjectList → Outcome ListError (List Object)
items_of (err e) = err e
items_of (ok l) = ok l.items

abbrev pub joined :
    Outcome ListError (List Object)
    → Outcome ListError (List Object)
    → Outcome ListError (List Object)
joined x y = x >>= λ xs. y >>= λ ys. ok (xs ++ ys)

pub joined_nil : (x : Outcome ListError (List Object)) → joined (ok []) x ≡ x
joined_nil (ok x) = refl
joined_nil (err e) = refl

-- One object in front, if it matches.
abbrev pub with_first :
    (Object → Bool)
    → Outcome ListError Object
    → Outcome ListError (List Object)
    → Outcome ListError (List Object)
with_first m x y = x >>= λ o. y >>= λ os. ok (if m o then o ∷ os else os)

pub with_first-joined :
    (m : Object → Bool) (x : Outcome ListError Object) (y z : Outcome ListError (List Object))
    → with_first m x (joined y z) ≡ joined (with_first m x y) z
with_first-joined m (err e) y z = refl
with_first-joined m (ok o) (err e) z = refl
with_first-joined m (ok o) (ok xs) (err e) = refl
with_first-joined m (ok o) (ok xs) (ok ys) = elim (Bool-cases (m o)) [
  | inl b ↦ rw b refl
  | inr b ↦ rw b refl
]

abbrev pub paged : Text → Text → Outcome ListError (List Object) → Outcome ListError ObjectList
paged v c x = x >>= λ os. ok (record { items = os; resource_version = v; continue = c })

pub items-paged : (v c : Text) (x : Outcome ListError (List Object)) → items_of (paged v c x) ≡ x
items-paged v c (ok x) = refl
items-paged v c (err e) = refl

pub follow_last :
    (v : Text) (x : Outcome ListError (List Object))
    (rest : Text → Option (Outcome ListError (List Object)))
    → follow_page (paged v [] x) rest ≡ some x
unfolding text_eq
follow_last v (ok x) rest = refl
follow_last v (err e) rest = refl

pub follow_more :
    (v c : Text) (x y : Outcome ListError (List Object))
    (rest : Text → Option (Outcome ListError (List Object)))
    → text_eq c [] ≡ false
    → rest c ≡ some y
    → follow_page (paged v c x) rest ≡ some (joined x y)
follow_more v c (err e) y rest n h = refl
follow_more v c (ok x) (ok y) rest n h = rw (n, h) refl
follow_more v c (ok x) (err e) rest n h = rw (n, h) refl
