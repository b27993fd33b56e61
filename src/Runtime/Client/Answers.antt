-- ===== src/Runtime/Client/Answers.antt =====
-- What the procedure has done when a client's call gave an object.
use postgres_controller_back.Base.{
  ◌≡◌, ◌≢◌, refl, Bool, false, Option, some, inl, inr, Outcome, ok, err, ap, sym, ◌∙◌, Bool-cases,
}
use postgres_controller_back.Base.Text.{Text}
use postgres_controller_back.Json.{Json}
use postgres_controller_back.Model.{WriteResult}
use postgres_controller_back.Table.{Table}
use postgres_controller_back.Writer.Params.{WriteParams, PgError, Draw, Reply}
use postgres_controller_back.Writer.Proc.{pgctl_write, require}
use postgres_controller_back.Writer.Client.{
  WriteError, World, up, map_stored_proc_error, report, ring, call_stored_proc,
}
use postgres_controller_back.Runtime.Errors.{ApiError, map_write_error}
use postgres_controller_back.Runtime.Objects.{Object}
use postgres_controller_back.Runtime.Client.{settle, conclude}

-- What a call whose reply arrives has done if the client got an object out of it.
pub record Succeeded (d : Draw) (p : WriteParams) (o : Object) (done : WriteResult → Object)
    (w w' : World) : Type 0 where
  pub result : WriteResult
  pub reply : Reply
  pub called : pgctl_write d p w.table ≡ ok (reply, w'.table)
  pub version : result.object_version ≡ reply.version
  pub uid : result.uid ≡ reply.uid
  pub made : o ≡ done result

abbrev pub given : Object → World → Outcome ApiError Object × World
given o w = (ok o, w)

abbrev pub refused : ApiError → World → Outcome ApiError Object × World
refused e w = (err e, w)

pub refused-ne-given :
    (e : ApiError) (w : World) (x : Object) (w' : World) → refused e w ≢ given x w'
refused-ne-given e w x w' h = let a : err e ≡ ok x = ap (λ z. z.0) h in cc

pub required_same : {a b : Json} → require (some a) ≡ ok b → b ≡ a
required_same h = cc

-- What a client makes of a call's answer: `done` of a result, and nothing of a definite error.
module _ (d : Draw) (p : WriteParams) (w : World)
    (conclusion : Outcome WriteError WriteResult × World → Outcome ApiError Object × World)
    (done : WriteResult → Object)
    (on_ok : (r : WriteResult) (v : World) → conclusion (ok r, v) ≡ given (done r) v)
    (on_err : (e : PgError) (x : Object) (w' : World)
      → conclusion (err (map_stored_proc_error e), w) ≢ given x w') where
  abbrev answer : Outcome PgError (Reply × Table) → Outcome ApiError Object × World
  answer x =
      conclusion (elim x [ ok a ↦ report false p a w | err e ↦ (err (map_stored_proc_error e), w) ])

  pub call-Succeeded :
      {x : Object} {w' : World}
      → conclusion (call_stored_proc false up d p w) ≡ given x w'
      → Succeeded d p x done w w'
  unfolding call_stored_proc report ring
  call-Succeeded {x} {w'} h = go (pgctl_write d p w.table) refl h
    where
      packed :
          (reply : Reply) (t : Table) (res : WriteResult) (v : World)
          → pgctl_write d p w.table ≡ ok (reply, t)
          → res.object_version ≡ reply.version
          → res.uid ≡ reply.uid
          → t ≡ v.table
          → conclusion (ok res, v) ≡ given x w'
          → Succeeded d p x done w w'
      packed reply t res v q n u e h =
          let h' : given (done res) v ≡ given x w' = sym (on_ok res v) ∙ h in
          let a : ok (done res) ≡ ok x = ap (λ z. z.0) h' in
          record {
            result = res;
            reply = reply;
            called = q ∙ ap (λ s. ok (reply, s)) (e ∙ ap (λ z. z.1.table) h');
            version = n;
            uid = u;
            made = cc;
          }

      replied :
          (reply : Reply) (t : Table)
          → pgctl_write d p w.table ≡ ok (reply, t)
          → answer (ok (reply, t)) ≡ given x w'
          → Succeeded d p x done w w'
      replied reply t q h = elim (Bool-cases reply.changed) [
        | inl b ↦ packed reply t _ _ q refl refl refl (rw b at h)
        | inr b ↦ packed reply t _ _ q refl refl refl (rw b at h)
      ]

      go :
          (v : Outcome PgError (Reply × Table))
          → pgctl_write d p w.table ≡ v
          → answer v ≡ given x w'
          → Succeeded d p x done w w'
      go (err e) q h = absurd (on_err e x w' h)
      go (ok (reply, t)) q h = replied reply t q h

module _ (round : Text → Text) (owners_ok : Json → Bool) (inject : Json → Json → Option Json) where
  pub conclude-Succeeded :
      (d : Draw) (p : WriteParams) (readable : Bool) (o : Object) (done : WriteResult → Object)
      (w : World) {x : Object} {w' : World}
      → conclude round owners_ok inject readable o done (call_stored_proc false up d p w)
        ≡ given x w'
      → Succeeded d p x done w w'
  unfolding settle map_write_error map_stored_proc_error
  conclude-Succeeded d p readable o done w h =
      call-Succeeded d p w (conclude round owners_ok inject readable o done) done (λ r v. refl)
        failed h
    where
      failed :
          (e : PgError) (x : Object) (w' : World)
          → conclude round owners_ok inject readable o done (err (map_stored_proc_error e), w)
            ≢ given x w'
      failed PgError.conflict x w' g = refused-ne-given _ w x w' g
      failed PgError.already_exists x w' g = refused-ne-given _ w x w' g
      failed PgError.status_needs_version x w' g = refused-ne-given _ w x w' g
      failed PgError.not_null x w' g = refused-ne-given _ w x w' g
      failed PgError.out_of_range x w' g = refused-ne-given _ w x w' g
      failed PgError.server_error x w' g = refused-ne-given _ w x w' g
