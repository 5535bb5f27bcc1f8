-- ===== src/World.antt =====
-- The state that the services share, and what one call reads from outside.
use expense_management.Prelude.{
  ℕ, String, List, ◌++◌, Result, ok, err, Exec, ◌>>=◌, ◌≡◌, refl, ap, ◌∙◌,
}
use expense_management.Events.{Event}
use expense_management.Gateway.Types.{PaymentJob, ApiReply}

-- The database, the job queue of the gateway's client, and the goroutines that `Publish` started and
-- that have not run yet.
pub record World (Db H : Type 0) : Type 0 where
  pub db : Db
  pub job_queue : List PaymentJob
  pub spawned : List (H × Event)

-- The readings of the clock, in their order, a fresh UUID, and the gateway's answer.
pub record Env : Type 0 where
  pub clock : ℕ → ℕ
  pub uuid : String
  pub api : ApiReply String

module _ {Db H E A : Type 0} where
  abbrev pub on_db : Exec Db E A → Exec (World Db H) E A
  on_db m w = let (r, db') = m w.db in (r, record w { db = db' })

  abbrev pub read_db : (Db → Result E A) → Exec (World Db H) E A
  read_db m w = (m w.db, w)

abbrev pub spawn : {Db H E : Type 0} → List (H × Event) → Exec (World Db H) E (Unit {0})
spawn started w = (ok tt, record w { spawned = w.spawned ++ started })

-- A bind after an access to the database, by the result of the access.
module _ {Db H E A B : Type 0} (f : A → Exec (World Db H) E B) (w : World Db H)
    (m : Exec Db E A) where
  abbrev after : Result E A → Result E B × World Db H
  after (ok a) = f a (record w { db = (m w.db).1 })
  after (err e) = (err e, record w { db = (m w.db).1 })

  bind-after :
      (r : Result E A)
      → (m w.db).0 ≡ r
      → (elim r as (λ x. Result E B × World Db H) [
        | ok a ↦ f a (record w { db = (m w.db).1 })
        | err e ↦ (err e, record w { db = (m w.db).1 })
      ])
        ≡ after r
  bind-after (ok a) h = refl
  bind-after (err e) h = refl

  pub on_db-bind_ok :
      {a : A} → (m w.db).0 ≡ ok a → (on_db m >>= f) w ≡ f a (record w { db = (m w.db).1 })
  on_db-bind_ok h = bind-after (m w.db).0 refl ∙ ap after h

  pub on_db-bind_err :
      {e : E} → (m w.db).0 ≡ err e → (on_db m >>= f) w ≡ (err e, record w { db = (m w.db).1 })
  on_db-bind_err h = bind-after (m w.db).0 refl ∙ ap after h

module _ {Db H Row : Type 0} (rows : Db → List Row) where
  -- Nothing that the services share has changed.
  abbrev pub IsUntouched : World Db H → World Db H → Type 0
  IsUntouched w v = (rows v.db ≡ rows w.db) × (v.spawned ≡ w.spawned) × (v.job_queue ≡ w.job_queue)
