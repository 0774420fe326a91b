-- ===== src/Session.antt =====
-- A service method: it reads and changes the database and may raise. What was written before a
-- raise is in the state that comes back beside the error; that the methods write nothing before
-- they raise is proved for each.
use chat_to_sales.Base.{
  refl, inr, inl, ◌⊎◌, ◌≡◌, String, Bool, true, false, Option, none, some, ◌∷◌, [], ◌++◌,
}
use chat_to_sales.Models.{Db, Event, OrderState, PaymentStatus}

-- Why a request conflicts with the state of the record.
pub data Reason : Type 0 where
  bad_transition : String → String → String → Reason
  not_confirmed : OrderState → Reason
  no_amount : Reason
  active_payment : String → PaymentStatus → Reason
  closed_order : OrderState → Reason

-- app/core/exceptions.py, and Python's `ValueError`.
pub data Error : Type 0 where
  not_found : String → String → Error
  conflict : Reason → Error
  no_result : Error
  not_active no_conversation max_reminders_sent provider_error : Error
  -- a unique constraint of the database, by its name
  integrity_error : String → Error
  -- Python's `AttributeError`
  no_attribute : String → Error

pub data Result (A : Type 0) : Type 0 where
  ok : A → Result A
  err : Error → Result A

abbrev pub Action : Type 0 → Type 0
Action A = Db → Result A × Db

module _ {A : Type 0} where
  abbrev pub pure : A → Action A
  pure a db = (ok a, db)

  abbrev pub raise : Error → Action A
  raise e db = (err e, db)

  -- A query.
  abbrev pub gets : (Db → A) → Action A
  gets f db = (ok (f db), db)

  -- `if x is None: raise ...`
  abbrev pub or_raise : Option A → Error → Action A
  or_raise none e = raise e
  or_raise (some a) _ = pure a

  -- A computation that touches no table.
  abbrev pub lift : Result A → Action A
  lift r db = (r, db)

-- A statement that writes.
abbrev pub modify : (Db → Db) → Action (Unit {0})
modify f db = (ok tt, f db)

-- `if test: raise ...`
abbrev pub raise_if : Bool → Error → Action (Unit {0})
raise_if true e = raise e
raise_if false e = pure tt

infixl 5 ◌>>=◌ ◌>>◌
abbrev pub ◌>>=◌ : {A B : Type 0} → Action A → (A → Action B) → Action B
◌>>=◌ m f db = let (r, db') = m db in elim r [ ok a ↦ f a db' | err e ↦ (err e, db') ]

abbrev pub ◌>>◌ : {A B : Type 0} → Action A → Action B → Action B
m >> k = m >>= λ _. k

-- `await publish_event(...)`, for which a listener may or may not be there: the event is recorded.
abbrev pub publish : Event → Action (Unit {0})
publish e = modify (λ db. record db { events = db.events ++ e ∷ [] })

-- `try: ... except ConflictError: return None`; any other error goes on.
abbrev pub none_on_conflict : {A : Type 0} → Action A → Action (Option A)
none_on_conflict m db =
    let (r, db') = m db in
    elim r [
      | ok a ↦ (ok (some a), db')
      | err e ↦ elim e [ conflict why ↦ (ok none, db') | other ↦ (err other, db') ]
    ]

-- To split on how a method ended and keep the equation.
pub Result-cases :
    {A : Type 0} (r : Result A) → ((a : A) × (r ≡ ok a)) ⊎ ((x : Error) × (r ≡ err x))
Result-cases (ok a) = inl (a, refl)
Result-cases (err x) = inr (x, refl)
