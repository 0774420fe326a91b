-- ===== src/World.antt =====
-- The database together with what has left the program: the messages that the provider of the
-- channel has accepted. A transaction that raises gives the database back and not the messages.
use mathlib.Core.List.{Memᴰ}
use chat_to_sales.Base.{Option, inr, sym, refl, subst, inl, [], ◌∷◌, ap, ◌≡◌, List, Bool, ℕ, String}
use chat_to_sales.Models.{Content, Db}
use chat_to_sales.Session.{Result-cases, Error, err, Result, ok, Action}

pub record Button : Type 0 where
  pub id : String
  pub title : String

-- What goes with the text of a message: buttons, a list to pick from, or an image or a video with a caption, named by
-- the provider's key or by an address.
pub data Attachment : Type 0 where
  plain : Attachment
  interactive : List Button → Attachment
  image image_url video_url : String → Option String → Attachment
  -- the label of the button, and the rows of the sections
  list_picker : String → List (String × List Button) → Attachment

-- A message that the provider accepted, with the key of the event for which it was sent, which the
-- message itself does not carry.
pub record Delivery : Type 0 where
  pub event_id : String
  pub via : String
  pub to : String
  pub content : Content
  pub attachment : Attachment

pub record World : Type 0 where
  pub db : Db
  pub delivered : List Delivery
  -- the number of posts so far, accepted or not
  pub posts : ℕ

-- The provider outside the repository: its answer to the n-th post, which may be anything.
abbrev pub Provider : Type 0
Provider = ℕ → Delivery → Bool

abbrev pub Sending : Type 0 → Type 0
Sending A = World → Result A × World

-- A method of the database alone.
abbrev pub on_db : {A : Type 0} → Action A → Sending A
on_db m w = let (r, db') = m w.db in (r, record w { db = db' })

infixl 5 ◌>>>=◌ ◌>>>◌
abbrev pub after : {A B : Type 0} → (A → Sending B) → World → Result A → Result B × World
after f w (ok a) = f a w
after f w (err e) = (err e, w)

abbrev pub ◌>>>=◌ : {A B : Type 0} → Sending A → (A → Sending B) → Sending B
◌>>>=◌ m f w = let (r, w') = m w in after f w' r

abbrev pub ◌>>>◌ : {A B : Type 0} → Sending A → Sending B → Sending B
m >>> k = m >>>= λ _. k

-- `async with async_session_factory.begin()`: commit, or roll the database back and raise.
abbrev pub begin : {A : Type 0} → Sending A → Sending A
begin m w =
    let (r, w') = m w in elim r [ ok a ↦ (ok a, w') | err e ↦ (err e, record w' { db = w.db }) ]

-- A transaction that goes well is its body.
pub begin-ok :
    {A : Type 0} (m : Sending A) (w w' : World) (a : A) → m w ≡ (ok a, w') → begin m w ≡ (ok a, w')
begin-ok m w w' a h =
    ap (λ r. elim r.0 [ ok b ↦ (ok b, r.1) | err e ↦ (err e, record r.1 { db = w.db }) ]) h

-- `try: ... except Exception`, with a log line as the handler.
abbrev pub attempt : Sending (Unit {0}) → World → World
attempt m w = (m w).1

module _ {A B : Type 0} (m : Sending A) (k : A → Sending B) (w : World) where
  -- How a sequence goes on after a step that succeeded, and after one that raised.
  pub bind-ok : (a : A) → (m w).0 ≡ ok a → (m >>>= k) w ≡ k a (m w).1
  bind-ok a good = ap (after k (m w).1) good

  pub bind-err : (x : Error) → (m w).0 ≡ err x → (m >>>= k) w ≡ (err x, (m w).1)
  bind-err x bad = ap (after k (m w).1) bad

  -- A property of the world that each of two steps keeps.
  pub bind-keeps :
      (Q : World → Type 0)
      → Q (m w).1
      → ((a : A) (v : World) → Q v → Q (k a v).1)
      → Q ((m >>>= k) w).1
  bind-keeps Q first next = elim (Result-cases (m w).0) [
    | inl (a, good) ↦ subst Q (sym (ap (λ r. r.1) (bind-ok a good))) (next a (m w).1 first)
    | inr (x, bad) ↦ subst Q (sym (ap (λ r. r.1) (bind-err x bad))) first
  ]

  -- The same, where more is known after the first step than at the end.
  pub bind-leads :
      (Q R : World → Type 0)
      → Q (m w).1
      → ((v : World) → Q v → R v)
      → ((a : A) (v : World) → Q v → R (k a v).1)
      → R ((m >>>= k) w).1
  bind-leads Q R first stop next = elim (Result-cases (m w).0) [
    | inl (a, good) ↦ subst R (sym (ap (λ r. r.1) (bind-ok a good))) (next a (m w).1 first)
    | inr (x, bad) ↦ subst R (sym (ap (λ r. r.1) (bind-err x bad))) (stop (m w).1 first)
  ]

module _ {S A : Type 0} where
  -- `for x in xs: ...`
  abbrev pub for_each : (A → S → S) → List A → S → S
  for_each step [] s = s
  for_each step (x ∷ xs) s = for_each step xs (step x s)

  pub for_each-keeps :
      (Q : S → Type 0) (step : A → S → S) (xs : List A) (s : S)
      → ((x : A) (t : S) → Memᴰ x xs → Q t → Q (step x t))
      → Q s
      → Q (for_each step xs s)
  for_each-keeps Q step [] s each q = q
  for_each-keeps Q step (x ∷ xs) s each q =
      for_each-keeps Q step xs (step x s) (λ y t m. each y t (Memᴰ.tail m))
        (each x s (Memᴰ.head refl) q)
