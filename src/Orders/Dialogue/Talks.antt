-- ===== src/Orders/Dialogue/Talks.antt =====
-- Runs of the dialogue: messages to given recipients and changes of orders that are inquiries, one
-- after another; what such a run leaves of the orders and of what went out.
use mathlib.Core.List.{Memᴰ}
use chat_to_sales.Orders.Service.History.{order_of}
use chat_to_sales.Notifications.Steps.{Steps}
use chat_to_sales.Orders.Repository.{new_order, NewOrder}
use chat_to_sales.Notifications.Outcomes.{Sends-rest, Sends}
use chat_to_sales.World.{World}
use chat_to_sales.Notifications.Service.{Notice}
use chat_to_sales.Models.{Db, Env, Order, inquiry, failed}
use chat_to_sales.Orders.Service.Changes.{order_id}
use chat_to_sales.Base.{
  find?-update_where_key, refl, row_unique, [], Bool-cases, has_key, ◌∷◌, update_where, ◌++◌,
  find?-append_some, update_where-IsKeyed, some, none, ap, append-IsKeyed, ◌∙◌, sym, IsKeyed, ◌⊎◌,
  List, subst, ◌≡◌, String, inl, inr,
}

-- What the dialogue may make of an order: it was an inquiry, and is one or has failed.
pub record Negotiated (o o' : Order) : Type 0 where
  pub was_inquiry : o.state ≡ inquiry
  pub open_or_failed : (o'.state ≡ inquiry) ⊎ (o'.state ≡ failed)
  pub same_id : o'.id ≡ o.id
  pub same_tenant : o'.tenant_id ≡ o.tenant_id
  pub same_conversation : o'.conversation_id ≡ o.conversation_id
  pub same_customer : o'.customer_phone ≡ o.customer_phone

pub data Turn (e : Env) (xs ys : List Order) : Type 0 where
  same : ys ≡ xs → Turn e xs ys
  opened :
      (n : NewOrder) → order_of e.fresh_id xs ≡ none → ys ≡ xs ++ new_order e n ∷ [] → Turn e xs ys
  revised :
      (r : Order) (f : Order → Order)
      → Memᴰ r xs
      → ((x : Order) → (f x).id ≡ x.id)
      → Negotiated r (f r)
      → ys ≡ update_where (has_key order_id r.id) f xs
      → Turn e xs ys

pub data Talks (P : Notice → Type 0) (e : Env) (w : World) : World → Type 0 where
  still :
      (w' : World)
      → w'.db.notifications ≡ w.db.notifications
      → w'.delivered ≡ w.delivered
      → w'.db.orders ≡ w.db.orders
      → Talks P e w w'
  said :
      (v w' : World) (f : Env) (n : Notice) → Talks P e w v → P n → Sends f n v w' → Talks P e w w'
  turned :
      (v w' : World)
      → Talks P e w v
      → w'.db.notifications ≡ v.db.notifications
      → w'.delivered ≡ v.delivered
      → Turn e v.db.orders w'.db.orders
      → Talks P e w w'

-- What has become of an order.
abbrev pub Treated : Order → Order → Type 0
Treated o o' = (o' ≡ o) ⊎ Negotiated o o'

Treated-trans : (o p q : Order) → Treated o p → Treated p q → Treated o q
Treated-trans o p q (inl kept) b = subst (λ x. Treated x q) kept b
Treated-trans o p q (inr a) (inl kept) = inr (subst (Negotiated o) (sym kept) a)
Treated-trans o p q (inr a) (inr b) = inr record {
  was_inquiry = a.was_inquiry;
  open_or_failed = b.open_or_failed;
  same_id = b.same_id ∙ a.same_id;
  same_tenant = b.same_tenant ∙ a.same_tenant;
  same_conversation = b.same_conversation ∙ a.same_conversation;
  same_customer = b.same_customer ∙ a.same_customer;
}

revised_row :
    (j : String) (r : Order) (f : Order → Order) (o : Order) (xs : List Order)
    → IsKeyed order_id xs
    → Memᴰ r xs
    → ((x : Order) → (f x).id ≡ x.id)
    → Negotiated r (f r)
    → order_of j xs ≡ some o
    → (o' : Order) × (order_of j (update_where (has_key order_id r.id) f xs) ≡ some o')
      × Treated o o'
revised_row j r f o xs keyed m keep a h = elim (Bool-cases (has_key order_id r.id o)) [
  | inl hit ↦
      let same_row : o ≡ r = row_unique order_id j xs o r keyed m h hit in
      (
        f o,
        rw (find?-update_where_key order_id j (has_key order_id r.id) f xs keep, h) (rw hit),
        inr (subst (λ x. Negotiated x (f x)) (sym same_row) a),
      )
  | inr miss ↦ (
    o,
    rw (find?-update_where_key order_id j (has_key order_id r.id) f xs keep, h) (rw miss),
    inl refl,
  )
]

Turn-Treated :
    (e : Env) (j : String) (o : Order) (xs ys : List Order)
    → IsKeyed order_id xs
    → order_of j xs ≡ some o
    → Turn e xs ys
    → (o' : Order) × (order_of j ys ≡ some o') × Treated o o'
Turn-Treated e j o xs ys keyed h (Turn.same p) = (o, rw p h, inl refl)
Turn-Treated e j o xs ys keyed h (Turn.opened n new p) =
    (o, rw p (find?-append_some (has_key order_id j) xs (new_order e n ∷ []) o h), inl refl)
Turn-Treated e j o xs ys keyed h (Turn.revised r f m keep a p) =
    rw p (revised_row j r f o xs keyed m keep a h)

Turn-IsKeyed :
    (e : Env) (xs ys : List Order) → IsKeyed order_id xs → Turn e xs ys → IsKeyed order_id ys
Turn-IsKeyed e xs ys keyed (Turn.same p) = subst (IsKeyed order_id) (sym p) keyed
Turn-IsKeyed e xs ys keyed (Turn.opened n new p) =
    subst (IsKeyed order_id) (sym p) (append-IsKeyed order_id xs (new_order e n) keyed new)
Turn-IsKeyed e xs ys keyed (Turn.revised r f m keep a p) =
    subst (IsKeyed order_id) (sym p)
      (update_where-IsKeyed order_id (has_key order_id r.id) f xs keep keyed)

module _ {P : Notice → Type 0} {e : Env} where
  pub Talks-IsKeyed :
      (w w' : World) → Talks P e w w' → IsKeyed order_id w.db.orders → IsKeyed order_id w'.db.orders
  Talks-IsKeyed w w' (Talks.still _ p q r) keyed = subst (IsKeyed order_id) (sym r) keyed
  Talks-IsKeyed w w' (Talks.said v _ f n before ok sent) keyed =
      subst (IsKeyed order_id) (sym (ap (λ (d : Db). d.orders) (Sends-rest f n v w' sent)))
        (Talks-IsKeyed w v before keyed)
  Talks-IsKeyed w w' (Talks.turned v _ before p q t) keyed =
      Turn-IsKeyed e v.db.orders w'.db.orders (Talks-IsKeyed w v before keyed) t

  pub Talks-Treated :
      (w w' : World) (j : String) (o : Order)
      → Talks P e w w'
      → IsKeyed order_id w.db.orders
      → order_of j w.db.orders ≡ some o
      → (o' : Order) × (order_of j w'.db.orders ≡ some o') × Treated o o'
  Talks-Treated w w' j o (Talks.still _ p q r) keyed h = (o, rw r h, inl refl)
  Talks-Treated w w' j o (Talks.said v _ f n before ok sent) keyed h =
      let (o', found, treated) = Talks-Treated w v j o before keyed h in
      (o', ap (λ (d : Db). order_of j d.orders) (Sends-rest f n v w' sent) ∙ found, treated)
  Talks-Treated w w' j o (Talks.turned v _ before p q t) keyed h =
      let (o₁, found, treated) = Talks-Treated w v j o before keyed h in
      let (o₂, found', treated') =
        Turn-Treated e j o₁ v.db.orders w'.db.orders (Talks-IsKeyed w v before keyed) found t in
      (o₂, found', Treated-trans o o₁ o₂ treated treated')

  -- As a run of a job that sends.
  pub Talks-Steps : (w w' : World) → Talks P e w w' → Steps P w w'
  Talks-Steps w w' (Talks.still _ p q r) = Steps.still w' p q
  Talks-Steps w w' (Talks.said v _ f n before ok sent) =
      Steps.then_send v w' f n (Talks-Steps w v before) ok sent
  Talks-Steps w w' (Talks.turned v _ before p q t) =
      Steps.then_write v w' (Talks-Steps w v before) p q
