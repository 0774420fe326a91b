-- ===== src/Notifications/Steps.antt =====
-- Runs of a job: changes of other tables and sending transactions, in any order, where each notice
-- that is sent satisfies a given predicate.
use chat_to_sales.Base.{Memᴰ-append, ◌∙◌, ap, inr, inl, ◌⊎◌, ◌≡◌}
use mathlib.Core.List.{Memᴰ}
use chat_to_sales.Notifications.Outcomes.{posted, logged, nothing, Sends}
use chat_to_sales.Notifications.Once.{Sends-Once, keep-Once, Once}
use chat_to_sales.World.{World, Delivery}
use chat_to_sales.Models.{Env}
use chat_to_sales.Notifications.Service.{Notice}

pub data Steps (P : Notice → Type 0) (w : World) : World → Type 0 where
  still :
      (w' : World)
      → w'.db.notifications ≡ w.db.notifications
      → w'.delivered ≡ w.delivered
      → Steps P w w'
  then_write :
      (v w' : World)
      → Steps P w v
      → w'.db.notifications ≡ v.db.notifications
      → w'.delivered ≡ v.delivered
      → Steps P w w'
  then_send :
      (v w' : World) (e : Env) (n : Notice) → Steps P w v → P n → Sends e n v w' → Steps P w w'

-- The notice that a message was sent for.
pub record SentFor (P : Notice → Type 0) (n : Notice) (d : Delivery) : Type 0 where
  pub allowed : P n
  pub same_event : d.event_id ≡ n.event_id
  pub same_recipient : d.to ≡ n.recipient
  pub same_content : d.content ≡ n.message_text

module _ {P : Notice → Type 0} where
  pub Steps-Once : (w w' : World) → Steps P w w' → Once w → Once w'
  Steps-Once w w' (Steps.still _ p q) once = keep-Once w w' p q once
  Steps-Once w w' (Steps.then_write v _ before p q) once =
      keep-Once v w' p q (Steps-Once w v before once)
  Steps-Once w w' (Steps.then_send v _ e n before allowed sent) once =
      Sends-Once e n v w' sent (Steps-Once w v before once)

  Sends-delivered :
      (e : Env) (n : Notice) (v w : World) (d : Delivery)
      → Sends e n v w
      → P n
      → Memᴰ d w.delivered
      → Memᴰ d v.delivered ⊎ SentFor P n d
  Sends-delivered e n v w d (nothing p q) allowed m = inl (rw q at m)
  Sends-delivered e n v w d (logged fresh p q) allowed m = inl (rw q at m)
  Sends-delivered e n v w d (posted x fresh event to content p q) allowed m =
      elim (Memᴰ-append d x v.delivered (rw q at m)) [
        | inl old ↦ inl old
        | inr new ↦ inr (record {
          allowed = allowed;
          same_event = ap (λ (y : Delivery). y.event_id) new ∙ event;
          same_recipient = ap (λ (y : Delivery). y.to) new ∙ to;
          same_content = ap (λ (y : Delivery). y.content) new ∙ content;
        })
      ]

  -- A message that has gone out during a run was sent for a notice that satisfies the predicate.
  pub Steps-delivered :
      (w w' : World) (d : Delivery)
      → Steps P w w'
      → Memᴰ d w'.delivered
      → Memᴰ d w.delivered ⊎ ((n : Notice) × SentFor P n d)
  Steps-delivered w w' d (Steps.still _ p q) m = inl (rw q at m)
  Steps-delivered w w' d (Steps.then_write v _ before p q) m =
      Steps-delivered w v d before (rw q at m)
  Steps-delivered w w' d (Steps.then_send v _ e n before allowed sent) m =
      elim (Sends-delivered e n v w' d sent allowed m) [
        | inl old ↦ Steps-delivered w v d before old
        | inr new ↦ inr (n, new)
      ]
