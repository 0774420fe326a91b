-- ===== src/Lib.antt =====
-- A model of the order-to-payment core of ChatToSales, a back end for traders who sell over chat, and
-- of the conversations, notifications and timed jobs around it.
--
-- The program. A customer writes what to order, or sends the cart of the store: this opens an order in
-- the state INQUIRY and a session that waits for a YES; the trader confirms the order
-- (CONFIRMED), and it ends as PAID or FAILED. For a confirmed order the payments service makes a
-- checkout; the provider's webhook marks the payment and publishes payment.confirmed, and a
-- listener moves the order to PAID in its own transaction. A sale on credit is a debt linked to an
-- order: settling it or writing it off is announced by credit_sale.status_changed, and a second
-- listener pays the order. Whenever an order is paid, the trader's customer list and the trader's
-- referral are updated with it. The trader edits a catalogue by commands. Messages of customers are
-- stored in conversations. What the program says by itself goes through the notification service,
-- which keeps a row for each event and posts to a provider: the timed jobs remind traders of
-- unanswered orders and of debts, and a broadcast goes to the customers of a list one by one.
--
-- The files, with the code that each models:
--   Base                      shared names, Boolean tests, rows of a table, integers, keys
--   Models                    app/modules/*/models.py as records, app/infra/event_bus.py `Event`; the
--                             database as lists of rows, the environment as a fresh key and a clock
--   Session                   what a service method is: it reads and changes the database and may
--                             raise (app/core/exceptions.py)
--   Orders/StateMachine       app/modules/orders/state_machine.py
--   Orders/Repository         app/modules/orders/repository.py
--   Orders/Service            app/modules/orders/service.py, the methods of `OrderService` that change
--                             an order by the HTTP API or by an event
--   Orders/Dialogue           the dialogue with a customer in app/modules/orders/service.py
--                             (`handle_inbound_customer_message`, `handle_cart_order`,
--                             `_create_image_order`, `_handle_payment_sent`,
--                             `_handle_negotiation_response`, `_smart_parse` and the `_reply` functions),
--                             the number words of orders/nlp.py and the buttons of orders/whatsapp.py
--   Orders/Trader             in the same file, `handle_trader_command`: CONFIRM, CANCEL, PAID, CREDIT, and the
--                             taps on the buttons of a payment and of an order on credit; the parts
--                             of a debt and the counter-offer of `_handle_trader_session`
--   Payments/Repository, Payments/Service, Payments/Handlers
--                             app/modules/payments/, with the listener of
--                             app/modules/orders/handlers.py for credit sales
--   CreditSales/Repository, CreditSales/Service
--                             app/modules/credit_sales/
--   CreditSales/Debts         the DEBT and PAID commands and the settle button of `OrderService`
--   Marketing                 app/modules/marketing/customer_list.py, referrals.py, segments.py,
--                             followup.py, and `send_broadcast_paced` of broadcast.py
--   Conversations             app/modules/conversation/repository.py and service.py
--   World                     the database with the messages that have left the program, and
--                             transactions that raise (app/infra/database.py `begin`)
--   Notifications             app/modules/notifications/service.py, repository.py and handlers.py,
--                             with the lookup of the sender in app/modules/channels/repository.py
--   Redis, Orders/Sessions    app/modules/orders/session.py, over an interface of the store behind
--                             app/infra/cache.py
--   Scheduler                 app/infra/scheduler.py: the jobs for orders, debts and follow-ups
--   Onboarding                app/modules/onboarding/repository.py, the search for a free slug in
--                             service.py, and for a referral code in marketing/referrals.py
--   Catalogue                 the ADD, REMOVE and PRICE commands of `OrderService`
-- Files below these hold the theorems, named for what they prove; Tests files hold examples.
--
-- How state and operations correspond. A table is a list of rows, in the order of insertion; a
-- query by a unique column is the first row that fits, and one that is ordered by created_at takes
-- the first of the latest rows, where the database leaves a tie open. A flush of a changed object
-- is an update of the row with its key. Commits and refreshes change nothing that one session sees
-- and are not written; a listener's transaction that raises gives the database back as it was. An
-- event that is published is appended to a list, which the theorems hand on to a listener; whether
-- a listener is connected is not modelled. A failure of the database's connection is not modelled,
-- so the two branches that log and go on after one are not either. Keys are texts; a fresh one is
-- an argument, and the theorems on sequences of calls say that it is new when it is used.
--
-- Amounts of orders and payments are integers of hundredths, as their columns are Numeric(12, 2);
-- those of credit sales are natural numbers, as the schema wants them above zero; the prices of the
-- catalogue are whole naira. An instant is a number of seconds. `str.lower` of Python and
-- `lower` of SQL are parameters, of which nothing is assumed. A reply or a reminder is kept as its template's name and
-- its values. The only loop that is not over a list, the search for a free slug or code, runs on fuel:
-- one test for each trader and two more, which is proved to be enough.
--
-- The provider of the chat channel is a parameter: its answer to the n-th post, which may be
-- anything, so that what is proved of the jobs holds for every pattern of failures. A post of a message, of
-- buttons, a list or an uploaded image is either taken and answered or not taken; that the provider takes one and the
-- answer is lost is not modelled for these, and what is proved of them says nothing of that case. For images and videos by address it is.
-- A message that it accepted stays sent when the transaction that sent it is rolled back. A database constraint is modelled where the code relies on its error: the one debt for each order. The clock stands still
-- during one run of a job or a broadcast, and no other session writes meanwhile. What Redis holds of
-- a trader, when the job for debts asks for it, is a parameter as well. The text of a number is a
-- parameter; where it matters, different numbers are assumed to have different texts.
--
-- In the dialogue with a customer the parsers of orders/nlp.py, which ask a language model, and the
-- readings of a text (numbers, words, letter case) are parameters that may answer anything, so that what
-- is proved holds for every wording; so are Redis and JSON, with their documented laws. The
-- items of one order are taken in the order of their insertion.
--
-- The theorems on any sequence of calls of the order service speak of nine methods (`LifecycleCall` in
-- Orders/Service/History), not of the dialogues: those create orders without looking for an open one, and CREDIT marks
-- an order in any state. Of the records in Redis that carry a catalogue, the commands renew the one by phone.
--
-- Not modelled: the other commands and sessions of traders, image
-- inquiries, the parsing of messages by regular expressions and language models, the dialogue of onboarding, the
-- sending of scheduled messages, the other timed jobs, the connection of channels, accounts, reports, and the rendering
-- of images and videos; the listings, which only read; and what stands on services outside the
-- repository.
pub mod Base
pub mod Models
pub mod Session
pub mod Samples
pub mod Orders
pub mod Marketing
pub mod Payments
pub mod CreditSales
pub mod Catalogue
pub mod Conversations
pub mod World
pub mod Redis
pub mod Notifications
pub mod Onboarding
pub mod Scheduler
