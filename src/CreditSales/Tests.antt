-- ===== src/CreditSales/Tests.antt =====
-- The theorems on credit sales at concrete inputs.
use chat_to_sales.Orders.Service.Outcomes.{paid_db}
use chat_to_sales.Payments.Handlers.{is_resolving, handle_credit_sale_status_changed}
use chat_to_sales.CreditSales.Settlement.{
  change_status_pays_order, do_settle_debt_pays, announcement,
}
use chat_to_sales.CreditSales.Changes.{Progress}
use chat_to_sales.CreditSales.Service.{change_status, get_credit_sale, send_reminder}
use chat_to_sales.Orders.Repository.{get_by_id}
use chat_to_sales.Samples.{confirmed_order, later_env, active_sale, sample_env, sample_db}
use chat_to_sales.CreditSales.Fates.{FreshSales, run_sales-Progress, sale_of}
use chat_to_sales.CreditSales.Debts.{
  settle_tapped, handle_debt_settle, pay_debt, settle_found, do_settle_debt,
}
use chat_to_sales.Models.{settled, Env, CreditSale}
use chat_to_sales.Base.{
  ℕ, ◌≤◌, true, if◌then◌else◌, ◌+◌, ◌<◌, ◌∷◌, ◌++◌, some, [], ◌≡◌, refl, str_eq, IsKeyed, List,
  String,
}
use chat_to_sales.CreditSales.Repository.{
  update_sale, increment_reminder, sale_id, get_sale, is_active_sale,
}
use chat_to_sales.CreditSales.History.{
  settle_tap, paid_debt, remind, SaleCall, run_sales, call_sale,
}

-- Lower case for the sample names, which have no capitals.
abbrev same_text : String → String
same_text s = s

abbrev week : List (Env × SaleCall)
week =
    (sample_env, remind "c1" "t1")
    ∷ (later_env, remind "c1" "t1")
    ∷ (later_env, remind "c1" "t1")
    ∷ (later_env, paid_debt "t1" "ada" 500)
    ∷ (later_env, settle_tap "c1" "t1")
    ∷ []

sample_sales-IsKeyed : IsKeyed sale_id sample_db.credit_sales
sample_sales-IsKeyed = (refl, tt)

sample_sales_fresh : FreshSales same_text same_text week sample_db
unfolding call_sale send_reminder get_credit_sale get_sale is_active_sale increment_reminder
    update_sale do_settle_debt settle_found pay_debt handle_debt_settle settle_tapped str_eq
sample_sales_fresh = (refl, (refl, (refl, (refl, (refl, tt)))))

run_sales-Progress_example :
    (c' : CreditSale) × (sale_of "c1" (run_sales same_text same_text week sample_db).credit_sales
      ≡ some c')
    × Progress active_sale c'
run_sales-Progress_example =
    run_sales-Progress same_text same_text week sample_db "c1" active_sale sample_sales-IsKeyed
      sample_sales_fresh (unfold str_eq in refl)

change_status_pays_order_example :
    let db₁ = (change_status settled "c1" "t1" sample_db).1 in
    (db₁.events ≡ [] ++ announcement "t1" active_sale settled ∷ [])
    × (handle_credit_sale_status_changed later_env (announcement "t1" active_sale settled) db₁
        ≡ (if is_resolving settled then paid_db later_env confirmed_order db₁ else db₁))
unfolding get_sale get_by_id str_eq
change_status_pays_order_example =
    change_status_pays_order later_env "c1" "t1" "o1" active_sale settled confirmed_order sample_db
      refl refl refl refl refl refl

do_settle_debt_pays_example :
    (c' : CreditSale) × (sale_of "c1"
        (do_settle_debt same_text same_text "t1" "ada" 500 sample_db).1.credit_sales
      ≡ some c')
    × (◌≡◌ {A = ℕ} 500 0 → c' ≡ active_sale)
    × (0 < 500 → 500 < 1500 → (c'.amount + 50000 + 50 ≡ 150050) × (is_active_sale c'.status ≡ true))
    × (0 < 500 → 1500 ≤ 500 → (c'.amount ≡ 150050) × (c'.status ≡ settled))
unfolding is_active_sale str_eq
do_settle_debt_pays_example =
    do_settle_debt_pays same_text same_text "t1" "ada" 500 active_sale sample_db
      sample_sales-IsKeyed refl
