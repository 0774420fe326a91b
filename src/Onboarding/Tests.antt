-- ===== src/Onboarding/Tests.antt =====
-- The search for a slug at a concrete input, with numbers written as tallies.
use chat_to_sales.Onboarding.Repository.{slug_exists}
use chat_to_sales.Samples.{sample_db}
use chat_to_sales.Onboarding.Slugs.{generate_unique_slug}
use chat_to_sales.Base.{
  refl, ap, arith, sym, ◌∙◌, false, some, ◌≡◌, zero, append_text, suc, String, ℕ,
}
use chat_to_sales.Onboarding.Slugs.Ends.{generate_unique_slug_lem, IsInjective}
use Prim.Native.String
use text.Mathlib.TextLemmas

abbrev tally : ℕ → String
tally zero = ""
tally (suc n) = append_text (tally n) "i"

count-tally : (n : ℕ) → String.count (tally n) ≡ n
count-tally zero = refl
count-tally (suc n) = TextLemmas.length-append (tally n) "i" ∙ omega (arith, count-tally n)

tally-IsInjective : IsInjective tally
tally-IsInjective a b same = sym (count-tally a) ∙ ap String.count same ∙ count-tally b

generate_unique_slug_lem_example :
    (s : String) × (generate_unique_slug tally "mama-caro" sample_db ≡ some s)
    × (slug_exists sample_db s ≡ false)
generate_unique_slug_lem_example =
    generate_unique_slug_lem tally "mama-caro" sample_db tally-IsInjective
