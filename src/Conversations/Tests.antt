-- ===== src/Conversations/Tests.antt =====
-- The theorems on conversations at concrete inputs.
use chat_to_sales.Session.{ok}
use chat_to_sales.Conversations.Reactions.{new_reaction, toggle_reaction}
use chat_to_sales.Models.{Message, Content, MessageReaction}
use chat_to_sales.Samples.{later_env, sample_db, sample_env}
use chat_to_sales.Conversations.Toggle.{toggle_reaction_lem, toggled, emoji_of}
use chat_to_sales.Base.{
  refl, ◌&&◌, str_eq, Option, none, if◌then◌else◌, some, ◌∷◌, String, arith, ◌≡◌, [], List,
}
use chat_to_sales.Conversations.Redelivery.{handle_inbound_again, handle_inbound-IsSingle, IsSingle}
use chat_to_sales.Conversations.Service.{handle_inbound, Inbound}

abbrev question : Inbound
question = record {
  tenant_id = "t1";
  channel = "whatsapp";
  sender_id = "0802";
  content = Content.text "How much is rice?";
  external_id = some "wamid-1";
  customer_id = none;
  sender_name = some "Ada";
}

handle_inbound_again_example :
    let db' = (handle_inbound sample_env "m1" question sample_db).1 in
    (id : String) × (r : Option Message) × (handle_inbound sample_env "m1" question sample_db
      ≡ (ok (id, r), db'))
    × (handle_inbound later_env "m2" question db' ≡ (ok (id, none), db'))
handle_inbound_again_example =
    handle_inbound_again sample_env later_env "m1" "m2" "wamid-1" question sample_db refl

no_conversations : IsSingle []
unfolding IsSingle
no_conversations t s ch = omega arith

handle_inbound-IsSingle_example :
    IsSingle (handle_inbound sample_env "m1" question sample_db).1.conversations
handle_inbound-IsSingle_example =
    handle_inbound-IsSingle sample_env "m1" question sample_db no_conversations

abbrev two_reactions : List MessageReaction
two_reactions = new_reaction "m1" "t1" "u1" "+1" ∷ new_reaction "m1" "t1" "u2" "ok" ∷ []

toggle_reaction_lem_example :
    emoji_of "m1" "u1" (toggle_reaction "m1" "t1" "u1" "+1" two_reactions) ≡ (
      if str_eq "m1" "m1" && str_eq "u1" "u1"
      then toggled "+1" (emoji_of "m1" "u1" two_reactions)
      else emoji_of "m1" "u1" two_reactions)
toggle_reaction_lem_example = toggle_reaction_lem "m1" "t1" "u1" "+1" "m1" "u1" two_reactions
