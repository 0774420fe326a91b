-- ===== src/Conversations/Toggle.antt =====
-- The reactions as what a reader sees of them: for each message and user at most one emoji.
use chat_to_sales.Models.{MessageReaction}
use chat_to_sales.Base.{
  find?-delete, ◌∙◌, ◌++◌, find?-update_where, find?-append_some, [], ◌∷◌, find?-append_none,
  find?-holds, find?-delete_other, inr, refl, inl, arith, ap, eq_of_str_eq, Bool-cases, find?, none,
  str_eq_self, false, true, if◌then◌else◌, some, ◌≡◌, ◌&&◌, str_eq, List, Option, String,
}
use chat_to_sales.Conversations.Reactions.{
  toggle_reaction, toggle_found, upsert_found, with_emoji, delete_reaction, new_reaction, reacts,
  upsert_reaction, get_reaction,
}
use mathlib.Core.Option

unfoldable pub emoji_of : String → String → List MessageReaction → Option String
unfolding get_reaction
emoji_of message_id user_id rows =
    Option.map (λ (r : MessageReaction). r.emoji) (get_reaction message_id user_id rows)

-- What a toggle is for: the same emoji takes it back, any other one takes its place.
abbrev pub toggled : String → Option String → Option String
toggled emoji none = some emoji
toggled emoji (some old) = if str_eq old emoji then none else some emoji

apart :
    (m u m' u' : String) (r : MessageReaction)
    → str_eq m' m && str_eq u' u ≡ false
    → reacts m' u' r ≡ true
    → reacts m u r ≡ false
apart m u m' u' r differ hit =
    let same_message = eq_of_str_eq r.message_id m' (ground arith) in
    let same_user = eq_of_str_eq r.user_id u' (ground arith) in rw (same_message, same_user) differ

new_reaction-reacts : (m t u emoji : String) → reacts m u (new_reaction m t u emoji) ≡ true
new_reaction-reacts m t u emoji = rw (str_eq_self m, str_eq_self u) refl

module _ (m t u emoji : String) where
  upsert_found-same :
      (o : Option MessageReaction) (rows : List MessageReaction)
      → get_reaction m u rows ≡ o
      → get_reaction m u (upsert_found m t u emoji o rows)
        ≡ some (elim o [ none ↦ new_reaction m t u emoji | some r ↦ with_emoji emoji r ])
  unfolding get_reaction upsert_found
  upsert_found-same none rows h =
      find?-append_none (reacts m u) rows (new_reaction m t u emoji ∷ []) h
      ∙ rw (new_reaction-reacts m t u emoji) refl
  upsert_found-same (some r) rows h =
      find?-update_where (reacts m u) (reacts m u) (with_emoji emoji) rows (λ x. refl)
      ∙ rw (h, find?-holds (reacts m u) rows r h) refl

  upsert-same :
      (rows : List MessageReaction) → emoji_of m u (upsert_reaction m t u emoji rows) ≡ some emoji
  unfolding emoji_of upsert_reaction
  upsert-same rows =
      ap (Option.map (λ (r : MessageReaction). r.emoji))
        (upsert_found-same (get_reaction m u rows) rows refl)
      ∙ written (get_reaction m u rows)
    where
      written :
          (o : Option MessageReaction)
          → Option.map
              (λ (r : MessageReaction). r.emoji)
              (some (elim o [ none ↦ new_reaction m t u emoji | some r ↦ with_emoji emoji r ]))
            ≡ some emoji
      written none = refl
      written (some r) = refl

  module _ (m' u' : String) (other : str_eq m' m && str_eq u' u ≡ false) where
    kept :
        (o : Option MessageReaction) (rows : List MessageReaction)
        → find? (reacts m' u') rows ≡ o
        → Option.map (λ x. if reacts m u x then with_emoji emoji x else x) o ≡ o
    kept none rows h = refl
    kept (some r) rows h = rw (apart m u m' u' r other (find?-holds (reacts m' u') rows r h)) refl

    new_elsewhere : reacts m' u' (new_reaction m t u emoji) ≡ false
    new_elsewhere = elim (Bool-cases (reacts m' u' (new_reaction m t u emoji))) [
      | inr miss ↦ miss
      | inl hit ↦ absurd (
          cc
            (new_reaction-reacts m t u emoji, apart m u m' u' (new_reaction m t u emoji) other hit))
    ]

    append_elsewhere :
        (o : Option MessageReaction) (rows : List MessageReaction)
        → find? (reacts m' u') rows ≡ o
        → find? (reacts m' u') (rows ++ new_reaction m t u emoji ∷ []) ≡ o
    append_elsewhere none rows h =
        find?-append_none (reacts m' u') rows (new_reaction m t u emoji ∷ []) h
        ∙ rw new_elsewhere refl
    append_elsewhere (some r) rows h =
        find?-append_some (reacts m' u') rows (new_reaction m t u emoji ∷ []) r h

    upsert_found-other :
        (o : Option MessageReaction) (rows : List MessageReaction)
        → get_reaction m' u' (upsert_found m t u emoji o rows) ≡ get_reaction m' u' rows
    unfolding get_reaction upsert_found
    upsert_found-other none rows = append_elsewhere (find? (reacts m' u') rows) rows refl
    upsert_found-other (some x) rows =
        find?-update_where (reacts m' u') (reacts m u) (with_emoji emoji) rows (λ y. refl)
        ∙ kept (find? (reacts m' u') rows) rows refl

    delete-other :
        (rows : List MessageReaction)
        → emoji_of m' u' (delete_reaction m u rows) ≡ emoji_of m' u' rows
    unfolding emoji_of delete_reaction get_reaction
    delete-other rows =
        ap (Option.map (λ (r : MessageReaction). r.emoji)) (
          find?-delete_other (reacts m' u') (reacts m u) rows
            (λ x hit. apart m u m' u' x other hit))

    upsert-other :
        (rows : List MessageReaction)
        → emoji_of m' u' (upsert_reaction m t u emoji rows) ≡ emoji_of m' u' rows
    unfolding emoji_of upsert_reaction
    upsert-other rows =
        ap (Option.map (λ (r : MessageReaction). r.emoji))
          (upsert_found-other (get_reaction m u rows) rows)

    toggle_found-other :
        (o : Option MessageReaction) (rows : List MessageReaction)
        → emoji_of m' u' (toggle_found m t u emoji o rows) ≡ emoji_of m' u' rows
    unfolding toggle_found
    toggle_found-other none rows = upsert-other rows
    toggle_found-other (some r) rows = elim (Bool-cases (str_eq r.emoji emoji)) [
      | inl same ↦ rw same (delete-other rows)
      | inr new ↦ rw new (upsert-other rows)
    ]

  delete-same : (rows : List MessageReaction) → emoji_of m u (delete_reaction m u rows) ≡ none
  unfolding emoji_of delete_reaction get_reaction
  delete-same rows =
      ap (Option.map (λ (r : MessageReaction). r.emoji)) (find?-delete (reacts m u) rows)

  toggle_found-same :
      (o : Option MessageReaction) (rows : List MessageReaction)
      → emoji_of m u (toggle_found m t u emoji o rows)
        ≡ toggled emoji (Option.map (λ (r : MessageReaction). r.emoji) o)
  unfolding toggle_found
  toggle_found-same none rows = upsert-same rows
  toggle_found-same (some r) rows = elim (Bool-cases (str_eq r.emoji emoji)) [
    | inl same ↦ rw same (delete-same rows)
    | inr new ↦ rw new (upsert-same rows)
  ]

  -- The toggle on the rows implements the toggle on what a reader sees: the emoji of this user on this
  -- message is taken back, replaced or set, and the emoji of every other pair of message and user
  -- stays.
  pub toggle_reaction_lem :
      (m' u' : String) (rows : List MessageReaction)
      → emoji_of m' u' (toggle_reaction m t u emoji rows) ≡ (
          if str_eq m' m && str_eq u' u
          then toggled emoji (emoji_of m u rows)
          else emoji_of m' u' rows)
  unfolding toggle_reaction emoji_of
  toggle_reaction_lem m' u' rows = elim (Bool-cases (str_eq m' m && str_eq u' u)) [
    | inr other ↦ rw other (toggle_found-other m' u' other (get_reaction m u rows) rows)
    | inl same ↦
        rw (same, eq_of_str_eq m' m (ground arith), eq_of_str_eq u' u (ground arith))
          (toggle_found-same (get_reaction m u rows) rows)
  ]
