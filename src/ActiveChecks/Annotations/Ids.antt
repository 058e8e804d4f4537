-- ===== src/ActiveChecks/Annotations/Ids.antt =====
-- The IDs that one reconcile leaves are read back by the next.
use soperator.Prelude.{◌≡◌, refl, ◌∙◌, ap, false, List, [], ◌∷◌, ◌++◌, Bytes, nat_beq, All}
use soperator.ActiveChecks.Annotations.{cut_at, split_at, unhandled_ids}
use soperator.Text.{join_commas}

-- An ID has a character, and none of them is a comma.
abbrev pub NoComma : Bytes → Type 0
NoComma = All (λ c. nat_beq c b',' ≡ false)

abbrev pub IsId : Bytes → Type 0
IsId [] = ⊥
IsId (c ∷ id) = NoComma (c ∷ id)

split_at-append :
    (id rest : Bytes) → NoComma id → split_at b',' (id ++ b',' ∷ rest) ≡ id ∷ split_at b',' rest
unfolding split_at
split_at-append [] rest h = refl
split_at-append (c ∷ id) rest (h, hs) = rw h (ap (cut_at false c) (split_at-append id rest hs))

split_at-NoComma : (id : Bytes) → NoComma id → split_at b',' id ≡ id ∷ []
unfolding split_at
split_at-NoComma [] h = refl
split_at-NoComma (c ∷ id) (h, hs) = rw h (ap (cut_at false c) (split_at-NoComma id hs))

no_comma : (id : Bytes) → IsId id → NoComma id
no_comma [] h = absurd h
no_comma (c ∷ id) h = h

split_at-join_commas :
    (id : Bytes) (ids : List Bytes)
    → All IsId (id ∷ ids)
    → split_at b',' (join_commas (id ∷ ids)) ≡ id ∷ ids
unfolding join_commas
split_at-join_commas id [] (h, hs) = split_at-NoComma id (no_comma id h)
split_at-join_commas id (next ∷ ids) (h, hs) =
    split_at-append id (join_commas (next ∷ ids)) (no_comma id h)
    ∙ ap (λ l. id ∷ l) (split_at-join_commas next ids hs)

unhandled_ids-split :
    (id : Bytes) (ids : List Bytes)
    → IsId id
    → unhandled_ids (join_commas (id ∷ ids)) ≡ split_at b',' (join_commas (id ∷ ids))
unfolding unhandled_ids join_commas
unhandled_ids-split [] ids h = absurd h
unhandled_ids-split (c ∷ id) [] h = refl
unhandled_ids-split (c ∷ id) (next ∷ ids) h = refl

-- The list of IDs, each of them not empty and without a comma, comes back from the annotation that
-- it is written to, also if it is empty.
pub unhandled_ids-join_commas :
    (ids : List Bytes) → All IsId ids → unhandled_ids (join_commas ids) ≡ ids
unfolding unhandled_ids join_commas
unhandled_ids-join_commas [] h = refl
unhandled_ids-join_commas (id ∷ ids) (h, hs) =
    unhandled_ids-split id ids h ∙ split_at-join_commas id ids (h, hs)
