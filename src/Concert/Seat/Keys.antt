-- ===== src/Concert/Seat/Keys.antt =====
-- Seat keys are told apart, and a key is taken apart into its row and its column.
use soldesk.Prelude.{ℕ, ◌≡◌, refl, ap, sym, ◌∙◌, String, List, [], ◌∷◌, arith}
use soldesk.Js.Text.{print, split}
use soldesk.Js.Text.Decimal.{print-injective, print-Lacks, split-append, split_of_Lacks}
use soldesk.Js.Value.{text}
use soldesk.Concert.Seat.{create_seat_key, part}

split-create_seat_key :
    (row col : ℕ) → split 45 (create_seat_key row col) ≡ print row ∷ print col ∷ []
unfolding create_seat_key
split-create_seat_key row col =
    split-append 45 (print row) (print col) (print-Lacks 45 row (omega arith)) refl
    ∙ ap (print row ∷◌) (split_of_Lacks 45 (print col) (print-Lacks 45 col (omega arith)))

head_or : List String → String
head_or [] = ""
head_or (w ∷ ws) = w

second_or : List String → String
second_or [] = ""
second_or (w ∷ ws) = head_or ws

-- Two seats with one key are one seat.
pub create_seat_key-injective :
    (row col row' col' : ℕ)
    → create_seat_key row col ≡ create_seat_key row' col'
    → (row ≡ row') × (col ≡ col')
unfolding head_or second_or
create_seat_key-injective row col row' col' e =
    let parts : print row ∷ print col ∷ [] ≡ print row' ∷ print col' ∷ [] =
      sym (split-create_seat_key row col) ∙ ap (split 45) e ∙ split-create_seat_key row' col' in
    (print-injective row row' (ap head_or parts), print-injective col col' (ap second_or parts))

-- The parts of a key are the decimal texts of the row and of the column.
pub part-create_seat_key :
    (row col : ℕ)
    → (part (split 45 (create_seat_key row col)) 0 ≡ text (print row))
      × (part (split 45 (create_seat_key row col)) 1 ≡ text (print col))
unfolding part
part-create_seat_key row col = rw (split-create_seat_key row col) (refl, refl)
