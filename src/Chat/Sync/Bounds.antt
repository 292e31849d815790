-- ===== src/Chat/Sync/Bounds.antt =====
-- What `takeBatch` takes keeps to the limits of the batch API.
use wos_sfc.Prelude.{
  ℕ, ◌+◌, ◌≤◌, ◌≡◌, sym, ◌∙◌, ap, false, List, [], ◌∷◌, ◌++◌, arith, inl, inr, ◌⊎◌, Bool-cases,
  Option-cases, length, length-append,
}
use wos_sfc.Chat.Sync.State.{Item, World}
use wos_sfc.Chat.Sync.Batch.{
  eligible_message, take_loop, is_full, text_length, content_of, with_candidates,
}

abbrev pub chars_of : List Item → ℕ
chars_of [] = 0
chars_of (i ∷ items) = text_length i.text + chars_of items

-- At most 20 texts, and at most 2000 units of text unless it is a single text.
abbrev pub IsBatch : List Item → Type 0
IsBatch items = (length items ≤ 20) × ((length items ≤ 1) ⊎ (chars_of items ≤ 2000))

chars_of-append :
    (items : List Item) (i : Item)
    → chars_of (items ++ i ∷ []) ≡ chars_of items + text_length i.text
chars_of-append [] i = omega arith
chars_of-append (x ∷ items) i = omega (arith, chars_of-append items i)

room-IsBatch :
    (items : List Item) (i : Item)
    → is_full items (chars_of items) i.text ≡ false
    → IsBatch (items ++ i ∷ [])
room-IsBatch items i room = ground (arith, length-append items (i ∷ []), chars_of-append items i)

-- The loop of `takeBatch` gives such a batch, and counts its units.
pub take_loop-IsBatch :
    (ids : List ℕ) (items : List Item) (chars : ℕ) (w : World)
    → chars ≡ chars_of items
    → IsBatch items
    → IsBatch (take_loop ids items chars w).1
unfolding take_loop
take_loop-IsBatch [] items chars w e b = b
take_loop-IsBatch (id ∷ rest) items chars w e b = elim (Option-cases (eligible_message w id)) [
  | inl gone ↦ rw (gone, take_loop) (take_loop-IsBatch rest items chars _ e b)
  | inr (m, found) ↦
      rw (found, take_loop)
        (elim (Bool-cases (is_full items chars (content_of m))) [
          | inl full ↦ rw full b
          | inr room ↦ rw room (
              take_loop-IsBatch rest _ _ (with_candidates rest id w)
                (ap (λ (n : ℕ). n + text_length (content_of m)) e
                  ∙ sym (chars_of-append items (record { id = id; text = content_of m })))
                (room-IsBatch items (record { id = id; text = content_of m }) (rw e at room)))
        ])
]
