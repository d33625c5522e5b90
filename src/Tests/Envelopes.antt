-- ===== src/Tests/Envelopes.antt =====
-- The entry for Loki, with a cJSON of trees.
use view_sync.Prelude.{
  ℕ, ◌≡◌, refl, Option, none, some, List, [], ◌∷◌, ◌++◌, ◌==◌, if◌then◌else◌, ==_refl, ==_ne,
}
use view_sync.Statistics.{Key, CJson}
use view_sync.Statistics.Loki.{
  EnvelopeKey, streams, stream, values, LabelText, CJsonText, create_loki_log,
}
use view_sync.Statistics.Envelope.{key_code, CJsonLaws, HasLabels, create_loki_log_lem}

data Tree : Type 0 where
  empty_object empty_array : Tree
  number : ℕ → Tree
  text : List ℕ → Tree
  label_text : LabelText → Tree
  put : Tree → EnvelopeKey → Tree → Tree
  note : Tree → Key → ℕ → Tree
  attach : Tree → Key → Tree → Tree
  push : Tree → Tree → Tree

abbrev trees : CJson Tree
trees = record {
  create_object = empty_object;
  create_array = empty_array;
  create_number = number;
  add_number_to_object = note;
  add_item_to_array = push;
  add_item_to_object = attach;
}

abbrev tree_texts : CJsonText Tree
tree_texts = record {
  create_string = text;
  add_string_to_object = λ o k l. put o k (label_text l);
  add_item_to_object = put;
  print_unformatted = λ o. 123 ∷ 125 ∷ [];
}

abbrev or_else : Option Tree → Option Tree → Option Tree
or_else none y = y
or_else (some x) y = some x

or_else-none : (x : Option Tree) → or_else x none ≡ x
or_else-none none = refl
or_else-none (some x) = refl

abbrev item_at : Tree → EnvelopeKey → Option Tree
item_at (put o k v) l = or_else (item_at o l) (if key_code k == key_code l then some v else none)
item_at (note o k n) l = item_at o l
item_at (attach o k v) l = item_at o l
item_at _ l = none

abbrev items_of : Tree → List Tree
items_of (push a x) = items_of a ++ (x ∷ [])
items_of _ = []

abbrev tree_laws : CJsonLaws trees tree_texts
tree_laws = record {
  get_object_item = item_at;
  items = items_of;
  get-create = λ k. refl;
  get-add = λ o v k absent. rw (absent, ==_refl (key_code k)) refl;
  get-add_other =
      λ o v k l ne. rw (==_ne (key_code k) (key_code l) ne) (or_else-none (item_at o l));
  label_text = label_text;
  get-add_string = λ o k v absent. rw (absent, ==_refl (key_code k)) refl;
  get-add_string_other =
      λ o k l v ne. rw (==_ne (key_code k) (key_code l) ne) (or_else-none (item_at o l));
  items-create = refl;
  items-add = λ a x. refl;
}

create_loki_log_lem_example :
    (all one labels lines line : Tree) × (tree_laws.get_object_item
        (create_loki_log trees tree_texts (49 ∷ []) empty_object)
        streams
      ≡ some all)
    × (tree_laws.items all ≡ one ∷ [])
    × (tree_laws.get_object_item one stream ≡ some labels)
    × HasLabels trees tree_texts tree_laws labels
    × (tree_laws.get_object_item one values ≡ some lines)
    × (tree_laws.items lines ≡ line ∷ [])
    × (tree_laws.items line ≡ text (49 ∷ []) ∷ text (123 ∷ 125 ∷ []) ∷ [])
create_loki_log_lem_example = create_loki_log_lem trees tree_texts tree_laws (49 ∷ []) empty_object
