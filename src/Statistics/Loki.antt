-- ===== src/Statistics/Loki.antt =====
-- `create_loki_log` of src/cbcast/statistics.c: the entry in the form that Loki takes. The calls
-- of cJSON about texts are a second record. The timestamp that `get_current_timestamp_ns` makes is
-- given.
use view_sync.Prelude.{ℕ, List}
use view_sync.Statistics.{CJson}

-- The keys of the envelope and of its labels.
pub data EnvelopeKey : Type 0 where
  streams stream values label host application level : EnvelopeKey

-- The values of the labels.
pub data LabelText : Type 0 where
  cbcast_logs localhost cbc info : LabelText

pub record CJsonText (Json : Type 0) : Type 0 where
  pub create_string : List ℕ → Json
  pub add_string_to_object : Json → EnvelopeKey → LabelText → Json
  pub add_item_to_object : Json → EnvelopeKey → Json → Json
  pub print_unformatted : Json → List ℕ

module _ {Json : Type 0} (c : CJson Json) (t : CJsonText Json) where
  abbrev pub stream_labels : Json
  stream_labels =
      let l₀ = t.add_string_to_object c.create_object label cbcast_logs in
      let l₁ = t.add_string_to_object l₀ host localhost in
      let l₂ = t.add_string_to_object l₁ application cbc in t.add_string_to_object l₂ level info

  -- The array of streams is filled behind its place in the root, which has the same effect as
  -- before.
  unfoldable pub create_loki_log : List ℕ → Json → Json
  create_loki_log timestamp log_message =
      let stream₀ = t.add_item_to_object c.create_object stream stream_labels in
      let entry₀ = c.add_item_to_array c.create_array (t.create_string timestamp) in
      let entry = c.add_item_to_array entry₀ (t.create_string (t.print_unformatted log_message)) in
      let values₀ = c.add_item_to_array c.create_array entry in
      let stream₁ = t.add_item_to_object stream₀ values values₀ in
      t.add_item_to_object c.create_object streams (c.add_item_to_array c.create_array stream₁)
