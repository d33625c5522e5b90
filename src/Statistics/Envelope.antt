-- ===== src/Statistics/Envelope.antt =====
-- The form of the entry that `create_loki_log` of src/cbcast/statistics.c makes.
use view_sync.Prelude.{ℕ, ◌≡◌, ◌≢◌, ap, ◌∙◌, Option, none, some, List, [], ◌∷◌, ◌++◌, arith}
use view_sync.Statistics.{CJson}
use view_sync.Statistics.Loki.{
  EnvelopeKey, streams, stream, values, label, host, application, level, LabelText, cbcast_logs,
  localhost, cbc, info, CJsonText, stream_labels, create_loki_log,
}

-- A number for each key, that tells it from the others.
abbrev pub key_code : EnvelopeKey → ℕ
key_code streams = 0
key_code stream = 1
key_code values = 2
key_code label = 3
key_code host = 4
key_code application = 5
key_code level = 6

-- What cJSON documents of the calls: `cJSON_GetObjectItem` finds the first item that was added
-- under a key, and the items of an array are in the order in which they were added.
pub record CJsonLaws {Json : Type 0} (c : CJson Json) (t : CJsonText Json) : Type 0 where
  pub get_object_item : Json → EnvelopeKey → Option Json
  pub items : Json → List Json
  pub get-create : (k : EnvelopeKey) → get_object_item c.create_object k ≡ none
  pub get-add :
      (o v : Json) (k : EnvelopeKey)
      → get_object_item o k ≡ none
      → get_object_item (t.add_item_to_object o k v) k ≡ some v
  pub get-add_other :
      (o v : Json) (k l : EnvelopeKey)
      → key_code k ≢ key_code l
      → get_object_item (t.add_item_to_object o k v) l ≡ get_object_item o l
  -- `cJSON_AddStringToObject` adds a text under a key.
  pub label_text : LabelText → Json
  pub get-add_string :
      (o : Json) (k : EnvelopeKey) (v : LabelText)
      → get_object_item o k ≡ none
      → get_object_item (t.add_string_to_object o k v) k ≡ some (label_text v)
  pub get-add_string_other :
      (o : Json) (k l : EnvelopeKey) (v : LabelText)
      → key_code k ≢ key_code l
      → get_object_item (t.add_string_to_object o k v) l ≡ get_object_item o l
  pub items-create : items c.create_array ≡ []
  pub items-add : (a x : Json) → items (c.add_item_to_array a x) ≡ items a ++ (x ∷ [])

module _ {Json : Type 0} (c : CJson Json) (t : CJsonText Json) (laws : CJsonLaws c t) where
  abbrev get : Json → EnvelopeKey → Option Json
  get = laws.get_object_item

  single : (x : Json) → laws.items (c.add_item_to_array c.create_array x) ≡ x ∷ []
  single x = laws.items-add c.create_array x ∙ ap (λ l. l ++ (x ∷ [])) laws.items-create

  pair :
      (x y : Json)
      → laws.items (c.add_item_to_array (c.add_item_to_array c.create_array x) y) ≡ x ∷ y ∷ []
  pair x y =
      laws.items-add (c.add_item_to_array c.create_array x) y ∙ ap (λ l. l ++ (y ∷ [])) (single x)

  -- What is under a key stays when a text is put under another.
  stays :
      (o : Json) (k : EnvelopeKey) (v : LabelText) (l : EnvelopeKey) {r : Option Json}
      → key_code k ≢ key_code l
      → get o l ≡ r
      → get (t.add_string_to_object o k v) l ≡ r
  stays o k v l ne e = laws.get-add_string_other o k l v ne ∙ e

  -- The four labels and their texts.
  abbrev pub HasLabels : Json → Type 0
  HasLabels o =
      (get o label ≡ some (laws.label_text cbcast_logs))
      × (get o host ≡ some (laws.label_text localhost))
      × (get o application ≡ some (laws.label_text cbc))
      × (get o level ≡ some (laws.label_text info))

  stream_labels-HasLabels : HasLabels (stream_labels c t)
  stream_labels-HasLabels =
      let add = t.add_string_to_object in
      let l₁ = add c.create_object label cbcast_logs in
      let l₂ = add l₁ host localhost in
      let l₃ = add l₂ application cbc in
      (
        stays l₃ level info label (omega arith) (
            stays l₂ application cbc label (omega arith) (
              stays l₁ host localhost label (omega arith)
                (laws.get-add_string c.create_object label cbcast_logs (laws.get-create label)))),
        stays l₃ level info host (omega arith) (
            stays l₂ application cbc host (omega arith) (
              laws.get-add_string l₁ host localhost (
                stays c.create_object label cbcast_logs host (omega arith)
                  (laws.get-create host)))),
        stays l₃ level info application (omega arith) (
            laws.get-add_string l₂ application cbc (
              stays l₁ host localhost application (omega arith) (
                stays c.create_object label cbcast_logs application (omega arith)
                  (laws.get-create application)))),
        laws.get-add_string l₃ level info (
            stays l₂ application cbc level (omega arith) (
              stays l₁ host localhost level (omega arith) (
                stays c.create_object label cbcast_logs level (omega arith)
                  (laws.get-create level)))),
      )

  -- The entry is an object with one stream, which has the four labels `label`, `host`,
  -- `application` and `level` with their texts, and one value: the timestamp and the statistics as
  -- a line of text.
  pub create_loki_log_lem :
      (timestamp : List ℕ) (log_message : Json)
      → (all one labels lines line : Json) × (get
            (create_loki_log c t timestamp log_message)
            streams
          ≡ some all)
        × (laws.items all ≡ one ∷ [])
        × (get one stream ≡ some labels)
        × HasLabels labels
        × (get one values ≡ some lines)
        × (laws.items lines ≡ line ∷ [])
        × (laws.items line
            ≡ t.create_string timestamp ∷ t.create_string (t.print_unformatted log_message) ∷ [])
  unfolding create_loki_log
  create_loki_log_lem timestamp log_message =
      let labelled = t.add_item_to_object c.create_object stream (stream_labels c t) in
      (
        _,
        _,
        _,
        _,
        _,
        laws.get-add c.create_object _ streams (laws.get-create streams),
        single _,
        laws.get-add_other labelled _ values stream (omega arith)
            ∙ laws.get-add c.create_object (stream_labels c t) stream (laws.get-create stream),
        stream_labels-HasLabels,
        laws.get-add labelled _ values (
            laws.get-add_other c.create_object (stream_labels c t) stream values (omega arith)
            ∙ laws.get-create values),
        single _,
        pair _ _,
      )
