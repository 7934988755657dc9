-- ===== src/Dashboard/Formats.antt =====
-- The formatters of streamlit-dashboard.py, and the batch that a person picks by its text. What
-- Python's `str`, `str.title`, the formats of floats and of dates make is an argument.
use Prim.Native.Char.{code}
use Prim.Native.String.{[] as empty, ◌∷◌ as ◌:::◌, ◌++◌ as ◌+++◌}
use project_6_document_class.Base.{
  ℕ, zero, suc, String, Bool, true, false, ◌==◌, eqb, Option, none, some, if◌then◌else◌,
}
use project_6_document_class.Casbin.{strip}
use project_6_document_class.Domain.Ieee.{Double}
use project_6_document_class.Dashboard.{
  Parse, Value, null, flag, number, text, get, truthy_field, review_label, ReviewLabel,
}

-- `fromisoformat` with `strftime` gives none on a ValueError; `percent x` is `f"{x*100:.0f}%"`.
pub record Formats : Type 0 where
  pub str : Value → String
  pub title : String → String
  pub date_text : String → Option String
  pub percent : Double → String
  pub float : Parse

-- `t[:n]`
unfoldable pub slice : ℕ → String → String
slice zero s = ""
slice (suc n) empty = ""
slice (suc n) (c ::: s) = c ::: slice n s

-- `s.replace("_", " ")`
unfoldable pub spaced : String → String
spaced empty = ""
spaced (c ::: s) = (if eqb (code c) b'_' then " " else c ::: "") +++ spaced s

-- `text[:-1]` where `text` ends with "Z".
unfoldable pub without_z : String → Option String
without_z empty = none
without_z (c ::: empty) = if eqb (code c) b'Z' then some "" else none
without_z (c ::: d ::: s) = elim (without_z (d ::: s)) [ none ↦ none | some t ↦ some (c ::: t) ]

-- An entry that is missing is None.
abbrev pub or_null : Option Value → Value
or_null none = null
or_null (some v) = v

module _ (f : Formats) where
  unfoldable pub short_ref : Option Value → String
  unfolding slice
  short_ref none = "-"
  short_ref (some null) = "-"
  short_ref (some v) = slice 8 (f.str v)

  abbrev dated : Option String → String
  dated none = "—"
  dated (some t) = t

  abbrev zoned : String → Option String → String
  zoned t none = t
  zoned t (some u) = u +++ "+00:00"

  unfoldable pub format_datetime : Option Value → String
  unfolding strip without_z
  format_datetime none = "—"
  format_datetime (some null) = "—"
  format_datetime (some v) =
      let t = strip (f.str v) in
      if t == "" then "—" else dated (f.date_text (zoned t (without_z t)))

  abbrev percent_or_dash : Option Double → String
  percent_or_dash none = "—"
  percent_or_dash (some x) = f.percent x

  unfoldable pub confidence_text : Option Value → String
  confidence_text (some (number x)) = f.percent x
  confidence_text (some (text t)) = percent_or_dash (f.float t)
  confidence_text (some (flag true)) = f.percent (record { bits = 0x3FF0000000000000 })
  confidence_text (some (flag false)) = f.percent (record { bits = 0 })
  confidence_text _ = "—"

  abbrev status_icon : String → String
  status_icon s =
      if s == "pending"
      then "⏳"
      else if s == "processing"
      then "⚙\u{fe0f}"
      else if s == "done"
      then "✅"
      else if s == "failed"
      then "❌"
      else ""

  abbrev status_text : String → String
  status_text s =
      if s == "pending"
      then "Waiting"
      else if s == "processing"
      then "Processing"
      else if s == "done"
      then "Completed"
      else if s == "failed"
      then "Failed"
      else f.title (spaced s)

  unfoldable pub status_label : Option Value → String
  unfolding strip spaced
  status_label v = let s = f.str (or_null v) in strip (status_icon s +++ (" " +++ status_text s))

  unfoldable pub role_label : Option Value → String
  role_label v =
      let s = f.str (or_null v) in
      if s == "admin"
      then "Administrator"
      else if s == "reviewer"
      then "Reviewer"
      else if s == "auditor"
      then "Viewer"
      else f.title s

  -- `b.get('file_count',0)` in a text.
  abbrev file_count : Option Value → String
  file_count none = "0"
  file_count (some v) = f.str v

  unfoldable pub fmt_batch_option : Value → String
  unfolding short_ref status_label
  fmt_batch_option b =
      short_ref (get "id" b)
      +++ (" · "
          +++ (status_label (get "status" b)
              +++ (" · " +++ (file_count (get "file_count" b) +++ " files"))))

-- `dict.get(key, "—")`
abbrev or_dash : Option Value → Value
or_dash none = text "—"
or_dash (some v) = v

-- `a or b or "—"`
abbrev first_truthy : Option Value → Option Value → Value
first_truthy a b =
    if truthy_field a then or_null a else if truthy_field b then or_null b else text "—"

pub record PredictionRow : Type 0 where
  pub document : Value
  pub label : Value
  pub confidence : String
  pub status : ReviewLabel
  pub batch : String
  pub created : String

pub record UserRow : Type 0 where
  pub email : Value
  pub role : String
  pub is_active : Bool
  pub joined : String

module _ (f : Formats) where
  unfoldable pub fmt_prediction_row : Value → PredictionRow
  unfolding confidence_text review_label short_ref format_datetime
  fmt_prediction_row p = record {
    document = or_dash (get "filename" p);
    label = first_truthy (get "relabeled_class" p) (get "predicted_class" p);
    confidence = confidence_text f (get "confidence" p);
    status = review_label f.float p;
    batch = short_ref f (get "batch_id" p);
    created = format_datetime f (get "created_at" p);
  }

  -- `is_active` stands for "Yes" and "No".
  unfoldable pub fmt_user_row : Value → UserRow
  unfolding role_label format_datetime
  fmt_user_row u = record {
    email = or_dash (get "email" u);
    role = role_label f (get "role" u);
    is_active = truthy_field (get "is_active" u);
    joined = format_datetime f (get "created_at" u);
  }
