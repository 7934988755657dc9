-- ===== src/Blob/Keys.antt =====
-- The keys of one batch: an original for each file name, and no overlay among them.
use Prim.Native.String.{◌++◌ as ◌+++◌}
use text.Mathlib.TextLemmas.{append_cancel_left, cons-append, append_assoc}
use project_6_document_class.Base.{◌≡◌, ◌≢◌, String, ◌∙◌, arith, ap}
use project_6_document_class.Base.Texts.{apart}
use project_6_document_class.FileName.{stem}
use project_6_document_class.Blob.{original_key, overlay_key}

pub original_key_inj : (b f g : String) → original_key b f ≡ original_key b g → f ≡ g
unfolding original_key
original_key_inj b f g h = append_cancel_left ("batches/" +++ (b +++ "/original/")) f g h

tails_apart : (x y : String) → "/overlay/" +++ x ≢ "/original/" +++ y
tails_apart x y =
    rw
      (
        append_assoc "/o" "verlay/" x,
        append_assoc "/o" "riginal/" y,
        cons-append "v" "erlay/" x,
        cons-append "r" "iginal/" y,
      )
      (apart "/o" ("erlay/" +++ x) ("iginal/" +++ y) "v" "r" (omega arith))

pub overlay_key-ne-original_key : (b f g : String) → overlay_key b f ≢ original_key b g
unfolding overlay_key original_key
overlay_key-ne-original_key b f g h = tails_apart (stem f +++ ".png") g (
    append_cancel_left b _ _ (
      append_cancel_left "batches/" _ _ (
        h
        ∙ append_assoc "batches/" (b +++ "/original/") g
        ∙ ap (λ t. "batches/" +++ t) (append_assoc b "/original/" g))))
