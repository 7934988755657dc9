-- ===== src/Overlay.antt =====
-- app/classifier/overlay.py: the annotation of a document. PIL and the arithmetic of floats are
-- the interface `Drawing`.
pub mod Pixels
use Prim.Native.Nat.{◌/◌, max}
use Prim.Native.String.{◌++◌ as ◌+++◌}
use project_6_document_class.Base.{ℕ, ◌+◌, ◌-◌, String, List, [], ◌∷◌, Option, none, some}
use project_6_document_class.Domain.Ieee.{Double}
use project_6_document_class.Blob.{Bytes}

abbrev pub Rgba : Type 0
Rgba = ℕ × ℕ × ℕ × ℕ

-- `open_image` is `Image.open` and the conversion to RGBA, `save` the conversion to RGB and the PNG.
-- `int_times w c` is `int(w * c)`, a negative one as 0, and `percent c` is `f"{c:.1%}"`. `none` is
-- an exception; `OSError` in `truetype`.
pub record Drawing (Image Font : Type 0) : Type 0 where
  pub open_image : Bytes → Option Image
  pub size : Image → ℕ × ℕ
  pub new : ℕ × ℕ → Rgba → Image
  pub rectangle : Image → ℕ × ℕ → ℕ × ℕ → Rgba → Image
  pub alpha_composite : Image → Image → Image
  pub truetype : String → ℕ → Option Font
  pub load_default : Font
  pub text : Image → ℕ × ℕ → String → Rgba → Font → Image
  pub save : Image → Bytes
  pub int_times : ℕ → Double → Option ℕ
  pub percent : Double → String

abbrev pub font_candidates : List String
font_candidates =
    "/usr/share/fonts/truetype/dejavu/DejaVuSans-Bold.ttf"
    ∷ "/usr/share/fonts/dejavu/DejaVuSans-Bold.ttf" ∷ "/usr/share/fonts/TTF/DejaVuSans-Bold.ttf"
    ∷ []

abbrev pub font_size : ℕ
font_size = 20

abbrev pub banner_h : ℕ
banner_h = 40

abbrev pub bar_h : ℕ
bar_h = 6

abbrev pub banner_fill : Rgba
banner_fill = (0, 0, 0, 160)

abbrev pub bar_fill : Rgba
bar_fill = (0, 200, 80, 220)

abbrev pub transparent : Rgba
transparent = (0, 0, 0, 0)

abbrev pub white : Rgba
white = (255, 255, 255, 255)

module _ {Image Font : Type 0} (d : Drawing Image Font) where
  abbrev or_next : Option Font → Font → Font
  or_next none next = next
  or_next (some font) next = font

  -- The loop of `_load_font`: the first candidate that loads.
  unfoldable pub load_font : List String → Font
  load_font [] = d.load_default
  load_font (path ∷ paths) = or_next (d.truetype path font_size) (load_font paths)

  abbrev pub bar_width : ℕ → ℕ
  bar_width scaled = max 1 scaled

  -- The transparent image with the banner and the bar.
  unfoldable pub overlay : ℕ × ℕ → ℕ → Image
  overlay (w, h) bar_w =
      d.rectangle (d.rectangle (d.new (w, h) transparent) (0, 0) (w, banner_h) banner_fill)
        (0, banner_h) (bar_w, banner_h + bar_h) bar_fill

  -- The image with the overlay and the text.
  unfoldable pub annotated : Image → String → Double → ℕ → Image
  unfolding overlay load_font
  annotated image label confidence bar_w =
      d.text (d.alpha_composite image (overlay (d.size image) bar_w))
        (10, (banner_h - font_size) / 2) (label +++ ("  " +++ d.percent confidence)) white
        (load_font font_candidates)

  abbrev with_bar : Image → String → Double → Option ℕ → Option Bytes
  with_bar image label confidence none = none
  with_bar image label confidence (some scaled) =
      some (d.save (annotated image label confidence (bar_width scaled)))

  unfoldable pub draw_overlay : Bytes → String → Double → Option Bytes
  unfolding annotated
  draw_overlay content label confidence = elim (d.open_image content) [
    | none ↦ none
    | some image ↦ with_bar image label confidence (d.int_times (d.size image).0 confidence)
  ]
