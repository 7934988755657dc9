-- ===== src/Overlay/Pixels.antt =====
-- What the annotation leaves of the document.
use Prim.Native.Nat.{◌/◌, max}
use Prim.Native.Char.{code}
use Prim.Native.String.{[] as empty, ◌∷◌ as ◌:::◌, ◌++◌ as ◌+++◌}
use text.Mathlib.TextLemmas.{cons-append, nil-append}
use project_6_document_class.Base.{
  ℕ, Bool, true, not, eqb, ◌+◌, ◌-◌, ◌<◌, ◌≤◌, ◌≡◌, refl, sym, ◌∙◌, String, ◌&&◌, List, [], ◌∷◌,
  some, leb, if◌then◌else◌, arith, Option-cases, inl, inr,
}
use project_6_document_class.Domain.Ieee.{Double}
use project_6_document_class.Blob.{Bytes}
use project_6_document_class.Overlay.{
  Rgba, Drawing, font_candidates, font_size, banner_h, bar_h, bar_fill, banner_fill, transparent,
  white, load_font, bar_width, overlay, annotated, draw_overlay,
}

-- No character is a newline.
abbrev pub is_one_line : String → Bool
is_one_line empty = true
is_one_line (c ::: s) = not (eqb (code c) b'\n') && is_one_line s

is_one_line-append :
    (s t : String) → is_one_line s ≡ true → is_one_line t ≡ true → is_one_line (s +++ t) ≡ true
is_one_line-append empty t hs ht = rw (nil-append t) ht
is_one_line-append (c ::: s) t hs ht =
    rw (cons-append c s t) (ground (arith, hs, is_one_line-append s t))

-- What the code relies on, pixel by pixel: a rectangle includes its corners, a transparent pixel
-- leaves the pixel below it, and a text of one line covers the rows of that line only, of which a
-- font of 20 pixels has at most 30. A text with a newline goes on below.
pub record IsDrawing {Image Font : Type 0} (d : Drawing Image Font) (pixel : Image → ℕ → ℕ → Rgba)
    (blend : Rgba → Rgba → Rgba) (height : Font → ℕ) : Type 0 where
  pub size_new : (size : ℕ × ℕ) (fill : Rgba) → d.size (d.new size fill) ≡ size
  pub size_rectangle :
      (i : Image) (a b : ℕ × ℕ) (fill : Rgba) → d.size (d.rectangle i a b fill) ≡ d.size i
  pub pixel_new :
      (size : ℕ × ℕ) (fill : Rgba) (x y : ℕ)
      → x < size.0
      → y < size.1
      → pixel (d.new size fill) x y ≡ fill
  pub pixel_rectangle :
      (i : Image) (a b : ℕ × ℕ) (fill : Rgba) (x y : ℕ)
      → x < (d.size i).0
      → y < (d.size i).1
      → pixel (d.rectangle i a b fill) x y
        ≡ (if leb a.0 x && leb x b.0 && leb a.1 y && leb y b.1 then fill else pixel i x y)
  pub pixel_alpha_composite :
      (i o : Image) (x y : ℕ)
      → d.size i ≡ d.size o
      → x < (d.size i).0
      → y < (d.size i).1
      → pixel (d.alpha_composite i o) x y ≡ blend (pixel i x y) (pixel o x y)
  pub blend_transparent : (p : Rgba) → blend p transparent ≡ p
  pub pixel_text :
      (i : Image) (start : ℕ × ℕ) (t : String) (fill : Rgba) (font : Font) (x y : ℕ)
      → is_one_line t ≡ true
      → start.1 + height font ≤ y
      → pixel (d.text i start t fill font) x y ≡ pixel i x y
  pub percent_line : (confidence : Double) → is_one_line (d.percent confidence) ≡ true
  pub height_truetype :
      (path : String) {font : Font} → d.truetype path font_size ≡ some font → height font ≤ 30
  pub height_default : height d.load_default ≤ 30

module _ {Image Font : Type 0} (d : Drawing Image Font) {pixel : Image → ℕ → ℕ → Rgba}
    {blend : Rgba → Rgba → Rgba} {height : Font → ℕ} (laws : IsDrawing d pixel blend height) where
  height-load_font : (paths : List String) → height (load_font d paths) ≤ 30
  unfolding load_font
  height-load_font [] = laws.height_default
  height-load_font (path ∷ paths) = elim (Option-cases (d.truetype path font_size)) [
    | inl e ↦ rw e (height-load_font paths)
    | inr (font, e) ↦ rw e (laws.height_truetype path e)
  ]

  pixel-overlay :
      (w h bar_w x y : ℕ)
      → x < w
      → y < h
      → banner_h < y
      → pixel (overlay d (w, h) bar_w) x y
        ≡ (if leb x bar_w && leb y (banner_h + bar_h) then bar_fill else transparent)
  unfolding overlay
  pixel-overlay w h bar_w x y in_w in_h below =
      let blank = d.new (w, h) transparent in
      let banner = d.rectangle blank (0, 0) (w, banner_h) banner_fill in
      let s : d.size blank ≡ (w, h) = laws.size_new (w, h) transparent in
      let s' : d.size banner ≡ (w, h) =
        laws.size_rectangle blank (0, 0) (w, banner_h) banner_fill ∙ s in
      let first =
        laws.pixel_rectangle blank (0, 0) (w, banner_h) banner_fill x y (rw s in_w) (rw s in_h) in
      let second =
        laws.pixel_rectangle banner (0, banner_h) (bar_w, banner_h + bar_h) bar_fill x y
          (rw s' in_w) (rw s' in_h) in
      ground (arith, first, second, laws.pixel_new (w, h) transparent x y in_w in_h)

  size-overlay : (w h bar_w : ℕ) → d.size (overlay d (w, h) bar_w) ≡ (w, h)
  unfolding overlay
  size-overlay w h bar_w =
      laws.size_rectangle _ (0, banner_h) (bar_w, banner_h + bar_h) bar_fill
      ∙ laws.size_rectangle _ (0, 0) (w, banner_h) banner_fill
      ∙ laws.size_new (w, h) transparent

  annotated-below :
      (image : Image) (label : String) (confidence : Double) (bar_w x y : ℕ)
      → x < (d.size image).0
      → y < (d.size image).1
      → banner_h < y
      → is_one_line label ≡ true
      → pixel (annotated d image label confidence bar_w) x y ≡ (
          if leb x bar_w && leb y (banner_h + bar_h)
          then blend (pixel image x y) bar_fill
          else pixel image x y)
  unfolding annotated
  annotated-below image label confidence bar_w x y in_w in_h below line =
      let (w, h) = d.size image in
      let over = overlay d (w, h) bar_w in
      let font = load_font d font_candidates in
      let on_text =
        laws.pixel_text (d.alpha_composite image over) (10, (banner_h - font_size) / 2)
          (label +++ ("  " +++ d.percent confidence)) white font x y
          (is_one_line-append label ("  " +++ d.percent confidence) line
            (is_one_line-append "  " (d.percent confidence) refl (laws.percent_line confidence)))
          (omega (arith, height-load_font font_candidates)) in
      let on_image =
        laws.pixel_alpha_composite image over x y (sym (size-overlay w h bar_w)) in_w in_h in
      let on_overlay = pixel-overlay w h bar_w x y in_w in_h below in
      on_text ∙ on_image ∙ ground (arith, on_overlay, laws.blend_transparent (pixel image x y))

  -- If the label has no newline, the document is an image and the confidence gives a width, then
  -- an overlay is returned: an image, converted to RGB and saved as PNG, that before this
  -- conversion has below the banner the pixels of the document, but in the rows of the bar, up to
  -- its width and at least in the first two columns, where the green of the bar lies over them.
  pub draw_overlay_lem :
      (content : Bytes) (label : String) (confidence : Double) {image : Image} {scaled : ℕ}
      → is_one_line label ≡ true
      → d.open_image content ≡ some image
      → d.int_times (d.size image).0 confidence ≡ some scaled
      → (drawn : Image) × (draw_overlay d content label confidence ≡ some (d.save drawn))
        × ((x y : ℕ)
            → x < (d.size image).0
            → y < (d.size image).1
            → banner_h < y
            → pixel drawn x y ≡ (
                if leb x (max 1 scaled) && leb y (banner_h + bar_h)
                then blend (pixel image x y) bar_fill
                else pixel image x y))
  unfolding draw_overlay
  draw_overlay_lem content label confidence {image} {scaled} line opened number = (
    annotated d image label confidence (bar_width d scaled),
    ground (arith, opened, number),
    λ x y in_w in_h below.
        annotated-below image label confidence (max 1 scaled) x y in_w in_h below line,
  )
