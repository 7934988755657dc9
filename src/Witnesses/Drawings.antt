-- ===== src/Witnesses/Drawings.antt =====
-- The overlay on images that are functions of a column and a row.
use Prim.Native.Nat.{max}
use project_6_document_class.Base.{
  ℕ, ◌+◌, ◌<◌, ◌≡◌, refl, ◌&&◌, [], Option, some, arith, leb, ltb, eqb, if◌then◌else◌,
}
use project_6_document_class.Overlay.{Rgba, Drawing, draw_overlay, bar_fill, banner_h, bar_h}
use project_6_document_class.Overlay.Pixels
use project_6_document_class.Overlay.Pixels.{IsDrawing}
use project_6_document_class.Witnesses.{half}

abbrev Canvas : Type 0
Canvas = (ℕ × ℕ) × (ℕ → ℕ → Rgba)

abbrev blend : Rgba → Rgba → Rgba
blend below above = if eqb above.3 0 then below else above

-- A font is its size.
abbrev canvases : Drawing Canvas ℕ
canvases = record {
  open_image = λ content. some ((200, 300), λ x y. (x, y, 0, 255));
  size = λ image. image.0;
  new = λ size fill. (size, λ x y. fill);
  rectangle = λ image a b fill. (
    image.0,
    λ x y. if leb a.0 x && leb x b.0 && leb a.1 y && leb y b.1 then fill else image.1 x y,
  );
  alpha_composite = λ image over. (image.0, λ x y. blend (image.1 x y) (over.1 x y));
  truetype = λ path size. some size;
  load_default = 11;
  text = λ image start t fill font.
      (image.0, λ x y. if leb start.1 y && ltb y (start.1 + font) then fill else image.1 x y);
  save = λ image. [];
  int_times = λ w c. some 100;
  percent = λ c. "50.0%";
}

same_size : {m n : ℕ} → ◌≡◌ {A = Option ℕ} (some m) (some n) → m ≡ n
same_size h = cc

canvases-IsDrawing : IsDrawing canvases (λ image. image.1) blend (λ font. font)
canvases-IsDrawing = record {
  size_new = λ size fill. refl;
  size_rectangle = λ i a b fill. refl;
  pixel_new = λ size fill x y in_w in_h. refl;
  pixel_rectangle = λ i a b fill x y in_w in_h. refl;
  pixel_alpha_composite = λ i o x y same in_w in_h. refl;
  blend_transparent = λ p. refl;
  pixel_text = λ i start t fill font x y line after. ground arith;
  percent_line = λ c. refl;
  height_truetype = λ path {font} h. omega (arith, same_size h);
  height_default = omega arith;
}

draw_overlay_lem_example :
    (drawn : Canvas) × (draw_overlay canvases [] "memo" half ≡ some [])
    × ((x y : ℕ)
        → x < 200
        → y < 300
        → banner_h < y
        → drawn.1 x y ≡ (
            if leb x (max 1 100) && leb y (banner_h + bar_h)
            then blend (x, y, 0, 255) bar_fill
            else (x, y, 0, 255)))
draw_overlay_lem_example =
    Pixels.draw_overlay_lem canvases canvases-IsDrawing [] "memo" half refl refl refl
