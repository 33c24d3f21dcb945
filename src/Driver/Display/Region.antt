-- ===== src/Driver/Display/Region.antt =====
-- driver/display: the region that a flush writes.
pub mod Flush
use native.Mathlib.Nat.{mul-le-mul_left, mul-le-mul_right, mul_comm}
use agcore.Prelude.{
  ℕ, ◌+◌, ◌-◌, ◌*◌, ◌/◌, ◌%◌, ◌^◌, ◌≤◌, ◌<◌, ◌≡◌, refl, Option, none, ap, ap₂, sym, ◌∙◌, subst, ◌⊎◌,
  inl, inr, List, [], ◌∷◌, some, Bool, not, true, false, arith, if◌then◌else◌, Bool-cases, u16, u32,
  u8, ◌>>>◌, ◌||◌, ltb, leb, ◌==◌,
}
use agcore.Platform.{EspErr, invalid_arg, invalid_state}
use agcore.Driver.Display.{
  Call, LcdCmd, caset, raset, ramwr, tx_param, tx_color, PanelConfig, Runtime, Display, Answers,
  is_turned, Act, call, ◌>>◌,
}
use agcore.Driver.Display.Facade.{DisplayIc, st7735, st7789, driver_flush}
use agcore.Driver.Display.Sequence.{Followed, Follows, Follows-then, Follows-call}
use agcore.Driver.Display.St7735
use agcore.Driver.Display.St7789

-- The screen is the configured one, turned or not.
abbrev pub IsSized : PanelConfig → Runtime → Type 0
IsSized cfg r =
    (r.width ≡ (if is_turned r.rotation then cfg.height else cfg.width))
    × (r.height ≡ (if is_turned r.rotation then cfg.width else cfg.height))

-- The configured screen and its offsets in a direction fit the panel's 16-bit addresses, and a frame
-- the size of a transfer.
pub record IsFit (cfg : PanelConfig) : Type 0 where
  pub width_x : cfg.width + cfg.x_offset ≤ 65536
  pub width_y : cfg.width + cfg.y_offset ≤ 65536
  pub height_x : cfg.height + cfg.x_offset ≤ 65536
  pub height_y : cfg.height + cfg.y_offset ≤ 65536
  pub wide : cfg.width < 65536
  pub high : cfg.height < 65536
  pub frame : cfg.width * cfg.height * 2 < 4294967296

abbrev pub InScreen : Display → ℕ → ℕ → ℕ → ℕ → Type 0
InScreen d x_start y_start x_end y_end =
    (x_start < x_end) × (y_start < y_end) × (x_end ≤ d.runtime.width) × (y_end ≤ d.runtime.height)

-- An address range of the panel, its ends included, high bytes first.
abbrev pub range_of : ℕ → ℕ → List ℕ
range_of a b = a / 256 ∷ a % 256 ∷ b / 256 ∷ b % 256 ∷ []

-- A region of the panel's memory and its pixels.
abbrev pub region_calls : ℕ → ℕ → ℕ → ℕ → List ℕ → ℕ × ℕ → List Call
region_calls x_start y_start x_end y_end pixels (x, y) =
    tx_param caset (range_of (x_start + x) (x_end - 1 + x))
    ∷ tx_param raset (range_of (y_start + y) (y_end - 1 + y))
    ∷ tx_color ramwr pixels ((x_end - x_start) * (y_end - y_start) * 2)
    ∷ []

-- Where the screen lies in the memory: the ST7789 has its offsets swapped in a turned direction.
abbrev pub offsets : DisplayIc → PanelConfig → Runtime → ℕ × ℕ
offsets st7735 cfg r = (cfg.x_offset, cfg.y_offset)
offsets st7789 cfg r =
    if is_turned r.rotation then (cfg.y_offset, cfg.x_offset) else (cfg.x_offset, cfg.y_offset)

area-lt : (a b w h : ℕ) → a ≤ w → b ≤ h → w * h * 2 < 4294967296 → a * b * 2 < 4294967296
area-lt a b w h p q r = omega (arith, mul-le-mul_right b p, mul-le-mul_left w q)

ends : (a b : ℕ) → a < 65536 → b < 65536 → St7735.range_bytes (u16 a) (u16 b) ≡ range_of a b
unfolding St7735.range_bytes
ends a b p q = ground arith

ends' : (a b : ℕ) → a < 65536 → b < 65536 → St7789.range_bytes (u16 a) (u16 b) ≡ range_of a b
unfolding St7789.range_bytes
ends' a b p q = ground arith

region3 :
    (answer : Answers) (a b c : Call)
    → Follows (a ∷ b ∷ c ∷ []) (call answer a >> (call answer b >> call answer c))
region3 answer a b c =
    Follows-then (Follows-call answer a)
      (Follows-then (Follows-call answer b) (Follows-call answer c))

-- The width and the height of a region that a screen of w by h has.
size_lem :
    (w h a b : ℕ)
    → a ≤ w
    → b ≤ h
    → w < 65536
    → h < 65536
    → w * h * 2 < 4294967296
    → u32 (u16 a * u16 b * 2) ≡ a * b * 2
size_lem w h a b p q wide high frame =
    let e : u16 a ≡ a = omega arith in
    let f : u16 b ≡ b = omega arith in
    let g : a * b * 2 < 4294967296 = area-lt a b w h p q frame in rw (e, f) (omega arith)

module _ (cfg : PanelConfig) (answer : Answers) (d : Display) (v : IsFit cfg)
    (s : IsSized cfg d.runtime) where
  wide : d.runtime.width < 65536
  wide = ground (arith, v.wide, v.high, s.0)

  high : d.runtime.height < 65536
  high = ground (arith, v.wide, v.high, s.1)

  frame : d.runtime.width * d.runtime.height * 2 < 4294967296
  frame = elim (Bool-cases (is_turned d.runtime.rotation)) [
    | inl e ↦
        let a : d.runtime.width ≡ cfg.height = ground (arith, s.0, e) in
        let b : d.runtime.height ≡ cfg.width = ground (arith, s.1, e) in
        rw (a, b) (omega (arith, mul_comm cfg.height cfg.width, v.frame))
    | inr e ↦
        let a : d.runtime.width ≡ cfg.width = ground (arith, s.0, e) in
        let b : d.runtime.height ≡ cfg.height = ground (arith, s.1, e) in rw (a, b) v.frame
  ]

  x_fits : d.runtime.width + St7789.x_offset cfg d ≤ 65536
  unfolding St7789.x_offset
  x_fits = ground (arith, s.0, v.width_x, v.height_y)

  y_fits : d.runtime.height + St7789.y_offset cfg d ≤ 65536
  unfolding St7789.y_offset
  y_fits = ground (arith, s.1, v.width_x, v.height_y)

  offsets-pair : offsets st7789 cfg d.runtime ≡ (St7789.x_offset cfg d, St7789.y_offset cfg d)
  unfolding St7789.x_offset St7789.y_offset
  offsets-pair = ground arith

  module _ (x_start y_start x_end y_end : ℕ) (pixels : List ℕ)
      (i : InScreen d x_start y_start x_end y_end) where
    area :
        u32 (u16 (x_end - x_start) * u16 (y_end - y_start) * 2)
        ≡ (x_end - x_start) * (y_end - y_start) * 2
    area =
        size_lem d.runtime.width d.runtime.height (x_end - x_start) (y_end - y_start) (omega arith)
          (omega arith) wide high frame

    pub st7735-Followed :
        Followed
          (region_calls x_start y_start x_end y_end pixels (offsets st7735 cfg d.runtime))
          d
          (St7735.send_region cfg answer x_start y_start x_end y_end pixels d)
    unfolding St7735.send_region
    st7735-Followed =
        let x : d.runtime.width + cfg.x_offset ≤ 65536 =
          ground (arith, s.0, v.width_x, v.height_x) in
        let y : d.runtime.height + cfg.y_offset ≤ 65536 =
          ground (arith, s.1, v.width_y, v.height_y) in
        subst
          (λ cs. Followed cs d (St7735.send_region cfg answer x_start y_start x_end y_end pixels d))
          (rw
            (
              ends (x_start + cfg.x_offset) (x_end - 1 + cfg.x_offset) (omega arith) (omega arith),
              ends (y_start + cfg.y_offset) (y_end - 1 + cfg.y_offset) (omega arith) (omega arith),
              area,
            )
            refl)
          ((region3 answer _ _ _).run d)

    pub st7789-Followed :
        Followed
          (region_calls x_start y_start x_end y_end pixels (offsets st7789 cfg d.runtime))
          d
          (St7789.send_region cfg answer x_start y_start x_end y_end pixels d)
    unfolding St7789.send_region
    st7789-Followed =
        let x : d.runtime.width + St7789.x_offset cfg d ≤ 65536 = x_fits in
        let y : d.runtime.height + St7789.y_offset cfg d ≤ 65536 = y_fits in
        rw offsets-pair (
          subst
            (λ cs.
              Followed cs d (St7789.send_region cfg answer x_start y_start x_end y_end pixels d))
            (rw
              (
                ends' (x_start + St7789.x_offset cfg d) (x_end - 1 + St7789.x_offset cfg d)
                    (omega arith) (omega arith),
                ends' (y_start + St7789.y_offset cfg d) (y_end - 1 + St7789.y_offset cfg d)
                    (omega arith) (omega arith),
                area,
              )
              refl)
            ((region3 answer _ _ _).run d))

  pub bad_region :
      (x_start y_start x_end y_end : ℕ)
      → St7735.is_bad_region d x_start y_start x_end y_end ≡ true
      → ¬ InScreen d x_start y_start x_end y_end
  unfolding St7735.is_bad_region
  bad_region x_start y_start x_end y_end e i = ground arith

  pub good_region :
      (x_start y_start x_end y_end : ℕ)
      → St7735.is_bad_region d x_start y_start x_end y_end ≡ false
      → InScreen d x_start y_start x_end y_end
  unfolding St7735.is_bad_region
  good_region x_start y_start x_end y_end e =
      (ground arith, ground arith, ground arith, ground arith)

  pub same_test :
      (x_start y_start x_end y_end : ℕ)
      → St7789.is_bad_region d x_start y_start x_end y_end
        ≡ St7735.is_bad_region d x_start y_start x_end y_end
  unfolding St7735.is_bad_region St7789.is_bad_region
  same_test x_start y_start x_end y_end = refl
