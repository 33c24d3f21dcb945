-- ===== src/Driver/Display/Region/Flush.antt =====
-- driver/display/display_driver.c: what a flush does.
use agcore.Prelude.{
  ℕ, ◌≡◌, refl, Option, none, sym, ◌∙◌, ◌⊎◌, inl, inr, List, some, Bool, not, true, false, arith,
  if◌then◌else◌,
}
use agcore.Platform.{EspErr, invalid_arg, invalid_state}
use agcore.Driver.Display.{PanelConfig, Display, Answers}
use agcore.Driver.Display.Facade.{DisplayIc, st7735, st7789, driver_flush}
use agcore.Driver.Display.Sequence.{Followed}
use agcore.Driver.Display.Region.{
  IsSized, IsFit, InScreen, region_calls, offsets, st7735-Followed, st7789-Followed, bad_region,
  good_region, same_test,
}
use agcore.Driver.Display.St7735
use agcore.Driver.Display.St7789

-- What a flush does to a display: nothing before the initialisation, nothing for a region with no pixels
-- or that is not a rectangle in the screen, and otherwise the calls for that region of the memory.
abbrev pub Flushed :
    DisplayIc → PanelConfig → Display → ℕ → ℕ → ℕ → ℕ → Option (List ℕ) → EspErr × Display → Type 0
Flushed ic cfg d x_start y_start x_end y_end none o =
    o ≡ (if d.runtime.initialized then invalid_arg else invalid_state, d)
Flushed ic cfg d x_start y_start x_end y_end (some pixels) o =
    ((d.runtime.initialized ≡ false) × (o ≡ (invalid_state, d)))
    ⊎ ((d.runtime.initialized ≡ true)
        × (¬ InScreen d x_start y_start x_end y_end)
        × (o ≡ (invalid_arg, d)))
    ⊎ ((d.runtime.initialized ≡ true)
        × InScreen d x_start y_start x_end y_end
        × Followed (region_calls x_start y_start x_end y_end pixels (offsets ic cfg d.runtime)) d o)

guarded :
    (P : EspErr × Display → Type 0) (ready bad : Bool) (x y z : EspErr × Display)
    → (ready ≡ false → P x)
    → (ready ≡ true → bad ≡ true → P y)
    → (ready ≡ true → bad ≡ false → P z)
    → P (if not ready then x else if bad then y else z)
guarded P false bad x y z f g h = f refl
guarded P true true x y z f g h = g refl refl
guarded P true false x y z f g h = h refl refl

module _ (cfg : PanelConfig) (answer : Answers) (d : Display)
    (x_start y_start x_end y_end : ℕ) where
  flush-null :
      (ic : DisplayIc)
      → Flushed ic cfg d x_start y_start x_end y_end none
          (driver_flush cfg answer ic x_start y_start x_end y_end none d)
  unfolding St7735.flush St7789.flush
  flush-null st7735 = ground arith
  flush-null st7789 = ground arith

  module _ (pixels : List ℕ) (v : IsFit cfg) (s : IsSized cfg d.runtime) where
    flush_st7735 :
        Flushed st7735 cfg d x_start y_start x_end y_end
          (some pixels)
          (driver_flush cfg answer st7735 x_start y_start x_end y_end (some pixels) d)
    unfolding St7735.flush
    flush_st7735 =
        guarded (Flushed st7735 cfg d x_start y_start x_end y_end (some pixels))
          d.runtime.initialized (St7735.is_bad_region d x_start y_start x_end y_end)
          (invalid_state, d) (invalid_arg, d)
          (St7735.send_region cfg answer x_start y_start x_end y_end pixels d) (λ e. inl (e, refl))
          (λ e bad.
            inr (inl (e, bad_region cfg answer d v s x_start y_start x_end y_end bad, refl)))
          (λ e good.
            let i = good_region cfg answer d v s x_start y_start x_end y_end good in
            inr (inr (e, i, st7735-Followed cfg answer d v s x_start y_start x_end y_end pixels i)))

    flush_st7789 :
        Flushed st7789 cfg d x_start y_start x_end y_end
          (some pixels)
          (driver_flush cfg answer st7789 x_start y_start x_end y_end (some pixels) d)
    unfolding St7789.flush
    flush_st7789 =
        guarded (Flushed st7789 cfg d x_start y_start x_end y_end (some pixels))
          d.runtime.initialized (St7789.is_bad_region d x_start y_start x_end y_end)
          (invalid_state, d) (invalid_arg, d)
          (St7789.send_region cfg answer x_start y_start x_end y_end pixels d) (λ e. inl (e, refl))
          (λ e bad. inr (
            inl (
              e,
              bad_region cfg answer d v s x_start y_start x_end y_end
                  (sym (same_test cfg answer d v s x_start y_start x_end y_end) ∙ bad),
              refl,
            )))
          (λ e good.
            let i =
              good_region cfg answer d v s x_start y_start x_end y_end
                (sym (same_test cfg answer d v s x_start y_start x_end y_end) ∙ good) in
            inr (inr (e, i, st7789-Followed cfg answer d v s x_start y_start x_end y_end pixels i)))

    flush-pixels :
        (ic : DisplayIc)
        → Flushed ic cfg d x_start y_start x_end y_end
            (some pixels)
            (driver_flush cfg answer ic x_start y_start x_end y_end (some pixels) d)
    flush-pixels st7735 = flush_st7735
    flush-pixels st7789 = flush_st7789

-- Let the configured width and height, together with each offset, be at most 65536, and the bytes of a
-- frame fit 32 bits. A flush on a display whose size is the configured one, turned or not: before the
-- initialisation, with no pixels, or for what is no rectangle in the screen it makes no call and returns
-- the error. Otherwise it sends the rectangle's two address ranges, at the panel's offset, and its pixels,
-- in this order up to the first call that fails; it sends all of them if it returns ESP_OK. The number of
-- bytes is that of the rectangle. Under the conditions no address wraps.
pub driver_flush-Flushed :
    (ic : DisplayIc) (cfg : PanelConfig) (answer : Answers) (d : Display)
    (x_start y_start x_end y_end : ℕ) (pixels : Option (List ℕ))
    → IsFit cfg
    → IsSized cfg d.runtime
    → Flushed ic cfg d x_start y_start x_end y_end pixels
        (driver_flush cfg answer ic x_start y_start x_end y_end pixels d)
driver_flush-Flushed ic cfg answer d x_start y_start x_end y_end none v s =
    flush-null cfg answer d x_start y_start x_end y_end ic
driver_flush-Flushed ic cfg answer d x_start y_start x_end y_end (some pixels) v s =
    flush-pixels cfg answer d x_start y_start x_end y_end pixels v s ic
